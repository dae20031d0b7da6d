-- ===== src/SchemaLoading.antt =====
-- client/app/pages/queries/hooks/useDataSourceSchema.js: the schema of a data source, which may be loaded
-- by a job that is polled, for reloads that overlap. A reload is known by a number, as it is by its
-- token, and the answer to a request and the end of a wait are events.
pub mod Latest
mod Tests
use mxzz_bi.Prelude.{
  ℕ, suc, ◌+◌, String, Bool, true, false, ◌&&◌, Option, none, some, List, [], ◌∷◌, length, ltb,
  ◌==◌, if◌then◌else◌,
}

pub record Table : Type 0 where
  pub name : String
  pub columns : List String

-- The tables with their number of columns in all.
pub record Schema : Type 0 where
  pub tables : List Table
  pub tokens_count : ℕ

-- What comes back: to the first request a job, a schema, or neither; to a poll the job's status with the
-- result and the code of its error; a failure of either; and the end of a wait.
pub data Answer : Type 0 where
  started_job bare failure slept : Answer
  has_schema : List Table → Answer
  job : (status : ℕ) (result : List Table) (code : Option ℕ) → Answer

-- Where `getSchema` is.
pub data Progress : Type 0 where
  asking polling sleeping gave_up : Progress
  done : List Table → Progress

pub data Event : Type 0 where
  reload : (number : ℕ) (has_data_source : Bool) → Event
  answer : (number : ℕ) → Answer → Event
  unmount : Event

pub record Hook : Type 0 where
  pub schema : Schema
  -- `refreshSchemaTokenRef.current`
  pub token : Option ℕ
  pub progress : ℕ → Progress
  -- how often "Schema refresh failed." was shown
  pub errors : ℕ

unfoldable pub count_tokens : List Table → ℕ
count_tokens [] = 0
count_tokens (t ∷ ts) = length t.columns + count_tokens ts

unfoldable pub prepare_schema : List Table → Schema
unfolding count_tokens
prepare_schema ts = record { tables = ts; tokens_count = count_tokens ts }

abbrev pub schema_not_supported : Option ℕ → Bool
schema_not_supported none = false
schema_not_supported (some code) = code == 1

-- `fetchSchemaFromJob` when the job is there.
unfoldable pub fetch_schema_from_job : ℕ → List Table → Option ℕ → Progress
fetch_schema_from_job status result code =
    if ltb status 3
    then sleeping
    else if status == 3
    then done result
    else if status == 4 && schema_not_supported code
    then done []
    else gave_up

-- `getSchema` with a data source, answer by answer.
unfoldable pub advance : Progress → Answer → Progress
unfolding fetch_schema_from_job
advance asking started_job = polling
advance asking (has_schema ts) = done ts
advance asking bare = gave_up
advance asking failure = gave_up
advance asking _ = asking
advance polling (job status result code) = fetch_schema_from_job status result code
advance polling failure = gave_up
advance polling _ = polling
advance sleeping slept = polling
advance sleeping _ = sleeping
advance gave_up _ = gave_up
advance (done ts) _ = done ts

-- What `getSchema` resolves to, once it does.
abbrev pub outcome : Progress → Option (List Table)
outcome gave_up = some []
outcome (done ts) = some ts
outcome _ = none

abbrev pub is_failed : Progress → Bool
is_failed gave_up = true
is_failed _ = false

abbrev pub is_current : Option ℕ → ℕ → Bool
is_current none n = false
is_current (some m) n = m == n

-- A reload that has come to an end with these tables, or has not.
unfoldable pub land : ℕ → Option (List Table) → Hook → Hook
unfolding prepare_schema
land n none h = h
land n (some ts) h = if is_current h.token n then record h { schema = prepare_schema ts } else h

abbrev pub set_progress : ℕ → Progress → (ℕ → Progress) → ℕ → Progress
set_progress n p progress m = if n == m then p else progress m

abbrev pub move : ℕ → Progress → Hook → Hook
move n p h = record h {
  progress = set_progress n p h.progress;
  errors = if is_failed p then suc h.errors else h.errors;
}

unfoldable pub step : Event → Hook → Hook
unfolding land advance
step (reload n true) h = record (move n asking h) { token = some n }
step (reload n false) h = land n (some []) (record (move n (done []) h) { token = some n })
step (answer n a) h = elim (outcome (h.progress n)) [
  | some ts ↦ h
  | none ↦ let p = advance (h.progress n) a in land n (outcome p) (move n p h)
]
step unmount h = record h { token = none }

unfoldable pub run : List Event → Hook → Hook
unfolding step
run [] h = h
run (e ∷ es) h = run es (step e h)
