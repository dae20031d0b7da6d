-- ===== src/QueryResult/Job.antt =====
-- client/app/services/query-result.js: the class `QueryResult`, its promise and `update`.
-- The data of a result is any type `D`; `prepare` is what `update` does to it (`type_data` of
-- ColumnTypes).
use mathlib.Core.Option.{get_or}
use mxzz_bi.Prelude.{
  ◌&&◌, ℕ, String, Bool, true, false, ◌||◌, Option, none, some, List, [], ◌∷◌, ◌==◌, str_eq,
  if◌then◌else◌,
}

pub data Status : Type 0 where
  waiting processing done failed loading_result : Status

-- The table `statuses`; `none` is `undefined`.
unfoldable pub statuses : Option ℕ → Option Status
statuses none = none
statuses (some n) =
    if n == 1
    then some waiting
    else if n == 2
    then some processing
    else if n == 3
    then some done
    else if n == 4
    then some failed
    else none

-- `query_result_id` is a number or the text "None".
pub data ResultId : Type 0 where
  no_id : ResultId
  none_text : ResultId
  result_id : ℕ → ResultId

pub record Job : Type 0 where
  pub id : Option ℕ
  pub status : Option ℕ
  pub error : Option String
  pub query_result_id : ResultId

-- `{}`
abbrev pub no_job : Job
no_job = record { id = none; status = none; error = none; query_result_id = no_id }

-- `{ job: { error, status: 4 } }`
abbrev pub failed_job : String → Job
failed_job message = record {
  id = none;
  status = some 4;
  error = some message;
  query_result_id = no_id;
}

-- A body of the server, or what the code passes in its place.
pub record Props (D : Type 0) : Type 0 where
  pub job : Option Job
  pub query_result : Option D

abbrev pub failure : {D : Type 0} → String → Props D
failure message = record { job = some (failed_job message); query_result = none }

pub data Promise : Type 0 where
  pending resolved : Promise
  rejected : Option String → Promise

-- A promise is settled once.
unfoldable pub settle : Promise → Promise → Promise
settle pending p = p
settle resolved p = resolved
settle (rejected e) p = rejected e

pub record QueryResult (D : Type 0) : Type 0 where
  pub promise : Promise
  -- the calls of `onStatusChange`, the last one first
  pub notified : List (Option Status)
  pub job : Job
  -- `none` is the object without fields that the constructor makes
  pub query_result : Option D
  pub status : Option Status
  pub is_loading_result : Bool

unfoldable pub notify : {D : Type 0} → Option Status → QueryResult D → QueryResult D
notify s q = record q { notified = s ∷ q.notified }

-- The constructor without `props`.
abbrev pub fresh : {D : Type 0} → QueryResult D
fresh = record {
  promise = pending;
  notified = [];
  job = no_job;
  query_result = none;
  status = some waiting;
  is_loading_result = false;
}

-- What a failed request comes with; `code` is `response.status`, `message` is
-- `response.data.message`.
pub record HttpError (D : Type 0) : Type 0 where
  pub code : Option ℕ
  pub body : Props D
  pub message : Option String

abbrev unknown_error : String
unknown_error = "Unknown error occurred. Please try again later."

abbrev pub code_is : ℕ → Option ℕ → Bool
code_is n none = false
code_is n (some m) = m == n

abbrev pub is_some : {A : Type 0} → Option A → Bool
is_some none = false
is_some (some a) = true

-- `extend` replaces the job where the body has one.
abbrev or_job : Job → Option Job → Job
or_job old none = old
or_job old (some j) = j

abbrev or_status : Option Status → Option Status → Option Status
or_status none s = s
or_status (some t) s = some t

module _ {D : Type 0} (prepare : D → D) where
  -- The branches of `update` on the job's status.
  unfoldable pub follow_job : QueryResult D → QueryResult D
  unfolding notify settle
  follow_job q =
      if code_is 3 q.job.status || code_is 2 q.job.status
      then record (notify (some processing) q) { status = some processing }
      else if code_is 4 q.job.status
      then record q {
        status = statuses q.job.status;
        promise = settle q.promise (rejected q.job.error);
      }
      else record (notify none q) { status = none }

  unfoldable pub update : Props D → QueryResult D → QueryResult D
  unfolding follow_job statuses notify settle
  update p q = elim p.query_result [
    | some d ↦ record (notify (some done) q) {
      job = or_job q.job p.job;
      query_result = some (prepare d);
      status = some done;
      promise = settle q.promise resolved;
    }
    | none ↦ follow_job (record q { job = or_job q.job p.job })
  ]

  -- The constructor with `props`.
  unfoldable pub new : Props D → QueryResult D
  unfolding update
  new p = update p fresh

  -- `handleErrorResponse`
  unfoldable pub handle_error_response : HttpError D → QueryResult D → QueryResult D
  handle_error_response e q =
      if code_is 403 e.code
      then update e.body q
      else if code_is 400 e.code && is_some e.body.job
      then update e.body q
      else if code_is 404 e.code
      then update (failure "cached query result unavailable, please execute again.") q
      else update (failure (get_or e.message unknown_error)) q

unfoldable pub get_status : {D : Type 0} → QueryResult D → Option Status
unfolding statuses
get_status q =
    if q.is_loading_result then some loading_result else or_status q.status (statuses q.job.status)

-- `getError`: the text "None" counts as no error.
unfoldable pub get_error : {D : Type 0} → QueryResult D → Option String
get_error q = elim q.job.error [ none ↦ none | some e ↦ if str_eq e "None" then none else some e ]
