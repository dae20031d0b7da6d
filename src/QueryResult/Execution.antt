-- ===== src/QueryResult/Execution.antt =====
-- client/app/services/query-result.js: `get`, `getByQueryId`, `getById`, `loadLatestCachedResult`,
-- `refreshStatus` and `loadResult`, as one machine. What the object waits for is its activity; a
-- reply, a failure or a timer makes it go on.
pub mod Settled
pub mod Answered
pub mod Loading
pub mod Polls
use mxzz_bi.Prelude.{
  ℕ, suc, ◌+◌, ◌*◌, ◌^◌, String, Bool, true, false, ◌&&◌, not, Option, none, some, List, [], ◌∷◌,
  ltb, if◌then◌else◌,
}
use mxzz_bi.QueryResult.Job.{
  Status, processing, failed, loading_result, ResultId, no_id, none_text, result_id, Job, Props,
  failure, QueryResult, fresh, notify, HttpError, is_some, update, handle_error_response,
  get_status,
}

pub data Activity : Type 0 where
  -- nothing under way
  idle : Activity
  -- the POST of `get` or `getByQueryId`, the GET of `getById`, the POST of `loadLatestCachedResult`
  posting by_id cached : Activity
  -- `refreshStatus` with its `tryNumber`: its request, and its timer with the delay
  polling : ℕ → Activity
  poll_wait : (try_number delay : ℕ) → Activity
  -- `loadResult` with its `tryCount`, likewise
  loading : ℕ → Activity
  load_wait : (try_count delay : ℕ) → Activity

pub record Execution (D : Type 0) : Type 0 where
  pub result : QueryResult D
  pub activity : Activity

pub data Event (D : Type 0) : Type 0 where
  replies : Props D → Event D
  fails : HttpError D → Event D
  timer : Event D

abbrev pub rest : {D : Type 0} → QueryResult D → Execution D
rest q = record { result = q; activity = idle }

-- `get` and `getByQueryId`.
abbrev pub get : {D : Type 0} → Execution D
get = record { result = fresh; activity = posting }

-- `getById`
unfoldable pub get_by_id : {D : Type 0} → Execution D
unfolding notify
get_by_id = record {
  result = notify (some loading_result) (record fresh { is_loading_result = true });
  activity = by_id;
}

unfoldable pub load_latest_cached_result : {D : Type 0} → QueryResult D → Execution D
load_latest_cached_result q = record { result = q; activity = cached }

unfoldable pub load_result : {D : Type 0} → ℕ → QueryResult D → Execution D
unfolding notify
load_result try_count q = record {
  result = notify (some loading_result) (record q { is_loading_result = true });
  activity = loading try_count;
}

unfoldable pub refresh_status : {D : Type 0} → ℕ → QueryResult D → Execution D
refresh_status try_number q = record { result = q; activity = polling try_number }

abbrev pub status_is_processing : Option Status → Bool
status_is_processing (some processing) = true
status_is_processing _ = false

abbrev pub status_is_failed : Option Status → Bool
status_is_failed (some failed) = true
status_is_failed _ = false

-- `id && id !== "None"`; 0 is falsy
abbrev pub has_result : ResultId → Bool
has_result no_id = false
has_result none_text = false
has_result (result_id n) = ltb 0 n

abbrev pub lost : {D : Type 0} → Props D
lost =
    failure "failed communicating with server. Please check your Internet connection and try again."

abbrev pub poll_delay : ℕ → ℕ
poll_delay try_number = if ltb 10 try_number then 3000 else 500

abbrev pub load_delay : ℕ → ℕ
load_delay try_count = 1000 * 2 ^ try_count

-- `authenticated` is what `Auth.isAuthenticated` says.
module _ {D : Type 0} (prepare : D → D) (authenticated : Bool) where
  unfoldable pub after_poll : ℕ → QueryResult D → Execution D
  after_poll n q =
      if status_is_processing (get_status q) && has_result q.job.query_result_id
      then if authenticated then load_result 0 q else load_latest_cached_result q
      else if not (status_is_failed (get_status q))
      then record { result = q; activity = poll_wait (n + 1) (poll_delay n) }
      else rest q

  -- the handlers of `loadResult`
  unfoldable pub loaded : Props D → QueryResult D → Execution D
  loaded p q = rest (record (update prepare p q) { is_loading_result = false })

  unfoldable pub load_failed : ℕ → QueryResult D → Execution D
  load_failed n q =
      if ltb 3 n
      then rest (record (update prepare lost q) { is_loading_result = false })
      else record { result = q; activity = load_wait (n + 1) (load_delay n) }

  -- `if ("job" in response) queryResult.refreshStatus(…)`
  unfoldable pub posted : Props D → QueryResult D → Execution D
  posted p q = let q' = update prepare p q in if is_some p.job then refresh_status 1 q' else rest q'

  unfoldable pub go_on : Activity → QueryResult D → Event D → Execution D
  go_on posting q (replies p) = posted p q
  go_on posting q (fails e) = rest (handle_error_response prepare e q)
  go_on by_id q (replies p) = rest (update prepare p (record q { is_loading_result = false }))
  go_on by_id q (fails e) =
      rest (handle_error_response prepare e (record q { is_loading_result = false }))
  go_on cached q (replies p) = rest (update prepare p q)
  go_on cached q (fails e) = rest (handle_error_response prepare e q)
  go_on (polling n) q (replies p) = after_poll n (update prepare p q)
  go_on (polling n) q (fails e) = rest (update prepare lost q)
  go_on (poll_wait n delay) q timer = refresh_status n q
  go_on (loading n) q (replies p) = loaded p q
  go_on (loading n) q (fails e) = load_failed n q
  go_on (load_wait n delay) q timer = load_result n q
  go_on a q e = record { result = q; activity = a }

  abbrev pub step : Execution D → Event D → Execution D
  step x e = go_on x.activity x.result e

  abbrev pub run : Execution D → List (Event D) → Execution D
  run x [] = x
  run x (e ∷ es) = run (step x e) es
