-- ===== src/QueryExecute.antt =====
-- client/app/pages/queries/hooks/useQueryExecute.js: the executions of a query on its page. An
-- execution is known by a number, as its query result is by its identity.
pub mod Latest
mod Tests
use mxzz_bi.Prelude.{
  ℕ, String, Bool, true, false, ◌&&◌, Option, none, some, List, [], ◌∷◌, str_eq, ◌==◌,
  if◌then◌else◌,
}

-- A loaded query result, as far as the hook reads it.
pub record Loaded : Type 0 where
  pub id : ℕ
  pub text : String

-- `queryResult` of the state: the data, or the failed result with its error
pub data Shown : Type 0 where
  loaded : Loaded → Shown
  failed : String → Shown

pub record ExecutionState (Moment Status : Type 0) : Type 0 where
  pub query_result : Option Shown
  pub is_executing : Bool
  pub loaded_initial_results : Bool
  pub execution_status : Option Status
  pub is_cancelling : Bool
  -- the execution that `cancelCallback` cancels
  pub cancel_callback : Option ℕ
  pub error : Option String
  pub updated_at : Option Moment

-- The fields of the query that an execution sets.
pub record Query : Type 0 where
  pub text : String
  pub latest_query_data_id : Option ℕ
  pub query_result : Option Loaded

pub data Notification : Type 0 where
  updated : Notification
  failed_to_run : String → Notification

pub record Hook (Moment Status : Type 0) : Type 0 where
  pub state : ExecutionState Moment Status
  pub query : Query
  -- `queryResultInExecution.current`
  pub in_execution : Option ℕ
  pub shown : List Notification
  -- the executions whose `cancelExecution` was called
  pub cancelled : List ℕ

-- An execution that is under way, with the `loadedInitialResults` that its callback closes over.
pub record Execution : Type 0 where
  pub number : ℕ
  pub loaded_before : Bool

-- What happens to the hook; an answer comes with the time of its result.
pub data Event (Moment Status : Type 0) : Type 0 where
  execute : (number : ℕ) → Moment → Status → Event Moment Status
  status_changed : (number : ℕ) → Moment → Status → Event Moment Status
  resolved : Execution → Loaded → Event Moment Status
  rejected : Execution → (error : String) → Event Moment Status
  cancel unmount : Event Moment Status

abbrev pub is_current : Option ℕ → ℕ → Bool
is_current none n = false
is_current (some m) n = m == n

abbrev pub notify : Bool → Notification → List Notification → List Notification
notify true n ns = n ∷ ns
notify false n ns = ns

abbrev pub store : Loaded → Query → Query
store r q =
    if str_eq r.text q.text
    then record q { latest_query_data_id = some r.id; query_result = some r }
    else q

module _ {Moment Status : Type 0} where
  unfoldable pub execute_query : ℕ → Moment → Status → Hook Moment Status → Hook Moment Status
  execute_query n updated_at status h = record h {
    in_execution = some n;
    state = record (h.state) {
      updated_at = some updated_at;
      execution_status = some status;
      is_executing = true;
      cancel_callback = some n;
    };
  }

  unfoldable pub on_status_change :
      Moment → Status → ExecutionState Moment Status → ExecutionState Moment Status
  on_status_change updated_at status s = record s {
    updated_at = some updated_at;
    execution_status = some status;
  }

  unfoldable pub on_loaded : Execution → Loaded → Hook Moment Status → Hook Moment Status
  on_loaded e r h = record h {
    query = store r h.query;
    shown = notify e.loaded_before updated h.shown;
    state = record (h.state) {
      query_result = some (loaded r);
      loaded_initial_results = true;
      error = none;
      is_executing = false;
      is_cancelling = false;
      execution_status = none;
    };
  }

  -- `ExecutionStatus.FAILED` is `failed_status`.
  unfoldable pub on_failed :
      (failed_status : Status) → Execution → String → Hook Moment Status → Hook Moment Status
  on_failed failed_status e error h = record h {
    shown = notify e.loaded_before (failed_to_run error) h.shown;
    state = record (h.state) {
      query_result = some (failed error);
      loaded_initial_results = true;
      error = some error;
      is_executing = false;
      is_cancelling = false;
      execution_status = some failed_status;
    };
  }

  unfoldable pub cancel_execution : Hook Moment Status → Hook Moment Status
  cancel_execution h = elim h.state.cancel_callback [
    | none ↦ h
    | some n ↦ record h {
      state = record (h.state) { is_cancelling = true };
      cancelled = n ∷ h.cancelled;
    }
  ]

  unfoldable pub step :
      (failed_status : Status) → Event Moment Status → Hook Moment Status → Hook Moment Status
  unfolding execute_query on_status_change on_loaded on_failed cancel_execution
  step f (execute n t s) h = execute_query n t s h
  step f (status_changed n t s) h =
      if is_current h.in_execution n then record h { state = on_status_change t s h.state } else h
  step f (resolved e r) h = if is_current h.in_execution e.number then on_loaded e r h else h
  step f (rejected e m) h = if is_current h.in_execution e.number then on_failed f e m h else h
  step f cancel h = cancel_execution h
  step f unmount h = record h { in_execution = none }

  unfoldable pub run :
      (failed_status : Status)
      → List (Event Moment Status)
      → Hook Moment Status
      → Hook Moment Status
  unfolding step
  run f [] h = h
  run f (e ∷ es) h = run f es (step f e h)

  -- The effect on mount: `execute` if the query has a result or wants parameters.
  unfoldable pub no_execution : ExecutionState Moment Status
  no_execution = record {
    query_result = none;
    is_executing = false;
    loaded_initial_results = false;
    execution_status = none;
    is_cancelling = false;
    cancel_callback = none;
    error = none;
    updated_at = none;
  }

  unfoldable pub mount : (runs : Bool) → ℕ → Moment → Status → Query → Hook Moment Status
  unfolding no_execution execute_query
  mount runs n updated_at status q =
      let start : Hook Moment Status = record {
        state = no_execution;
        query = q;
        in_execution = none;
        shown = [];
        cancelled = [];
      } in
      if runs
      then execute_query n updated_at status start
      else record start { state = record no_execution { loaded_initial_results = true } }
