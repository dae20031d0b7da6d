-- ===== src/QueryExecute/Tests.antt =====
-- The executions of a query at a concrete run: the answer of the first one comes last.
use mxzz_bi.Prelude.{ℕ, String, ◌≡◌, refl, false, none, some, List, [], ◌∷◌}
use mxzz_bi.QueryExecute.{
  Loaded, Query, Execution, Hook, Event, execute, resolved, rejected, cancel, execute_query,
  on_loaded, on_failed, cancel_execution, no_execution, step, run, mount,
}
use mxzz_bi.QueryExecute.Latest.{page, replay, trace, page-run}

abbrev new_query : Query
new_query = record { text = "select 1"; latest_query_data_id = none; query_result = none }

abbrev first_result : Loaded
first_result = record { id = 7; text = "select 1" }

abbrev first_execution : Execution
first_execution = record { number = 1; loaded_before = false }

abbrev second_execution : Execution
second_execution = record { number = 2; loaded_before = false }

abbrev overlapping : List (Event ℕ String)
overlapping =
    execute 1 10 "waiting"
    ∷ cancel
    ∷ execute 2 11 "waiting"
    ∷ rejected second_execution "syntax error"
    ∷ resolved first_execution first_result
    ∷ []

late_answer_dropped :
    (run "failed" overlapping (mount false 0 0 "" new_query)).state.error ≡ some "syntax error"
unfolding run step mount no_execution execute_query on_loaded on_failed cancel_execution
late_answer_dropped = refl

abbrev opened : Hook ℕ String
opened = mount false 0 0 "" new_query

page-run_example :
    page (run "failed" overlapping opened)
    ≡ replay "failed" (trace opened.in_execution overlapping) (page opened)
page-run_example = page-run "failed" overlapping opened
