-- ===== src/SchemaLoading/Tests.antt =====
-- The theorem of reloads at a concrete run.
use mxzz_bi.Prelude.{◌≡◌, true, none, some, List, [], ◌∷◌}
use mxzz_bi.SchemaLoading.{
  Table, asking, Event, reload, answer, started_job, has_schema, job, slept, Hook, prepare_schema,
  count_tokens, advance, fetch_schema_from_job, run,
}
use mxzz_bi.SchemaLoading.Latest.{run-reload}

abbrev old : Table
old = record { name = "old"; columns = "a" ∷ [] }

abbrev new : Table
new = record { name = "new"; columns = "a" ∷ "b" ∷ [] }

-- The page has one reload under way when the second one starts.
abbrev started : Hook
started = record {
  schema = record { tables = []; tokens_count = 0 };
  token = some 1;
  progress = λ n. asking;
  errors = 0;
}

-- The older reload is answered while the job of the other one runs.
abbrev answers : List Event
answers =
    answer 2 started_job
    ∷ answer 1 (has_schema (old ∷ []))
    ∷ answer 2 (job 2 [] none)
    ∷ answer 2 slept
    ∷ answer 2 (job 3 (new ∷ []) none)
    ∷ []

run-reload_example :
    (run (reload 2 true ∷ answers) started).schema ≡ record { tables = new ∷ []; tokens_count = 2 }
unfolding advance fetch_schema_from_job prepare_schema count_tokens
run-reload_example = run-reload 2 answers started tt
