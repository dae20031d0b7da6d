-- ===== src/QueryResult/Tests.antt =====
-- The theorems of query results at concrete inputs, and runs of the code.
use mxzz_bi.Prelude.{
  ◌≢◌, ◌⊎◌, ℕ, ◌+◌, ◌≡◌, refl, true, false, none, some, List, [], ◌∷◌, arith, inl, inr,
}
use mxzz_bi.Js.{codes}
use mxzz_bi.QueryResult.ColumnTypes.{
  is_datetime, is_date, num, text, null, float, date, string, Row, column_types, lookup,
}
use mxzz_bi.QueryResult.ColumnTypes.Summary.{agreed, types_in, lookup-column_types}
use mxzz_bi.QueryResult.ColumnName.{
  column_name_without_type, column_friendly_name, split_double, has_double,
}
use mxzz_bi.QueryResult.Job.{
  failed, done, none_text, result_id, Props, pending, resolved, rejected, settle, fresh, HttpError,
  update, handle_error_response, get_status,
}
use mxzz_bi.QueryResult.Execution.{
  idle, polling, replies, fails, get, load_result, refresh_status, run, go_on,
}
use mxzz_bi.QueryResult.Execution.Answered.{promise-run}
use mxzz_bi.QueryResult.Execution.Loading.{
  FlagAgrees, run-FlagAgrees, five, waited, load_result_gives_up,
}
use mxzz_bi.QueryResult.Execution.Polls.{polls, refresh_status-polls, way, get_completes}

-- Data are numbers, and `update` doubles them.
abbrev prepare : ℕ → ℕ
prepare n = n + n

abbrev job_reply : ℕ → Props ℕ
job_reply status = record {
  job =
      some
        (record { id = some 7; status = some status; error = none; query_result_id = none_text });
  query_result = none;
}

abbrev finished_reply : Props ℕ
finished_reply = record {
  job =
      some (record { id = some 7; status = some 3; error = none; query_result_id = result_id 12 });
  query_result = none;
}

abbrev data_reply : Props ℕ
data_reply = record { job = none; query_result = some 21 }

abbrev lost_request : HttpError ℕ
lost_request = record {
  code = none;
  body = record { job = none; query_result = none };
  message = none;
}

abbrev forbidden : HttpError ℕ
forbidden = record lost_request { code = some 403 }

promise-run_example :
    ((run prepare true get (fails lost_request ∷ [])).result.promise ≢ pending) ⊎ (false ≡ true)
unfolding go_on handle_error_response update
promise-run_example = promise-run prepare true get (fails lost_request ∷ []) (λ e. cc) refl

run-FlagAgrees_example : FlagAgrees prepare true (
    run prepare true get
      (replies finished_reply ∷ replies finished_reply ∷ fails lost_request ∷ []))
run-FlagAgrees_example =
    run-FlagAgrees prepare true get
      (replies finished_reply ∷ replies finished_reply ∷ fails lost_request ∷ []) refl

load_result_gives_up_example :
    let x =
      run prepare true
        (load_result 0 fresh)
        (five lost_request lost_request forbidden lost_request lost_request) in
    (x.activity ≡ idle)
    × (x.result.is_loading_result ≡ false)
    × (get_status x.result ≡ some failed)
    × (x.result.promise
        ≡ settle pending (
            rejected (
              some
                "failed communicating with server. Please check your Internet connection and try again.")))
    × (waited prepare true
          (load_result 0 fresh)
          (five lost_request lost_request forbidden lost_request lost_request)
        ≡ 15000)
load_result_gives_up_example =
    load_result_gives_up prepare true fresh lost_request lost_request forbidden lost_request
      lost_request

refresh_status-polls_example :
    ((run prepare true
        (refresh_status 1 fresh)
        (polls (job_reply 1 ∷ job_reply 2 ∷ []) [])).activity
      ≡ polling 3)
    × ((run prepare true
          (refresh_status 1 fresh)
          (polls (job_reply 1 ∷ job_reply 2 ∷ []) [])).result.promise
        ≡ pending)
    × (waited prepare true (refresh_status 1 fresh) (polls (job_reply 1 ∷ job_reply 2 ∷ []) [])
        ≡ 1000)
refresh_status-polls_example =
    refresh_status-polls prepare true (job_reply 1 ∷ job_reply 2 ∷ []) fresh
      ((refl, (_, refl, inl refl)), ((refl, (_, refl, inr (inl refl, refl))), tt)) refl

get_completes_example :
    let x =
      run prepare true get
        (way (job_reply 1) (job_reply 2 ∷ []) finished_reply (lost_request ∷ []) data_reply) in
    (x.activity ≡ idle)
    × (x.result.promise ≡ resolved)
    × (x.result.query_result ≡ some 42)
    × (get_status x.result ≡ some done)
get_completes_example =
    get_completes prepare (job_reply 1) (job_reply 2 ∷ []) finished_reply (lost_request ∷ [])
      data_reply 21 (refl, (_, refl, inl refl)) ((refl, (_, refl, inr (inl refl, refl))), tt)
      (refl, (_, refl, inr refl, refl)) (omega arith) refl

-- Columns. Objects and moments are numbers here.
abbrev rows : List (Row ℕ ℕ ℕ)
rows =
    (("day", text "2020-01-02") ∷ ("n", num 1) ∷ ("mix", num 3) ∷ [])
    ∷ (("day", text "2021-11-12") ∷ ("n", num 2) ∷ ("mix", null) ∷ [])
    ∷ []

lookup-column_types_example : lookup "mix" (column_types rows) ≡ agreed (types_in "mix" rows)
lookup-column_types_example = lookup-column_types "mix" rows

types_of_rows :
    (lookup "day" (column_types rows) ≡ some date)
    × (lookup "n" (column_types rows) ≡ some float)
    × (lookup "mix" (column_types rows) ≡ some string)
unfolding column_types lookup is_datetime is_date
types_of_rows = (refl, refl, refl)

friendly : column_friendly_name (codes "my col::filter") ≡ codes "My Col"
unfolding column_friendly_name column_name_without_type split_double has_double
friendly = refl
