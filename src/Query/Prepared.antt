-- ===== src/Query/Prepared.antt =====
-- query.js: what `prepareQueryResultExecution` gives on each of its branches.
use mxzz_bi.Prelude.{
  ℕ, zero, suc, String, ◌≡◌, refl, Bool, true, false, Option, none, some, List, [], ◌∷◌,
}
use mxzz_bi.Parameters.Normalize.{Env}
use mxzz_bi.Query.Names.{Parts}
use mxzz_bi.Query.ParameterList.{get, get_missing, is_required}
use mxzz_bi.Query.Preparation.{
  Query, missing_message, not_zero, clear_latest, result_of, prepare_query_result_execution,
}
use mxzz_bi.QueryResult.Job.{
  failure, failed, done, resolved, rejected, settle, follow_job, notify, statuses, update, new,
  get_status,
}
use mxzz_bi.QueryResult.Execution.{Execution, idle, rest}

module _ {Num Moment D : Type 0} (env : Env Num Moment) (parse : String → Option Parts)
    (convert : D → D) where
  prepare_when_missing :
      (execute : Execution D) (max_age : Option ℕ) (q : Query Num Moment D) (m : String)
      (ms : List String)
      → get_missing env parse q.parameters ≡ m ∷ ms
      → prepare_query_result_execution env parse convert execute max_age q ≡ (
        rest (new convert (failure (missing_message (m ∷ ms)))),
        record q { parameters = get env parse q.parameters },
      )
  unfolding prepare_query_result_execution
  prepare_when_missing execute max_age q m ms h = rw (prepare_query_result_execution, h)

  prepare_when_filled :
      (execute : Execution D) (max_age : Option ℕ) (q : Query Num Moment D) (b : Bool)
      → get_missing env parse q.parameters ≡ []
      → is_required env parse q.parameters ≡ b
      → let cleared =
          clear_latest env parse convert b (record q { parameters = get env parse q.parameters }) in
        prepare_query_result_execution env parse convert execute max_age q ≡ (
          result_of env parse convert execute max_age cleared,
          record cleared {
            query_result = some (result_of env parse convert execute max_age cleared);
          },
        )
  unfolding prepare_query_result_execution
  prepare_when_filled execute max_age q b h k = rw (prepare_query_result_execution, h, k)

  result_of_cleared :
      (execute : Execution D) (max_age : Option ℕ) (q : Query Num Moment D)
      → result_of env parse convert execute max_age (clear_latest env parse convert true q)
        ≡ execute
  unfolding result_of
  result_of_cleared execute none q = refl
  result_of_cleared execute (some zero) q = refl
  result_of_cleared execute (some (suc n)) q = refl

  result_of_latest :
      (execute : Execution D) (max_age : Option ℕ) (q : Query Num Moment D) (d : D)
      → not_zero max_age ≡ true
      → q.latest_query_data ≡ some d
      → q.query_result ≡ none
      → result_of env parse convert execute max_age
          (record q { parameters = get env parse q.parameters })
        ≡ rest (new convert (record { job = none; query_result = some d }))
  unfolding result_of
  result_of_latest execute max_age q d x e f = rw (result_of, x, e, f)

  -- When parameters have no value, nothing is asked and nothing of the query's results changes: the
  -- result is a failed one, its promise is rejected, and its error names what is missing.
  prepare_missing :
      (execute : Execution D) (max_age : Option ℕ) (q : Query Num Moment D) (m : String)
      (ms : List String)
      → get_missing env parse q.parameters ≡ m ∷ ms
      → let r = prepare_query_result_execution env parse convert execute max_age q in
        (r.0.activity ≡ idle)
        × (get_status r.0.result ≡ some failed)
        × (r.0.result.job.error ≡ some (missing_message (m ∷ ms)))
        × (r.0.result.promise ≡ rejected (some (missing_message (m ∷ ms))))
        × (r.1.query_result ≡ q.query_result)
        × (r.1.latest_query_data ≡ q.latest_query_data)
  unfolding prepare_query_result_execution new update follow_job statuses notify settle get_status
  prepare_missing execute max_age q m ms h =
      rw (prepare_when_missing execute max_age q m ms h) (refl, refl, refl, refl, refl, refl)

  -- A query whose parameters all have values is executed anew at every maximal age, and the result
  -- that was there for other values is forgotten.
  prepare_parameters :
      (execute : Execution D) (max_age : Option ℕ) (q : Query Num Moment D)
      → get_missing env parse q.parameters ≡ []
      → is_required env parse q.parameters ≡ true
      → let r = prepare_query_result_execution env parse convert execute max_age q in
        (r.0 ≡ execute)
        × (r.1.query_result ≡ some execute)
        × (r.1.latest_query_data ≡ none)
        × (r.1.latest_query_data_id ≡ none)
  unfolding prepare_query_result_execution result_of
  prepare_parameters execute max_age q h k =
      let c =
        result_of_cleared execute max_age (record q { parameters = get env parse q.parameters }) in
      rw (prepare_when_filled execute max_age q true h k, c) (refl, refl, refl, refl)

  -- A query without parameters that has its latest data and no result object yet makes, at a maximal
  -- age other than 0, a result that is done with these data, asking nothing.
  prepare_latest :
      (execute : Execution D) (max_age : Option ℕ) (q : Query Num Moment D) (d : D)
      → get_missing env parse q.parameters ≡ []
      → is_required env parse q.parameters ≡ false
      → not_zero max_age ≡ true
      → q.latest_query_data ≡ some d
      → q.query_result ≡ none
      → let r = prepare_query_result_execution env parse convert execute max_age q in
        (r.0.activity ≡ idle)
        × (get_status r.0.result ≡ some done)
        × (r.0.result.query_result ≡ some (convert d))
        × (r.0.result.promise ≡ resolved)
        × (r.1.query_result ≡ some r.0)
  unfolding new update notify settle get_status
  prepare_latest execute max_age q d h k x e f =
      let e = result_of_latest execute max_age q d x e f in
      rw (prepare_when_filled execute max_age q false h k, e) (refl, refl, refl, refl, refl)
