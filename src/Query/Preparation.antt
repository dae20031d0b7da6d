-- ===== src/Query/Preparation.antt =====
-- query.js: `Query.prepareQueryResultExecution` and what calls it, and `Query.getUrl`. The results
-- are those of query-result.js; `convert` is what its `update` does to the data.
use Prim.Native.String
use mxzz_bi.Prelude.{
  ℕ, zero, suc, String, Bool, true, false, Option, none, some, List, [], ◌∷◌, if◌then◌else◌, length,
  ltb,
}
use mxzz_bi.Parameters.Normalize.{Env}
use mxzz_bi.Parameters.Values.{join}
use mxzz_bi.Parameters.Url.{Json}
use mxzz_bi.Query.Names.{Parts}
use mxzz_bi.Query.ParameterList.{Parameters, get, get_missing, is_required, nodes, to_query_string}
use mxzz_bi.QueryResult.Job.{failure, new}
use mxzz_bi.QueryResult.Execution.{Execution, rest, get as execute_query, get_by_id}

-- An id is not 0, and data are an object, so both are truthy where they are not null.
pub record Query (Num Moment D : Type 0) : Type 0 where
  pub parameters : Parameters Num Moment
  pub latest_query_data : Option D
  pub latest_query_data_id : Option ℕ
  pub query_result : Option (Execution D)

unfoldable pub missing_message : List String → String
missing_message titles =
    let many = ltb 1 (length titles) in
    String.◌++◌ "missing " (
      String.◌++◌ (if many then "values" else "value") (
        String.◌++◌ " for " (
          String.◌++◌ (join ", " titles)
            (String.◌++◌ " " (String.◌++◌ (if many then "parameters" else "parameter") ".")))))

-- `maxAge !== 0`
abbrev pub not_zero : Option ℕ → Bool
not_zero none = true
not_zero (some zero) = false
not_zero (some (suc n)) = true

abbrev pub or_new : {A : Type 0} → Option A → A → A
or_new none a = a
or_new (some b) a = b

module _ {Num Moment D : Type 0} (env : Env Num Moment) (parse : String → Option Parts)
    (convert : D → D) where
  -- `latest_query_data = null; latest_query_data_id = null` if there are parameters
  abbrev pub clear_latest : Bool → Query Num Moment D → Query Num Moment D
  clear_latest false q = q
  clear_latest true q = record q { latest_query_data = none; latest_query_data_id = none }

  -- The result to use when nothing is missing.
  unfoldable pub result_of :
      (execute : Execution D) (max_age : Option ℕ) → Query Num Moment D → Execution D
  result_of execute max_age q = elim (not_zero max_age) [
    | false ↦ execute
    | true ↦ elim q.latest_query_data [
      | some d ↦
          or_new q.query_result (rest (new convert (record { job = none; query_result = some d })))
      | none ↦ elim q.latest_query_data_id [
        | some id ↦ or_new q.query_result get_by_id
        | none ↦ execute
      ]
    ]
  ]

  unfoldable pub prepare_query_result_execution :
      (execute : Execution D) (max_age : Option ℕ)
      → Query Num Moment D
      → Execution D × Query Num Moment D
  unfolding result_of missing_message
  prepare_query_result_execution execute max_age q =
      let got = record q { parameters = get env parse q.parameters } in
      let cleared = clear_latest (is_required env parse q.parameters) got in
      let r = result_of execute max_age cleared in
      elim (get_missing env parse q.parameters) [
        | [] ↦ (r, record cleared { query_result = some r })
        | ◌∷◌ m ms ↦ (rest (new convert (failure (missing_message (m ∷ ms)))), got)
      ]

  unfoldable pub get_query_result :
      (max_age : Option ℕ) → Query Num Moment D → Execution D × Query Num Moment D
  unfolding prepare_query_result_execution
  get_query_result max_age q = prepare_query_result_execution execute_query max_age q

  pub data ByText : Type 0 where
    query_result_error : String → ByText
    result_and_query : Execution D → Query Num Moment D → ByText

  abbrev pub query_text : (selected own : Option String) → Option String
  query_text (some (String.◌∷◌ c s)) own = some (String.◌∷◌ c s)
  query_text selected (some (String.◌∷◌ c s)) = some (String.◌∷◌ c s)
  query_text selected _ = none

  unfoldable pub get_query_result_by_text :
      (max_age : Option ℕ) (selected : Option String) → Query Num Moment D → ByText
  unfolding prepare_query_result_execution
  get_query_result_by_text max_age selected q = elim (query_text selected q.parameters.text) [
    | none ↦ query_result_error "Can't execute empty query."
    | some s ↦
        let r = prepare_query_result_execution execute_query max_age q in result_and_query r.0 r.1
  ]

  abbrev pub after : String → String → String
  after sign String.[] = ""
  after sign (String.◌∷◌ c s) = String.◌++◌ sign (String.◌∷◌ c s)

  -- `id` is the id's text; no hash is the empty one.
  unfoldable pub get_url :
      Json Num
      → (encode : String → String) (id : String) (source : Bool) (hash : String)
      → Query Num Moment D
      → String
  unfolding to_query_string
  get_url json encode id source hash q =
      let params =
        if is_required env parse q.parameters
        then to_query_string env parse json encode
            (nodes env (get env parse q.parameters).parameters)
        else "" in
      String.◌++◌ "queries/" (
        String.◌++◌ id (
          String.◌++◌ (if source then "/source" else "")
            (String.◌++◌ (after "?" params) (after "#" hash))))
