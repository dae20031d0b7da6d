-- ===== src/Charts/TableColumns.antt =====
-- viz-lib/src/visualizations/table/getOptions.js: the columns of a table and their order. What else is
-- set of a column is a parameter, with lodash's `extend` on it.
pub mod Order
use mxzz_bi.Prelude.{
  ℕ, zero, suc, ◌+◌, String, Bool, true, false, not, ◌&&◌, ◌||◌, Option, none, some, List, [], ◌∷◌,
  map, filter, any, str_eq, if◌then◌else◌,
}
use mxzz_bi.Parameters.Normalize.{member}

pub record QueryColumn : Type 0 where
  pub name : String
  pub type : String

-- A column of the table; `settings` holds all but its name and order.
pub record Column (Settings : Type 0) : Type 0 where
  pub name : String
  pub order : ℕ
  pub settings : Settings

-- A column as it was saved with the visualization.
pub record Saved (Change : Type 0) : Type 0 where
  pub name : String
  pub change : Change

-- The settings that the types decide.
abbrev pub display_as : String → String
display_as type =
    if str_eq type "integer" || str_eq type "float"
    then "number"
    else if str_eq type "boolean"
    then "boolean"
    else if str_eq type "date" || str_eq type "datetime"
    then "datetime"
    else "string"

abbrev pub column_content_alignment : String → String
column_content_alignment type =
    if member type ("integer" ∷ "float" ∷ "boolean" ∷ "date" ∷ "datetime" ∷ [])
    then "right"
    else "left"

-- Item by item, as far as the first list goes.
abbrev pub differ : (query_columns visualization_columns : List String) → Bool
differ [] vs = false
differ (q ∷ qs) [] = true
differ (q ∷ qs) (v ∷ vs) = not (str_eq v q) || differ qs vs

unfoldable pub were_columns_reordered : (query_columns visualization_columns : List String) → Bool
were_columns_reordered query_columns visualization_columns =
    let vs = filter (λ v. member v query_columns) visualization_columns in
    let qs = filter (λ q. member q vs) query_columns in differ qs vs

module _ {Change : Type 0} where
  -- The last saved column of a name, with its index.
  abbrev pub saved_named : String → (index : ℕ) → List (Saved Change) → Option (ℕ × Change)
  saved_named key index [] = none
  saved_named key index (s ∷ ss) = elim (saved_named key (suc index) ss) [
    | some found ↦ some found
    | none ↦ if str_eq s.name key then some (index, s.change) else none
  ]

module _ {Settings Change : Type 0} (extend : Settings → Change → Settings) where
  abbrev pub extended : (reordered : Bool) → Option (ℕ × Change) → Column Settings → Column Settings
  extended reordered none c = c
  extended reordered (some (i, change)) c = record c {
    order = if reordered then i else c.order;
    settings = extend c.settings change;
  }

module _ {Settings Change : Type 0} (default_settings : QueryColumn → Settings)
    (extend : Settings → Change → Settings) where
  unfoldable pub default_columns_options : (index : ℕ) → List QueryColumn → List (Column Settings)
  default_columns_options index [] = []
  default_columns_options index (c ∷ cs) =
      record { name = c.name; order = 100000 + index; settings = default_settings c }
      ∷ default_columns_options (suc index) cs

  -- `sort_by` is lodash's `sortBy`.
  unfoldable pub get_columns_options :
      (sort_by : (Column Settings → ℕ) → List (Column Settings) → List (Column Settings))
      → (columns : List QueryColumn) → (visualization_columns : List (Saved Change))
      → List (Column Settings)
  unfolding were_columns_reordered default_columns_options
  get_columns_options sort_by columns saved =
      let reordered =
        were_columns_reordered (map (λ c. c.name) columns) (map (λ s. s.name) saved) in
      sort_by (λ c. c.order)
        (map (λ c. extended extend reordered (saved_named c.name 0 saved) c)
          (default_columns_options 0 columns))
