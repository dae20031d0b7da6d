-- ===== src/QueryResult/ColumnTypes.antt =====
-- client/app/services/query-result.js, the loops of `update` that give the columns their types.
-- Numbers, objects, moments, `moment.utc` and `JSON.stringify` are parameters. No column is called
-- like a member of `Object.prototype`.
pub mod Summary
use Prim.Native.String
use mxzz_bi.Prelude.{
  ℕ, String, Bool, true, false, ◌&&◌, Option, none, some, List, [], ◌∷◌, map, ◌==◌, str_eq,
  if◌then◌else◌,
}
use mxzz_bi.Js.{codes, is_digit}

pub data Cell (Num Obj Moment : Type 0) : Type 0 where
  null undefined : Cell Num Obj Moment
  bool : Bool → Cell Num Obj Moment
  num : Num → Cell Num Obj Moment
  text : String → Cell Num Obj Moment
  object : Obj → Cell Num Obj Moment
  moment : Moment → Cell Num Obj Moment

-- The strings that the code writes, and those that only the server does.
pub data ColumnType : Type 0 where
  float datetime date string : ColumnType
  other : String → ColumnType

abbrev pub same_type : ColumnType → ColumnType → Bool
same_type float float = true
same_type datetime datetime = true
same_type date date = true
same_type string string = true
same_type (other s) (other t) = str_eq s t
same_type _ _ = false

pub record Column : Type 0 where
  pub name : String
  pub type : Option ColumnType

-- A prefix that satisfies the tests one by one, and what follows it.
unfoldable pub after_match : List (ℕ → Bool) → List ℕ → Option (List ℕ)
after_match [] cs = some cs
after_match (p ∷ ps) [] = none
after_match (p ∷ ps) (c ∷ cs) = if p c then after_match ps cs else none

-- `\d{4}-\d{2}-\d{2}`
abbrev iso_day : List (ℕ → Bool)
iso_day =
    is_digit
    ∷ is_digit
    ∷ is_digit
    ∷ is_digit
    ∷ (λ c. c == b'-')
    ∷ is_digit
    ∷ is_digit
    ∷ (λ c. c == b'-')
    ∷ is_digit
    ∷ is_digit
    ∷ []

abbrev starts_with_T : Option (List ℕ) → Bool
starts_with_T none = false
starts_with_T (some []) = false
starts_with_T (some (c ∷ cs)) = c == b'T'

abbrev ends : Option (List ℕ) → Bool
ends none = false
ends (some []) = true
ends (some (c ∷ cs)) = false

-- `/^\d{4}-\d{2}-\d{2}T/` and `/^\d{4}-\d{2}-\d{2}$/`
unfoldable pub is_datetime : String → Bool
unfolding after_match is_digit
is_datetime s = starts_with_T (after_match iso_day (codes s))

unfoldable pub is_date : String → Bool
unfolding after_match is_digit
is_date s = ends (after_match iso_day (codes s))

abbrev pub Row : (Num Obj Moment : Type 0) → Type 0
Row Num Obj Moment = List (String × Cell Num Obj Moment)

-- The object `columnTypes`.
abbrev pub Types : Type 0
Types = List (String × ColumnType)

unfoldable pub lookup : String → Types → Option ColumnType
lookup k [] = none
lookup k ((j, t) ∷ ts) = if str_eq j k then some t else lookup k ts

unfoldable pub insert : String → ColumnType → Types → Types
insert k t [] = (k, t) ∷ []
insert k t ((j, u) ∷ ts) = if str_eq j k then (j, t) ∷ ts else (j, u) ∷ insert k t ts

-- The type that a column gets when a cell of type `new` is met.
unfoldable pub merge : Option ColumnType → ColumnType → ColumnType
merge none new = new
merge (some old) new = if same_type old new then new else string

unfoldable pub add_cell : String → Option ColumnType → Types → Types
unfolding lookup insert merge
add_cell k none ts = ts
add_cell k (some t) ts = insert k (merge (lookup k ts) t) ts

module _ {Num Obj Moment : Type 0} where
  -- `newType`, `none` for an object.
  unfoldable pub type_of : Cell Num Obj Moment → Option ColumnType
  type_of (num n) = some float
  type_of (text s) =
      if is_datetime s then some datetime else if is_date s then some date else some string
  type_of (object o) = none
  type_of (moment m) = none
  type_of null = some string
  type_of undefined = some string
  type_of (bool b) = some string

  -- The two nested loops.
  unfoldable pub add_row : Row Num Obj Moment → Types → Types
  unfolding add_cell type_of
  add_row [] ts = ts
  add_row ((k, v) ∷ row) ts = add_row row (add_cell k (type_of v) ts)

  unfoldable pub add_rows : List (Row Num Obj Moment) → Types → Types
  unfolding add_row
  add_rows [] ts = ts
  add_rows (row ∷ rows) ts = add_rows rows (add_row row ts)

  unfoldable pub column_types : List (Row Num Obj Moment) → Types
  unfolding add_rows
  column_types rows = add_rows rows []

-- `column.type == null || column.type === "string"`
abbrev open_type : Option ColumnType → Bool
open_type none = true
open_type (some t) = same_type t string

retype : Option ColumnType → Column → Column
retype none c = c
retype (some t) c = if open_type c.type then record c { type = some t } else c

-- The loop over the columns.
unfoldable pub type_columns : Types → List Column → List Column
unfolding retype lookup
type_columns ts cs = map (λ c. retype (lookup c.name ts) c) cs

module _ {Num Obj Moment : Type 0} (utc : String → Moment) (stringify : Obj → String)
    (stringify_moment : Moment → String) where
  -- What the loop leaves in the row.
  unfoldable pub convert : Cell Num Obj Moment → Cell Num Obj Moment
  convert (text s) =
      if is_datetime s then moment (utc s) else if is_date s then moment (utc s) else text s
  convert (object o) = text (stringify o)
  convert (num n) = num n
  convert (moment m) = text (stringify_moment m)
  convert null = null
  convert undefined = undefined
  convert (bool b) = bool b

pub record Data (Num Obj Moment : Type 0) : Type 0 where
  pub rows : List (Row Num Obj Moment)
  pub columns : List Column

-- What `update` makes of the data of a result.
unfoldable pub type_data :
    {Num Obj Moment : Type 0}
    → (String → Moment)
    → (Obj → String)
    → (Moment → String)
    → Data Num Obj Moment
    → Data Num Obj Moment
unfolding column_types type_columns convert
type_data utc stringify stringify_moment d = record {
  rows = map (map (λ (k, v). (k, convert utc stringify stringify_moment v))) d.rows;
  columns = type_columns (column_types d.rows) d.columns;
}
