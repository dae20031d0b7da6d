-- ===== src/QueryResult/ColumnName.antt =====
-- client/app/services/query-result.js: `getColumnNameWithoutType`, `getColumnFriendlyName` and the
-- choice of filters in `getFilters`. Names are lists of code points.
pub mod Laws
use Prim.Native.String
use mxzz_bi.Prelude.{
  ℕ, suc, ◌-◌, String, Bool, true, false, ◌&&◌, ◌||◌, Option, none, some, List, [], ◌∷◌, ◌++◌, leb,
  ◌==◌, if◌then◌else◌, get_elem?, length, any,
}
use mxzz_bi.Js.{codes, is_space}

abbrev pub eq_codes : List ℕ → List ℕ → Bool
eq_codes [] [] = true
eq_codes (x ∷ xs) (y ∷ ys) = x == y && eq_codes xs ys
eq_codes _ _ = false

abbrev pub colon : ℕ
colon = b':'

abbrev pub underscore : ℕ
underscore = b'_'

-- `column.indexOf(c + c) !== -1`
unfoldable pub has_double : ℕ → List ℕ → Bool
has_double c [] = false
has_double c (x ∷ []) = false
has_double c (x ∷ y ∷ xs) = (x == c && y == c) || has_double c (y ∷ xs)

-- `column.split(c + c)`; `cur` is the part begun.
unfoldable pub split_double : ℕ → List ℕ → List ℕ → List (List ℕ)
split_double c cur [] = cur ∷ []
split_double c cur (x ∷ []) = (cur ++ x ∷ []) ∷ []
split_double c cur (x ∷ y ∷ xs) = elim (x == c && y == c) [
  | true ↦ cur ∷ split_double c [] xs
  | false ↦ split_double c (cur ++ x ∷ []) (y ∷ xs)
]

abbrev pub filter_types : List (List ℕ)
filter_types = codes "filter" ∷ codes "multi-filter" ∷ codes "multiFilter" ∷ []

-- `includes(filterTypes, type)`
abbrev pub is_filter_type : List ℕ → Bool
is_filter_type t = any (eq_codes t) filter_types

-- What follows the test of the first part in `getColumnNameWithoutType`.
without_type : List ℕ → List (List ℕ) → List ℕ
without_type column [] = column
without_type column (first ∷ []) = column
without_type column ([] ∷ second ∷ []) = second
without_type column (first ∷ second ∷ more) = if is_filter_type second then first else column

unfoldable pub column_name_without_type : List ℕ → List ℕ
unfolding without_type
column_name_without_type column =
    if has_double colon column
    then without_type column (split_double colon [] column)
    else if has_double underscore column
    then without_type column (split_double underscore [] column)
    else column

-- `toUpperCase`, for the Latin letters.
abbrev upper : ℕ → ℕ
upper c = if leb b'a' c && leb c b'z' then c - 32 else c

-- `replace(/(?:^|\s)\S/g, a => a.toUpperCase())`; the flag says that a word may begin.
capitals : Bool → List ℕ → List ℕ
unfolding is_space
capitals begins [] = []
capitals begins (c ∷ cs) = (if begins then upper c else c) ∷ capitals (is_space c) cs

unfoldable pub column_friendly_name : List ℕ → List ℕ
unfolding capitals
column_friendly_name column = capitals true (column_name_without_type column)

abbrev second : List (List ℕ) → List ℕ
second (a ∷ b ∷ more) = b
second _ = []

abbrev or_else : List ℕ → List ℕ → List ℕ
or_else [] t = t
or_else (c ∷ cs) t = c ∷ cs

-- `name.split("::")[1] || name.split("__")[1]`, where `undefined` is the empty text: neither is a
-- filter type.
unfoldable pub filter_type : List ℕ → List ℕ
filter_type name =
    or_else (second (split_double colon [] name)) (second (split_double underscore [] name))

pub record Filter (Cell : Type 0) : Type 0 where
  pub name : List ℕ
  pub friendly_name : List ℕ
  pub values : List Cell
  pub multiple : Bool
  -- the value of the first row, in a list if `multiple`; `none` if there is no row
  pub current : Option Cell

-- `getFilters` on the names of the columns. `cells name` are the cells of the column in the rows' order,
-- `unique` is lodash's `uniqBy` by the value, moments by their second.
module _ {Cell : Type 0} (cells : List ℕ → List Cell) (unique : List Cell → List Cell) where
  abbrev first_of_cells : List Cell → Option Cell
  first_of_cells [] = none
  first_of_cells (c ∷ cs) = some c

  make_filter : List ℕ → Filter Cell
  make_filter name = record {
    name = name;
    friendly_name = column_friendly_name name;
    values = unique (cells name);
    multiple =
        eq_codes (filter_type name) (codes "multiFilter")
        || eq_codes (filter_type name) (codes "multi-filter");
    current = first_of_cells (cells name);
  }

  unfoldable pub get_filters : List (List ℕ) → List (Filter Cell)
  unfolding make_filter
  get_filters [] = []
  get_filters (name ∷ names) =
      if is_filter_type (filter_type name)
      then make_filter name ∷ get_filters names
      else get_filters names
