-- ===== src/FilterInput.antt =====
-- client/app/components/Filters.jsx: the choice of a filter's values and the rows that are left. A value
-- that the list knows is chosen by its index; `equal` is `===`, and a cell's text is `String(cell)`.
pub mod AllValues
mod Tests
use mxzz_bi.Prelude.{
  ℕ, String, Bool, true, false, not, ◌&&◌, ◌||◌, Option, none, some, List, [], ◌∷◌, map, filter,
  any, all, get_elem?, str_eq, if◌then◌else◌,
}

-- The keys of the options.
pub data Key : Type 0 where
  index : ℕ → Key
  all_values none_values : Key

-- What is chosen: cells, and keys that stand for themselves.
pub data Chosen (Cell : Type 0) : Type 0 where
  cell : Cell → Chosen Cell
  key : Key → Chosen Cell

pub data Current (Cell : Type 0) : Type 0 where
  one : Chosen Cell → Current Cell
  many : List (Chosen Cell) → Current Cell

pub record Filter (Cell : Type 0) : Type 0 where
  pub name : String
  pub multiple : Bool
  pub values : List Cell
  pub current : Current Cell

abbrev pub is_all : {Cell : Type 0} → Chosen Cell → Bool
is_all (key all_values) = true
is_all (key none_values) = false
is_all (key (index i)) = false
is_all (cell c) = false

abbrev pub is_clear : {Cell : Type 0} → Chosen Cell → Bool
is_clear (key none_values) = true
is_clear (key all_values) = false
is_clear (key (index i)) = false
is_clear (cell c) = false

abbrev pub cell_at : {Cell : Type 0} → Key → List Cell → Option Cell
cell_at (index i) values = get_elem? values i
cell_at all_values values = none
cell_at none_values values = none

module _ {Cell : Type 0} (truthy : Cell → Bool) where
  -- `filter.values[toNumber(value.key)] || value.key`
  abbrev pub or_key : Key → Option Cell → Chosen Cell
  or_key k none = key k
  or_key k (some c) = if truthy c then cell c else key k

  -- `_values !== undefined ? _values : values.key`
  abbrev pub defined_or_key : Key → Option Cell → Chosen Cell
  defined_or_key k none = key k
  defined_or_key k (some c) = cell c

  -- What the select gives: an array of keys for a multiple filter, or one key.
  unfoldable pub chosen_many : Filter Cell → List Key → List (Chosen Cell)
  chosen_many f keys =
      let picked = map (λ k. or_key k (cell_at k f.values)) keys in
      let with_all = if f.multiple && any is_all picked then map cell f.values else picked in
      if f.multiple && any is_clear with_all then [] else with_all

  unfoldable pub chosen_one : Filter Cell → Key → Chosen Cell
  chosen_one f k = defined_or_key k (cell_at k f.values)

  abbrev pub replace_named : Filter Cell → List (Filter Cell) → List (Filter Cell)
  replace_named f fs = map (λ g. if str_eq g.name f.name then f else g) fs

  unfoldable pub change_many : Filter Cell → List Key → List (Filter Cell) → List (Filter Cell)
  unfolding chosen_many
  change_many f keys fs = replace_named (record f { current = many (chosen_many f keys) }) fs

  unfoldable pub change_one : Filter Cell → Key → List (Filter Cell) → List (Filter Cell)
  unfolding chosen_one
  change_one f k fs = replace_named (record f { current = one (chosen_one f k) }) fs

module _ {Row Cell : Type 0} (cell_of : Row → String → Cell) (equal : Cell → Cell → Bool)
    (is_text_of : Key → Cell → Bool) where
  -- `filterValue === rowValue || String(rowValue) === filterValue`, on moments `isSame`; `is_text_of` says
  -- that a key is the text of a cell.
  abbrev pub matches : Cell → Chosen Cell → Bool
  matches c (cell d) = equal d c
  matches c (key k) = is_text_of k c

  abbrev pub chosen_list : Current Cell → List (Chosen Cell)
  chosen_list (one c) = c ∷ []
  chosen_list (many cs) = cs

  abbrev pub row_passes : List (Filter Cell) → Row → Bool
  row_passes fs row = all (λ f. any (matches (cell_of row f.name)) (chosen_list f.current)) fs

  unfoldable pub filter_data : List Row → List (Filter Cell) → List Row
  filter_data rows fs = filter (row_passes fs) rows
