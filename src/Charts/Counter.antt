-- ===== src/Charts/Counter.antt =====
-- viz-lib/src/visualizations/counter/utils.js: which rows a counter shows, and its data. Of numeral,
-- the texts are parameters, without the delimiters that are put back after each of them.
pub mod Rows
use mxzz_bi.Prelude.{
  ℕ, zero, suc, ◌+◌, ◌-◌, ◌%◌, String, Bool, true, false, not, ◌&&◌, ◌||◌, Option, none, some, List,
  [], ◌∷◌, length, get_elem?, ltb, ◌==◌, str_eq, ℤ, pos, negsuc, if◌then◌else◌,
}
use mxzz_bi.Js.{Arg, parse_int, or_default}

-- `%`, with `none` for NaN
abbrev pub remainder : ℕ → ℕ → Option ℕ
remainder n zero = none
remainder n (suc m) = some (n % suc m)

abbrev pub from_end : (rows_count : ℕ) → Option ℕ → Option ℕ
from_end n none = none
from_end n (some wrapped) = some (n - wrapped - 1)

-- From the number that the option holds, 0 if it holds none.
abbrev pub row_number : ℤ → (rows_count : ℕ) → Option ℕ
row_number (pos zero) n = some 0
row_number (pos (suc i)) n = remainder i n
row_number (negsuc i) n = from_end n (remainder i n)

unfoldable pub get_row_number : Arg → (rows_count : ℕ) → Option ℕ
get_row_number index n = row_number (or_default (parse_int index) 0) n

pub record Options : Type 0 where
  pub count_row : Bool
  pub counter_label : String
  pub counter_col_name : String
  pub target_col_name : String
  pub row_number : Arg
  pub target_row_number : Arg
  pub format_target_value : Bool

-- What is used of cells, of numbers and of numeral; `number_of` is `Number.isFinite` with the number.
pub record Cells (Row Cell Num : Type 0) : Type 0 where
  pub cell : Row → String → Cell
  pub of_count : ℕ → Cell
  pub nothing : Cell
  pub is_number : Cell → Bool
  pub number_of : Cell → Option Num
  pub at_least : Num → Num → Bool
  pub format_tooltip : Cell → String
  pub format_value : Cell → String
  pub format_plain : Num → String
  pub text_of : Cell → String

pub record Counter (Cell : Type 0) : Type 0 where
  pub counter_label : String
  pub show_trend : Bool
  pub trend_positive : Option Bool
  pub counter_value_tooltip : String
  pub target_value_tooltip : String
  pub counter_value : String
  pub target_value : String

-- Nothing to show, the data, or an exception.
pub data Result (A : Type 0) : Type 0 where
  nothing_shown thrown : Result A
  shown : A → Result A

abbrev pub non_empty : String → Bool
non_empty s = not (str_eq s "")

abbrev pub row_at {ℓ} : {Row : Type ℓ} → List Row → Option ℕ → Option Row
row_at rows none = none
row_at rows (some i) = get_elem? rows i

abbrev pub is_some {ℓ} : {A : Type ℓ} → Option A → Bool
is_some none = false
is_some (some b) = true

module _ {Row Cell Num : Type 0} (cells : Cells Row Cell Num) where
  -- The cell of a row, `none` if there is no such row, which throws.
  abbrev pub cell_of : Option Row → String → Option Cell
  cell_of none col = none
  cell_of (some row) col = some (cells.cell row col)

  -- Whether the counter is at the target or above it, when both are numbers.
  abbrev pub trend : Option Num → Option Num → Option Bool
  trend (some c) (some t) = some (cells.at_least c t)
  trend (some c) none = none
  trend none o = none

  abbrev pub plain_target : Option Num → Cell → String
  plain_target none target = cells.text_of target
  plain_target (some n) target = cells.format_plain n

  module _ (options : Options) where
    -- `nothing` where nothing is set, as undefined and null are shown alike.
    unfoldable pub counter_value_of : List Row → Option Cell
    unfolding get_row_number
    counter_value_of rows =
        let n = length rows in
        if options.count_row
        then some (cells.of_count n)
        else if non_empty options.counter_col_name
        then cell_of (row_at rows (get_row_number options.row_number n)) options.counter_col_name
        else some cells.nothing

    unfoldable pub target_value_of : List Row → Option Cell
    unfolding get_row_number
    target_value_of rows =
        if non_empty options.target_col_name
        then cell_of (row_at rows (get_row_number options.target_row_number (length rows)))
            options.target_col_name
        else some cells.nothing

    abbrev pub counter_of : (visualization_name : String) → Cell → Cell → Counter Cell
    counter_of name value target =
        let t =
          if non_empty options.target_col_name
          then trend (cells.number_of value) (cells.number_of target)
          else none in
        record {
          counter_label = if non_empty options.counter_label then options.counter_label else name;
          show_trend = is_some t;
          trend_positive = t;
          counter_value_tooltip = cells.format_tooltip value;
          target_value_tooltip = cells.format_tooltip target;
          counter_value = cells.format_value value;
          target_value =
              if options.format_target_value
              then cells.format_value target
              else plain_target (cells.number_of target) target;
        }

    abbrev pub combine :
        (visualization_name : String) → Option Cell → Option Cell → Result (Counter Cell)
    combine name none t = thrown
    combine name (some c) none = thrown
    combine name (some c) (some t) = shown (counter_of name c t)

    unfoldable pub get_counter_data :
        List Row → (visualization_name : String) → Result (Counter Cell)
    unfolding counter_value_of target_value_of
    get_counter_data rows name =
        if ltb 0 (length rows) || options.count_row
        then combine name (counter_value_of rows) (target_value_of rows)
        else nothing_shown

    abbrev pub is_number_at : Option Cell → Bool
    is_number_at none = false
    is_number_at (some c) = cells.is_number c

    -- An index past the rows, which throws, does not occur when there are rows.
    unfoldable pub is_value_number : List Row → Bool
    unfolding get_row_number
    is_value_number rows =
        options.count_row
        || ltb 0 (length rows)
          && non_empty options.counter_col_name
          && is_number_at (
              cell_of (row_at rows (get_row_number options.row_number (length rows)))
                options.counter_col_name)
