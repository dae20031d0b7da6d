-- ===== src/Charts/CounterTests.antt =====
-- The theorems of counters at concrete rows, with numbers for cells.
use mxzz_bi.Prelude.{ℕ, ◌≡◌, true, false, some, [], ◌∷◌, leb, arith, negsuc}
use mxzz_bi.Js.{int, str}
use mxzz_bi.Charts.Counter.{Options, Cells, Counter, shown, get_counter_data}
use mxzz_bi.Charts.Counter.Rows.{get_counter_data_shown}

abbrev numbers : Cells ℕ ℕ ℕ
numbers = record {
  cell = λ row col. row;
  of_count = λ n. n;
  nothing = 0;
  is_number = λ c. true;
  number_of = some;
  at_least = λ c t. leb t c;
  format_tooltip = λ c. "";
  format_value = λ c. "";
  format_plain = λ c. "";
  text_of = λ c. "";
}

abbrev counted : Options
counted = record {
  count_row = true;
  counter_label = "";
  counter_col_name = "n";
  target_col_name = "n";
  row_number = str "-1";
  target_row_number = int (negsuc 4);
  format_target_value = false;
}

get_counter_data_shown_example :
    (c : Counter ℕ) × (get_counter_data numbers counted (7 ∷ 8 ∷ []) "Count" ≡ shown c)
get_counter_data_shown_example =
    get_counter_data_shown numbers counted (7 ∷ 8 ∷ []) "Count" (omega arith)
