-- ===== src/Charts/StackingTests.antt =====
-- The theorem of stacked lines at two series, the second with no value at the first x.
use mxzz_bi.Prelude.{
  ℕ, ◌+◌, ◌*◌, ◌/◌, String, ◌≡◌, refl, true, false, none, some, List, [], ◌∷◌, map,
}
use mxzz_bi.Charts.Stacking.{
  Numbers, Item, Series, Options, line, unified_x_axis_values, update_percent_values,
  update_unified_x_axis_values, stack_values, stack_series, update_visible,
}

abbrev whole : Numbers ℕ
whole = record { zero = 0; add = ◌+◌; abs = λ n. n; percent = λ y sum. y * 100 / sum }

abbrev item : String → ℕ → Item ℕ
item x y = record { x = x; y = some y; y_percent = none }

abbrev series : List (Item ℕ) → Series ℕ
series items = record { visible = true; source_data = items; xs = []; ys = [] }

abbrev two : List (Series ℕ)
two = series (item "a" 1 ∷ item "b" 2 ∷ []) ∷ series (item "b" 3 ∷ []) ∷ []

abbrev lines : Options
lines = record {
  global_series_type = line;
  percent_values = false;
  stacking = true;
  missing_values_as_zero = false;
  sort_x = false;
  category_axis = false;
}

stacked_lines :
    map (λ s. s.ys) (update_visible whole lines (λ xs. xs) two)
    ≡ (some 1 ∷ some 2 ∷ []) ∷ (none ∷ some 5 ∷ []) ∷ []
unfolding update_visible update_percent_values update_unified_x_axis_values unified_x_axis_values
    stack_series stack_values
stacked_lines = refl
