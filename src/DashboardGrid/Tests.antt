-- ===== src/DashboardGrid/Tests.antt =====
-- The theorems of new places at concrete inputs.
use mathlib.Core.List.{Mem, mem-cons}
use mathlib.Core.Logic.Or
use mxzz_bi.Prelude.{◌≤◌, refl, [], ◌∷◌, arith}
use mxzz_bi.DashboardGrid.{Box, raise, bottom_line, top_most, calculate_new_widget_position}
use mxzz_bi.DashboardGrid.Free.{calculate_new_widget_position_free}

-- The left half down to row 4.
abbrev half : Box
half = record { left = 0; right = 3; bottom = 4 }

in_front : Mem half (half ∷ [])
in_front = mem-cons.1 (Or.inl refl)

calculate_new_widget_position_free_example : half.bottom ≤ 4
unfolding calculate_new_widget_position bottom_line raise top_most
calculate_new_widget_position_free_example =
    calculate_new_widget_position_free (half ∷ []) 6 0 4 half 2 refl in_front (omega arith)
      (omega arith) (omega arith) (omega arith) (omega arith)
