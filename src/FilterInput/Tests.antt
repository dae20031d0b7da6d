-- ===== src/FilterInput/Tests.antt =====
-- The choice of a value at concrete values, with numbers for cells.
use mxzz_bi.Prelude.{ℕ, ◌≡◌, refl, Bool, true, not, [], ◌∷◌, ◌==◌}
use mxzz_bi.FilterInput.{index, one, cell, Filter, chosen_one}

abbrev not_zero : ℕ → Bool
not_zero n = not (n == 0)

abbrev numbers : Filter ℕ
numbers = record { name = "n"; multiple = true; values = 0 ∷ 7 ∷ []; current = one (cell 0) }

-- In a filter of one value, the same value is chosen.
chosen_one_zero : chosen_one not_zero numbers (index 0) ≡ cell 0
unfolding chosen_one
chosen_one_zero = refl
