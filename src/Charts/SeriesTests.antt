-- ===== src/Charts/SeriesTests.antt =====
-- The theorems of a chart's series at concrete rows, with numbers for cells.
use mxzz_bi.Prelude.{ℕ, ◌≡◌, Bool, false, Option, some, List, [], ◌∷◌}
use mxzz_bi.Js.{codes}
use mxzz_bi.Charts.Series.{Name, Row, add_rows}
use mxzz_bi.Charts.Series.Points.{points_in, points_for, points_in-add_rows_all}

abbrev mapped : Option (List (Name × Name))
mapped = some ((codes "day", codes "x") ∷ (codes "sales", codes "y") ∷ [])

abbrev rows : List (Row ℕ)
rows =
    ((codes "day", 1) ∷ (codes "sales", 10) ∷ [])
    ∷ ((codes "day", 2) ∷ (codes "sales", 20) ∷ [])
    ∷ []

abbrev never_null : ℕ → Bool
never_null n = false

abbrev no_text : ℕ → Name
no_text n = []

points_in-add_rows_all_example :
    points_in (codes "sales") (add_rows 0 never_null no_text mapped rows [])
    ≡ points_for 0 never_null no_text mapped (codes "sales") rows
points_in-add_rows_all_example =
    points_in-add_rows_all 0 never_null no_text mapped (codes "sales") rows
