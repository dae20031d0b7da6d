-- ===== src/DashboardGrid/Layout.antt =====
-- client/app/services/dashboard.js: `prepareWidgetsForDashboard`. A negative height counts as 0, which
-- no comparison of the code tells apart; rows are not negative.
use mxzz_bi.Prelude.{
  ℕ, ◌+◌, max, Bool, false, Option, none, some, List, [], ◌∷◌, map, ltb, ◌==◌, if◌then◌else◌,
}
use mxzz_bi.DashboardGrid.{max_of}

pub record Placed : Type 0 where
  pub id : ℕ
  pub col : ℕ
  pub row : ℕ
  pub size_y : ℕ
  pub auto_height : Bool

abbrev pub default_widget_size_y : List Placed → ℕ
default_widget_size_y ws = max (max_of (map (λ w. w.size_y) ws)) 20 + 5

abbrev pub height_of : (default_size : ℕ) → Placed → ℕ
height_of d w = if w.auto_height then d else w.size_y

abbrev pub move_to : (default_size row : ℕ) → Placed → Placed
move_to d row w = record w { row = row; size_y = if ltb w.size_y 1 then d else w.size_y }

abbrev pub in_group : Option ℕ → ℕ → Bool
in_group none row = false
in_group (some g) row = g == row

-- Where the widget of a row is put, and the height of its group with it.
abbrev pub next : (default_size row : ℕ) → (group : Option ℕ) → (height : ℕ) → Placed → ℕ × ℕ
next d row group height w =
    if in_group group w.row
    then (row, max height (height_of d w))
    else (row + height, max 1 (height_of d w))

-- The widgets come in the order of their rows, so that a group is a run of widgets of one row.
unfoldable pub place :
    (default_size row : ℕ) → (group : Option ℕ) → (height : ℕ) → List Placed → List Placed
place d row group height [] = []
place d row group height (w ∷ ws) =
    let p = next d row group height w in move_to d p.0 w ∷ place d p.0 (some w.row) p.1 ws

-- `sort_by` is lodash's `sortBy`.
unfoldable pub prepare_widgets_for_dashboard :
    (sort_by : (Placed → ℕ) → List Placed → List Placed) → List Placed → List Placed
unfolding place
prepare_widgets_for_dashboard sort_by ws =
    let placed = place (default_widget_size_y ws) 0 none 0 (sort_by (λ w. w.row) ws) in
    sort_by (λ w. w.row) (sort_by (λ w. w.col) placed)
