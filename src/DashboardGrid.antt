-- ===== src/DashboardGrid.antt =====
-- client/app/services/dashboard.js: `calculateNewWidgetPosition`, where a new widget is put on the
-- grid. Places and sizes are whole columns and rows, and a new widget is no wider than the grid.
pub mod Free
pub mod Layout
pub mod Apart
mod Tests
mod SortTests
use mxzz_bi.Prelude.{
  ℕ, zero, suc, ◌+◌, ◌-◌, max, Bool, true, false, ◌&&◌, Option, none, some, List, [], ◌∷◌, slice,
  ltb, leb, if◌then◌else◌,
}
use mxzz_bi.Widget.Position.{columns}

-- The columns from `left` up to `right`, and the row below, of a widget that is there.
pub record Box : Type 0 where
  pub left : ℕ
  pub right : ℕ
  pub bottom : ℕ

-- `{ row: 0, sizeY: 0 }` where the position lacks them
abbrev pub box_of : (col size_x : ℕ) (row size_y : Option ℕ) → Box
box_of col size_x row size_y = record {
  left = col;
  right = col + size_x;
  bottom = or_zero row + or_zero size_y;
}
  where
    or_zero : Option ℕ → ℕ
    or_zero none = 0
    or_zero (some n) = n

-- The loop over the columns of an item, from the column `i` on; an entry that the loop makes past
-- the last column is never read.
unfoldable pub raise : ℕ → Box → List ℕ → List ℕ
raise i b [] = []
raise i b (x ∷ xs) =
    (if leb b.left i && ltb i b.right then max x b.bottom else x) ∷ raise (suc i) b xs

unfoldable pub bottom_line : List Box → List ℕ → List ℕ
unfolding raise
bottom_line [] line = line
bottom_line (b ∷ bs) line = bottom_line bs (raise 0 b line)

abbrev pub zeros : ℕ → List ℕ
zeros zero = []
zeros (suc n) = 0 ∷ zeros n

abbrev pub max_of : List ℕ → ℕ
max_of [] = 0
max_of (x ∷ xs) = max x (max_of xs)

abbrev pub row_at : (width : ℕ) → List ℕ → ℕ → ℕ
row_at width line col = max_of (slice col (col + width) line)

abbrev pub range : (from count : ℕ) → List ℕ
range from zero = []
range from (suc n) = from ∷ range (suc from) n

-- A column in front of the best one behind it; a stable sort keeps the first of the least.
abbrev pub better : (row : ℕ → ℕ) → ℕ → Option (ℕ × ℕ) → Option (ℕ × ℕ)
better row c none = some (c, row c)
better row c (some (d, r)) = if leb (row c) r then some (c, row c) else some (d, r)

unfoldable pub top_most : (row : ℕ → ℕ) → List ℕ → Option (ℕ × ℕ)
top_most row [] = none
top_most row (c ∷ cs) = better row c (top_most row cs)

-- The column and the row, `none` if no column is left to try.
unfoldable pub calculate_new_widget_position : List Box → (width : ℕ) → Option (ℕ × ℕ)
unfolding bottom_line top_most
calculate_new_widget_position items width =
    top_most (row_at width (bottom_line items (zeros columns))) (range 0 (columns - width + 1))
