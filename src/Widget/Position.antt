-- ===== src/Widget/Position.antt =====
-- widget.js: `calculatePositionOptions` and the constructor's position, with the grid of
-- client/app/config/dashboard-grid-options.js. Sizes on the x axis count tenths of a column, as the
-- grid's smallest width is 0.2 columns.
use mxzz_bi.Prelude.{
  ℕ, suc, ◌+◌, ◌*◌, ◌/◌, ◌≤◌, min, ◌≡◌, refl, Bool, true, false, not, ◌||◌, Option, none, some, ℤ,
  pos, negsuc, neg, arith,
}
use mxzz_bi.Js.{Arg, parse_int}

abbrev pub columns : ℕ
columns = 6

abbrev pub row_height : ℕ
row_height = 50

-- What the visualization's registration says.
pub record Config : Type 0 where
  pub auto_height : Option Bool
  pub min_columns : Arg
  pub max_columns : Arg
  pub height : Arg
  pub min_rows : Arg
  pub max_rows : Arg
  pub default_columns : Arg
  pub default_rows : Arg

pub record Position : Type 0 where
  pub auto_height : Bool
  pub size_x : ℤ
  pub size_y : ℤ
  pub min_size_x : ℕ
  pub max_size_x : ℕ
  pub min_size_y : ℤ
  pub max_size_y : ℕ
  pub col : Option ℤ
  pub row : Option ℤ

-- What the saved options have of a position.
pub record Saved : Type 0 where
  pub col : Option ℤ
  pub row : Option ℤ
  pub size_x : Option ℤ
  pub size_y : Option ℤ
  pub auto_height : Option Bool

abbrev pub or_int {ℓ} : {A : Type ℓ} → Option A → A → A
or_int none a = a
or_int (some b) a = b

-- `isFinite(n) && n >= 0` or else the default
abbrev pub not_negative : Option ℤ → ℕ → ℕ
not_negative (some (pos n)) d = n
not_negative _ d = d

-- `isFinite(n) && n > 0` or else the default
abbrev pub positive : Option ℤ → ℤ → ℤ
positive (some (pos (suc n))) d = pos (suc n)
positive _ d = d

-- `Math.ceil(height / rowHeight)`
abbrev pub rows_of : ℤ → ℤ
rows_of (pos n) = pos ((n + 49) / row_height)
rows_of (negsuc n) = neg (suc n / row_height)

abbrev pub rows_or : Option ℤ → ℤ → ℤ
rows_or none d = d
rows_or (some z) d = rows_of z

abbrev pub tenths : ℤ → ℤ
tenths (pos n) = pos (n * 10)
tenths (negsuc n) = neg (suc n * 10)

-- `Math.min(maxColumns, columns)`, in tenths
abbrev pub max_tenths : Option ℤ → ℕ
max_tenths (some (pos n)) = min n columns * 10
max_tenths _ = 60

abbrev pub min_tenths : Option ℤ → ℕ
min_tenths (some (pos n)) = n * 10
min_tenths _ = 2

abbrev pub default_position : Position
default_position = record {
  auto_height = false;
  size_x = pos 30;
  size_y = pos 3;
  min_size_x = 2;
  max_size_x = 60;
  min_size_y = pos 1;
  max_size_y = 1000;
  col = none;
  row = none;
}

unfoldable pub calculate_position_options : Option Config → Position
calculate_position_options none = default_position
calculate_position_options (some c) = record default_position {
  auto_height = or_int c.auto_height false;
  size_x = tenths (positive (parse_int c.default_columns) (pos 3));
  size_y = positive (parse_int c.default_rows) (pos 3);
  min_size_x = min_tenths (parse_int c.min_columns);
  max_size_x = max_tenths (parse_int c.max_columns);
  min_size_y = or_int (parse_int c.min_rows) (rows_or (parse_int c.height) (pos 1));
  max_size_y = not_negative (parse_int c.max_rows) 1000;
}

abbrev pub is_negative : ℤ → Bool
is_negative (pos n) = false
is_negative (negsuc n) = true

abbrev pub or_if : Bool → Bool → Bool
or_if true b = true
or_if false b = b

-- The constructor's `options.position`; saved sizes count tenths, too.
unfoldable pub position : Option Config → Saved → Position
unfolding calculate_position_options
position c s =
    let p = calculate_position_options c in
    let y = or_int s.size_y p.size_y in
    record p {
      col = s.col;
      row = s.row;
      size_x = or_int s.size_x p.size_x;
      size_y = y;
      auto_height = or_if (is_negative y) (or_int s.auto_height p.auto_height);
    }

min_columns-le : (n : ℕ) → min n columns * 10 ≤ 60
min_columns-le n = omega arith

max_tenths-le : (o : Option ℤ) → max_tenths o ≤ 60
max_tenths-le none = omega arith
max_tenths-le (some (pos n)) = min_columns-le n
max_tenths-le (some (negsuc n)) = omega arith

negative_auto : (y : ℤ) (b : Bool) → (not (is_negative y) || or_if (is_negative y) b) ≡ true
negative_auto (pos n) b = refl
negative_auto (negsuc n) b = refl

-- Whatever a visualization registers and a dashboard has saved, a widget may grow to the width of
-- the grid at most, and a negative height makes it an automatic one.
position_bounds :
    (c : Option Config) (s : Saved)
    → ((position c s).max_size_x ≤ 60)
      × ((not (is_negative (position c s).size_y) || (position c s).auto_height) ≡ true)
unfolding position calculate_position_options
position_bounds none s =
    (omega arith, negative_auto (or_int s.size_y (pos 3)) (or_int s.auto_height false))
position_bounds (some c) s = (
  max_tenths-le (parse_int c.max_columns),
  negative_auto (or_int s.size_y (positive (parse_int c.default_rows) (pos 3)))
      (or_int s.auto_height (or_int c.auto_height false)),
)
