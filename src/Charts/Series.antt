-- ===== src/Charts/Series.antt =====
-- viz-lib/src/visualizations/chart/getChartData.js: the series of a chart. Names are lists of code
-- points; an object's keys are in the order in which they were set, names that are whole numbers aside.
pub mod Points
use mxzz_bi.Prelude.{
  ℕ, Bool, true, false, ◌||◌, Option, none, some, List, [], ◌∷◌, ◌++◌, map, get_elem?,
  if◌then◌else◌,
}
use mxzz_bi.Js.{codes}
use mxzz_bi.QueryResult.ColumnName.{eq_codes, colon, split_double}

abbrev pub Name : Type 0
Name = List ℕ

abbrev pub Row : (Cell : Type 0) → Type 0
Row Cell = List (Name × Cell)

-- What a column is for, as the code tests it.
pub data Use : Type 0 where
  unused for_x for_y for_error for_series for_size for_z for_filter other : Use

abbrev pub use_of : Name → Use
use_of t =
    if eq_codes t (codes "unused")
    then unused
    else if eq_codes t (codes "x")
    then for_x
    else if eq_codes t (codes "y")
    then for_y
    else if eq_codes t (codes "yError")
    then for_error
    else if eq_codes t (codes "series")
    then for_series
    else if eq_codes t (codes "size")
    then for_size
    else if eq_codes t (codes "zVal")
    then for_z
    else if eq_codes t (codes "multiFilter") || eq_codes t (codes "multi-filter")
    then for_filter
    else other

abbrev pub use_or_other : Option Name → Use
use_or_other none = other
use_or_other (some t) = use_of t

-- `definition.split("::") || definition.split("__")`, of which the second is never reached.
abbrev pub definition_parts : Name → List Name
definition_parts definition = split_double colon [] definition

abbrev pub first_part : List Name → Name
first_part [] = []
first_part (p ∷ ps) = p

abbrev pub lookup {ℓ} : {A : Type ℓ} → Name → List (Name × A) → Option A
lookup key [] = none
lookup key ((k, a) ∷ xs) = if eq_codes key k then some a else lookup key xs

abbrev pub put {ℓ} : {A : Type ℓ} → Name → A → List (Name × A) → List (Name × A)
put key a [] = (key, a) ∷ []
put key a ((k, b) ∷ xs) = if eq_codes key k then (k, a) ∷ xs else (k, b) ∷ put key a xs

-- `columnMapping`, if there is one.
unfoldable pub column_use : Option (List (Name × Name)) → Name → Use
column_use none definition = use_or_other (get_elem? (definition_parts definition) 1)
column_use (some mappings) definition = use_or_other (lookup definition mappings)

pub record Point (Cell : Type 0) : Type 0 where
  pub raw : Row Cell
  pub x : Option Cell
  pub y : Option Cell
  pub y_error : Option Cell
  pub size : Option Cell
  pub z_val : Option Cell

-- The variables of the loop over a row's cells; a cell that holds null is none.
pub record Scan (Cell : Type 0) : Type 0 where
  pub point : Point Cell
  pub series_name : Option Name
  pub x_value : Cell
  pub y_values : List (Name × Cell)
  pub e_value : Option Cell
  pub size_value : Option Cell
  pub z_value : Option Cell

pub record Series (Cell : Type 0) : Type 0 where
  pub name : Name
  pub data_points : List (Point Cell)

module _ {Cell : Type 0} where
  unfoldable pub add_point_to_series : Name → Point Cell → List (Series Cell) → List (Series Cell)
  add_point_to_series name p [] = record { name = name; data_points = p ∷ [] } ∷ []
  add_point_to_series name p (s ∷ ss) =
      if eq_codes name s.name
      then record s { data_points = s.data_points ++ (p ∷ []) } ∷ ss
      else s ∷ add_point_to_series name p ss

  unfoldable pub add_points : List (Name × Point Cell) → List (Series Cell) → List (Series Cell)
  unfolding add_point_to_series
  add_points [] ss = ss
  add_points ((name, p) ∷ ps) ss = add_points ps (add_point_to_series name p ss)

module _ {Cell : Type 0} (zero : Cell) (is_null : Cell → Bool) (to_text : Cell → Name) where
  abbrev pub present : Cell → Option Cell
  present c = if is_null c then none else some c

  unfoldable pub scan_cell : Use → (name : Name) → Cell → Scan Cell → Scan Cell
  scan_cell unused name v s = s
  scan_cell other name v s = s
  scan_cell for_x name v s = record s { x_value = v; point = record (s.point) { x = some v } }
  scan_cell for_y name v s = record s {
    y_values = put name v s.y_values;
    point = record (s.point) { y = some v };
  }
  scan_cell for_error name v s = record s {
    e_value = present v;
    point = record (s.point) { y_error = some v };
  }
  scan_cell for_series name v s = record s { series_name = some (to_text v) }
  scan_cell for_size name v s = record s {
    size_value = present v;
    point = record (s.point) { size = some v };
  }
  scan_cell for_z name v s = record s {
    z_value = present v;
    point = record (s.point) { z_val = some v };
  }
  scan_cell for_filter name v s = record s { series_name = some (to_text v) }

  unfoldable pub scan : Option (List (Name × Name)) → Row Cell → Scan Cell → Scan Cell
  unfolding scan_cell column_use
  scan mappings [] s = s
  scan mappings ((definition, v) ∷ cells) s =
      scan mappings cells
        (scan_cell (column_use mappings definition) (first_part (definition_parts definition)) v s)

  abbrev pub new_scan : Row Cell → Scan Cell
  new_scan row = record {
    point = record { raw = row; x = none; y = none; y_error = none; size = none; z_val = none };
    series_name = none;
    x_value = zero;
    y_values = [];
    e_value = none;
    size_value = none;
    z_value = none;
  }

  -- The points of a row with the names of their series: its own, or one for each y.
  abbrev pub points_of : Option Name → Scan Cell → List (Name × Point Cell)
  points_of none s =
      map
        (λ (y : Name × Cell). (
          y.0,
          record {
            raw = s.point.raw;
            x = some s.x_value;
            y = some y.1;
            y_error = s.e_value;
            size = s.size_value;
            z_val = s.z_value;
          },
        ))
        s.y_values
  points_of (some name) s = (name, s.point) ∷ []

  unfoldable pub row_points : Option (List (Name × Name)) → Row Cell → List (Name × Point Cell)
  unfolding scan
  row_points mappings row = let s = scan mappings row (new_scan row) in points_of s.series_name s

  unfoldable pub add_rows :
      Option (List (Name × Name)) → List (Row Cell) → List (Series Cell) → List (Series Cell)
  unfolding row_points add_points
  add_rows mappings [] ss = ss
  add_rows mappings (row ∷ rows) ss =
      add_rows mappings rows (add_points (row_points mappings row) ss)

  -- `sort_by` is lodash's `sortBy`, `z_index` that of the series' options, 0 if there is none.
  unfoldable pub get_chart_data :
      {Key : Type 0} (sort_by : (Series Cell → Key) → List (Series Cell) → List (Series Cell))
      → (z_index : Name → Key) → Option (List (Name × Name))
      → List (Row Cell)
      → List (Series Cell)
  unfolding add_rows
  get_chart_data sort_by z_index mappings rows =
      sort_by (λ s. z_index s.name) (add_rows mappings rows [])
