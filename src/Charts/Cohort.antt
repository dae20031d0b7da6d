-- ===== src/Charts/Cohort.antt =====
-- viz-lib/src/visualizations/cohort/prepareData.js: the rows of a cohort. Moments are parameters, with
-- the text of their `valueOf` as the key of a group; dates are later than February 1970, so that an
-- object keeps such keys in the order in which they were set. `none` is NaN.
pub mod Stages
pub mod Placed
use mxzz_bi.Prelude.{
  ℕ, zero, suc, ◌+◌, ◌-◌, String, Bool, false, ◌&&◌, Option, none, some, List, [], ◌∷◌, ◌++◌, map,
  leb, length, ltb, str_eq, if◌then◌else◌, ℤ, pos, negsuc, pos_part, neg_part, neg, leb_ℤ,
}
use mxzz_bi.Parameters.Normalize.{member}

-- a - b
abbrev pub minus : ℕ → ℕ → ℤ
minus a b = if leb b a then pos (a - b) else neg (b - a)

abbrev pub plus : ℤ → ℤ → ℤ
plus a b = minus (pos_part a + pos_part b) (neg_part a + neg_part b)

-- `parseInt` of a cell, `parseFloat` of it, and `parseInt` of such a number, with base 10.
pub record Cells (Row Cell Number : Type 0) : Type 0 where
  pub cell : Row → String → Cell
  pub parse_int : Cell → Option ℤ
  pub parse_float : Cell → Number
  pub whole : Number → Option ℤ

-- `diff` in a unit, or in milliseconds without one.
pub record Calendar (Cell Moment : Type 0) : Type 0 where
  pub moment : Cell → Moment
  pub key_of : Moment → String
  pub diff : Option String → Moment → Moment → Option ℤ

pub record Item (Cell Number : Type 0) : Type 0 where
  pub date : Cell
  pub stage : Option ℤ
  pub total : Number
  pub value : Number

-- The values of the stages, the last that was set first.
pub record Group (Moment : Type 0) : Type 0 where
  pub key : String
  pub date : Moment
  pub total : ℤ
  pub values : List (Option ℤ × Option ℤ)

-- What a row has: a value that is missing, `null`, or a number.
pub data Shown : Type 0 where
  undefined null : Shown
  number : ℤ → Shown

pub data Mode : Type 0 where
  simple other : Mode

pub record Options : Type 0 where
  pub time_interval : String
  pub mode : Mode
  pub date_column : String
  pub stage_column : String
  pub total_column : String
  pub value_column : String

-- `momentInterval`
unfoldable pub moment_interval : String → Option String
moment_interval s =
    if str_eq s "weekly"
    then some "weeks"
    else if str_eq s "daily"
    then some "days"
    else if str_eq s "monthly"
    then some "months"
    else none

-- `n || 0`
abbrev pub or_zero : Option ℤ → ℤ
or_zero none = pos 0
or_zero (some n) = n

-- `n || null`
abbrev pub or_null : Option ℤ → Option ℤ
or_null none = none
or_null (some (pos zero)) = none
or_null (some (pos (suc n))) = some (pos (suc n))
or_null (some (negsuc n)) = some (negsuc n)

abbrev pub same_ℤ : ℤ → ℤ → Bool
same_ℤ a b = leb_ℤ a b && leb_ℤ b a

-- A NaN is under a key of its own, and never read.
abbrev pub value_at : ℤ → List (Option ℤ × Option ℤ) → Shown
value_at n [] = undefined
value_at n ((none, v) ∷ vs) = value_at n vs
value_at n ((some m, none) ∷ vs) = if same_ℤ n m then null else value_at n vs
value_at n ((some m, some v) ∷ vs) = if same_ℤ n m then number v else value_at n vs

-- `_.min` and `_.max`, which leave NaN aside.
abbrev pub least : Option ℤ → Option ℤ → Option ℤ
least none b = b
least (some a) none = some a
least (some a) (some b) = if leb_ℤ a b then some a else some b

abbrev pub most : Option ℤ → Option ℤ → Option ℤ
most none b = b
most (some a) none = some a
most (some a) (some b) = if leb_ℤ b a then some a else some b

unfoldable pub min_of : List (Option ℤ) → Option ℤ
min_of [] = none
min_of (n ∷ ns) = least n (min_of ns)

unfoldable pub max_of : List (Option ℤ) → Option ℤ
max_of [] = none
max_of (n ∷ ns) = most n (max_of ns)

-- How often the loop from the first stage to the last one runs.
abbrev pub span : ℤ → ℤ → ℕ
span first last = suc (pos_part last + neg_part first) - (pos_part first + neg_part last)

abbrev pub count : Option ℤ → Option ℤ → ℕ
count none last = 0
count (some first) none = 0
count (some first) (some last) = span first last

-- `|| 0`
abbrev pub or_none : Shown → Shown
or_none undefined = number (pos 0)
or_none null = number (pos 0)
or_none (number n) = number n

abbrev pub values_from : (Shown → Shown) → List (Option ℤ × Option ℤ) → ℤ → ℕ → List Shown
values_from f vs stage zero = []
values_from f vs stage (suc n) = f (value_at stage vs) ∷ values_from f vs (plus stage (pos 1)) n

abbrev pub stage_values :
    (Shown → Shown) → List (Option ℤ × Option ℤ) → Option ℤ → Option ℤ → List Shown
stage_values f vs none last = []
stage_values f vs (some first) last = values_from f vs first (count (some first) last)

abbrev pub lower : Option ℤ → Option ℤ
lower none = none
lower (some n) = some (plus n (negsuc 0))

abbrev pub lower_by : ℕ → Option ℤ → Option ℤ
lower_by zero last = last
lower_by (suc n) last = lower_by n (lower last)

-- `Math.abs` of a difference; NaN, which is not above 1, counts as 0.
abbrev pub size : Option ℤ → ℕ
size none = 0
size (some n) = pos_part n + neg_part n

abbrev pub repeat : ℕ → List Shown → List (List Shown)
repeat zero row = []
repeat (suc n) row = row ∷ repeat n row

module _ {Row Cell Number Moment : Type 0} (cells : Cells Row Cell Number)
    (cal : Calendar Cell Moment) where
  -- The pass of the loop for one item: its group is made if there is none, and its value set.
  unfoldable pub add_item : Item Cell Number → List (Group Moment) → List (Group Moment)
  add_item item [] =
      let date = cal.moment item.date in
      record {
        key = cal.key_of date;
        date = date;
        total = or_zero (cells.whole item.total);
        values = (item.stage, or_null (cells.whole item.value)) ∷ [];
      }
      ∷ []
  add_item item (g ∷ gs) =
      let rest = add_item item gs in
      if str_eq g.key (cal.key_of (cal.moment item.date))
      then record g { values = (item.stage, or_null (cells.whole item.value)) ∷ g.values } ∷ gs
      else g ∷ rest

  unfoldable pub add_items : List (Item Cell Number) → List (Group Moment) → List (Group Moment)
  unfolding add_item
  add_items [] gs = gs
  add_items (item ∷ items) gs = add_items items (add_item item gs)

  -- `groupData`
  unfoldable pub group_data : List (Item Cell Number) → List (Group Moment)
  unfolding add_items
  group_data sorted_data = add_items sorted_data []

  -- How many intervals a group is away from the one before it, if there is one.
  abbrev pub distance : Option String → Option Moment → Group Moment → ℕ
  distance unit none g = 0
  distance unit (some previous_date) g = size (cal.diff unit previous_date g.date)

  abbrev pub simple_row : Option ℤ → Option ℤ → Group Moment → List Shown
  simple_row first last g = number g.total ∷ stage_values (λ v. v) g.values first last

  -- The loop of `prepareSimpleData` over the groups.
  unfoldable pub simple_rows :
      Option String → Option ℤ → Option ℤ → Option Moment → List (Group Moment) → List (List Shown)
  simple_rows unit first last previous [] = []
  simple_rows unit first last previous (g ∷ gs) =
      repeat (distance unit previous g - 1) (number (pos 0) ∷ [])
      ++ simple_row first last g ∷ simple_rows unit first last (some g.date) gs

  unfoldable pub prepare_simple_data : List (Item Cell Number) → Options → List (List Shown)
  unfolding simple_rows
  prepare_simple_data sorted_data options =
      let stages = map (λ i. i.stage) sorted_data in
      simple_rows (moment_interval options.time_interval) (min_of stages) (max_of stages) none
        (group_data sorted_data)

  abbrev pub diagonal_row : ℤ → Option ℤ → Option ℤ → Group Moment → List Shown
  diagonal_row head first last g = number head ∷ stage_values or_none g.values first last

  -- The rows for the dates that are missing before a group.
  unfoldable pub missing_rows : ℕ → Option ℤ → Option ℤ → Group Moment → List (List Shown)
  missing_rows zero first last g = []
  missing_rows (suc n) first last g =
      diagonal_row (pos 0) first last g ∷ missing_rows n first (lower last) g

  -- The loop of `prepareDiagonalData` over the groups.
  unfoldable pub diagonal_rows :
      Option String → Option ℤ → Option ℤ → Option Moment → List (Group Moment) → List (List Shown)
  unfolding missing_rows
  diagonal_rows unit first last previous [] = []
  diagonal_rows unit first last previous (g ∷ gs) =
      let missing = distance unit previous g - 1 in
      let last_stage = lower_by missing last in
      missing_rows missing first last g
      ++ diagonal_row g.total first last_stage g
        ∷ diagonal_rows unit first (lower last_stage) (some g.date) gs

  abbrev pub last_date : Moment → List (Group Moment) → Moment
  last_date date [] = date
  last_date date (g ∷ gs) = last_date g.date gs

  -- `firstStage + stageCount`
  abbrev pub plus_count : Option ℤ → Option ℤ → Option ℤ
  plus_count none n = none
  plus_count (some first) none = none
  plus_count (some first) (some n) = some (plus first n)

  -- There is a group as soon as there is an item, as `prepareData` makes sure.
  abbrev pub diagonal_of : Option String → Option ℤ → List (Group Moment) → List (List Shown)
  diagonal_of unit first [] = []
  diagonal_of unit first (g ∷ gs) =
      let stage_count = cal.diff unit (last_date g.date gs) g.date in
      diagonal_rows unit first (plus_count first stage_count) none (g ∷ gs)

  unfoldable pub prepare_diagonal_data : List (Item Cell Number) → Options → List (List Shown)
  unfolding diagonal_rows
  prepare_diagonal_data sorted_data options =
      diagonal_of (moment_interval options.time_interval) (min_of (map (λ i. i.stage) sorted_data))
        (group_data sorted_data)

  unfoldable pub is_data_valid : List String → List Row → Options → Bool
  is_data_valid column_names rows options =
      ltb 0 (length rows)
      && member options.date_column column_names
      && member options.stage_column column_names
      && member options.total_column column_names
      && member options.value_column column_names

  unfoldable pub item_of : Options → Row → Item Cell Number
  item_of options row = record {
    date = cells.cell row options.date_column;
    stage = cells.parse_int (cells.cell row options.stage_column);
    total = cells.parse_float (cells.cell row options.total_column);
    value = cells.parse_float (cells.cell row options.value_column);
  }

  unfoldable pub data_of : Options → List (Item Cell Number) → List (List Shown)
  data_of options sorted_data = elim options.mode [
    | simple ↦ prepare_simple_data sorted_data options
    | other ↦ prepare_diagonal_data sorted_data options
  ]

  abbrev pub first_date : List (Item Cell Number) → Option Moment
  first_date [] = none
  first_date (i ∷ is) = some (cal.moment i.date)

  -- `prepareData`, with the data and the first date; `sort_by` sorts by `r.date + r.stage`.
  unfoldable pub prepare_data :
      (List (Item Cell Number) → List (Item Cell Number))
      → List String
      → List Row
      → Options
      → List (List Shown) × Option Moment
  prepare_data sort_by column_names rows options =
      let sorted_data = sort_by (map (item_of options) rows) in
      if is_data_valid column_names rows options
      then (data_of options sorted_data, first_date sorted_data)
      else ([], none)
