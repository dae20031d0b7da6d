-- ===== src/Charts/Stacking.antt =====
-- viz-lib/src/visualizations/chart/plotly/updateData.js: percent values, a common x axis, and stacking.
-- The texts of points and the error bars are left out. An x is known by its text, and a y that is nil
-- is null; the numbers and what is done with them are parameters.
pub mod Totals
pub mod Unified
use mxzz_bi.Prelude.{
  String, Bool, true, false, not, ◌&&◌, Option, none, some, List, [], ◌∷◌, ◌++◌, map, str_eq,
  if◌then◌else◌,
}
use mxzz_bi.Parameters.Normalize.{member}

pub record Numbers (Num : Type 0) : Type 0 where
  pub zero : Num
  pub add : Num → Num → Num
  pub abs : Num → Num
  -- `(y / sum) * 100`
  pub percent : Num → Num → Num

pub record Item (Num : Type 0) : Type 0 where
  pub x : String
  pub y : Option Num
  pub y_percent : Option Num

-- `source_data` is a map in the order of insertion.
pub record Series (Num : Type 0) : Type 0 where
  pub visible : Bool
  pub source_data : List (Item Num)
  pub xs : List String
  pub ys : List (Option Num)

pub data SeriesType : Type 0 where
  pie line area heatmap other_type : SeriesType

pub record Options : Type 0 where
  pub global_series_type : SeriesType
  pub percent_values : Bool
  pub stacking : Bool
  pub missing_values_as_zero : Bool
  pub sort_x : Bool
  -- `xAxis.type === "category"` and no box plot
  pub category_axis : Bool

abbrev pub is_none {ℓ} : {A : Type ℓ} → Option A → Bool
is_none none = true
is_none (some a) = false

module _ {Num : Type 0} (numbers : Numbers Num) where
  abbrev pub or_zero : Option Num → Num
  or_zero none = numbers.zero
  or_zero (some n) = n

  abbrev pub total_at : String → List (String × Num) → Num
  total_at x [] = numbers.zero
  total_at x ((k, n) ∷ ns) = if str_eq x k then n else total_at x ns

  abbrev pub set_total : String → Num → List (String × Num) → List (String × Num)
  set_total x n [] = (x, n) ∷ []
  set_total x n ((k, m) ∷ ns) = if str_eq x k then (k, n) ∷ ns else (k, m) ∷ set_total x n ns

  -- `sumOfCorrespondingPoints`
  unfoldable pub sum_points : List (Item Num) → List (String × Num) → List (String × Num)
  sum_points [] sums = sums
  sum_points (i ∷ is) sums =
      sum_points is
        (set_total i.x (numbers.add (total_at i.x sums) (numbers.abs (or_zero i.y))) sums)

  unfoldable pub sum_series : List (Series Num) → List (String × Num) → List (String × Num)
  unfolding sum_points
  sum_series [] sums = sums
  sum_series (s ∷ ss) sums = sum_series ss (sum_points s.source_data sums)

  module _ (options : Options) where
    abbrev pub with_percent : (sums : List (String × Num)) → Item Num → Item Num
    with_percent sums i = record i {
      y_percent =
          if is_none i.y && not options.missing_values_as_zero
          then none
          else some (numbers.percent (or_zero i.y) (total_at i.x sums));
    }

    abbrev pub percent_series : (sums : List (String × Num)) → Series Num → Series Num
    percent_series sums s =
        let items = map (with_percent sums) s.source_data in
        record s { source_data = items; ys = map (λ i. i.y_percent) items }

    unfoldable pub update_percent_values : List (Series Num) → List (Series Num)
    unfolding sum_series
    update_percent_values ss =
        if options.percent_values then map (percent_series (sum_series ss [])) ss else ss

    -- The set of the x values, in the order in which they come.
    abbrev pub add_values : List (Item Num) → List String → List String
    add_values [] xs = xs
    add_values (i ∷ is) xs = add_values is (if member i.x xs then xs else xs ++ (i.x ∷ []))

    abbrev pub all_values : List (Series Num) → List String → List String
    all_values [] xs = xs
    all_values (s ∷ ss) xs = all_values ss (add_values s.source_data xs)

    -- `sort` is lodash's `sortBy` by the value itself.
    unfoldable pub unified_x_axis_values :
        (sort : List String → List String) → List (Series Num) → List String
    unified_x_axis_values sort ss =
        let xs = all_values ss [] in if options.sort_x then sort xs else xs

    abbrev pub item_at : String → List (Item Num) → Option (Item Num)
    item_at x [] = none
    item_at x (i ∷ is) = if str_eq x i.x then some i else item_at x is

    abbrev pub y_or_default : Option (Item Num) → Option Num
    y_or_default none = if options.missing_values_as_zero then some numbers.zero else none
    y_or_default (some i) = if options.percent_values then i.y_percent else i.y

    unfoldable pub update_unified_x_axis_values :
        (sort : List String → List String) → List (Series Num) → List (Series Num)
    unfolding unified_x_axis_values
    update_unified_x_axis_values sort ss =
        let xs = unified_x_axis_values sort ss in
        map
          (λ (s : Series Num). record s {
            xs = xs;
            ys = map (λ x. y_or_default (item_at x s.source_data)) xs;
          })
          ss

    -- A value over the total so far, and the total with it.
    abbrev pub stacked : Num → Option Num → Option Num
    stacked total y =
        if is_none y && not options.missing_values_as_zero
        then none
        else some (numbers.add (or_zero y) total)

    abbrev pub next_total : Num → Option Num → Num
    next_total total y =
        if is_none y && not options.missing_values_as_zero
        then total
        else numbers.add (or_zero y) total

    -- One series over the `cumulativeValues`; a value that is missing leaves them as they are.
    unfoldable pub stack_values :
        List String
        → List (Option Num)
        → List (String × Num)
        → List (Option Num) × List (String × Num)
    stack_values xs [] totals = ([], totals)
    stack_values [] (y ∷ ys) totals = ([], totals)
    stack_values (x ∷ xs) (y ∷ ys) totals =
        let total = total_at x totals in
        let rest = stack_values xs ys (
          if is_none y && not options.missing_values_as_zero
          then totals
          else set_total x (next_total total y) totals) in
        (stacked total y ∷ rest.0, rest.1)

    unfoldable pub stack_series : List (Series Num) → List (String × Num) → List (Series Num)
    unfolding stack_values
    stack_series [] totals = []
    stack_series (s ∷ ss) totals =
        let own = stack_values s.xs s.ys totals in record s { ys = own.0 } ∷ stack_series ss own.1

    abbrev pub with_unified_axis :
        (sort : List String → List String) → List (Series Num) → List (Series Num)
    with_unified_axis sort ss =
        if options.sort_x && options.category_axis then update_unified_x_axis_values sort ss else ss

    -- On the visible series.
    unfoldable pub update_visible :
        (sort : List String → List String) → List (Series Num) → List (Series Num)
    unfolding update_percent_values update_unified_x_axis_values stack_series
    update_visible sort ss =
        let percents = update_percent_values ss in
        let unified = with_unified_axis sort percents in
        let stacked_lines = stack_series (update_unified_x_axis_values sort percents) [] in
        let lines = if options.stacking then stacked_lines else unified in
        elim options.global_series_type [
          | pie ↦ ss
          | line ↦ lines
          | area ↦ lines
          | heatmap ↦ ss
          | other_type ↦ if options.stacking then percents else unified
        ]
