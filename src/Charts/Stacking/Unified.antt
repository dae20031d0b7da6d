-- ===== src/Charts/Stacking/Unified.antt =====
-- updateData.js: stacked lines over their common x axis.
use mxzz_bi.Prelude.{String, Option, none, some, if◌then◌else◌, List, [], ◌∷◌, map, str_eq}
use mxzz_bi.Charts.Stacking.{Numbers, Item, Series, Options, y_or_default, item_at}

module _ {Num : Type 0} (numbers : Numbers Num) (options : Options) where
  -- An empty pile for each x.
  abbrev pub empty_piles : List String → List (List Num)
  empty_piles xs = map (λ x. []) xs

  -- The value that a series has at an x: that of its item there, or what a missing one counts as.
  abbrev pub own_value : String → List (Item Num) → Option Num
  own_value x [] = if options.missing_values_as_zero then some numbers.zero else none
  own_value x (i ∷ is) =
      if str_eq x i.x then if options.percent_values then i.y_percent else i.y else own_value x is

  abbrev pub own_values : List String → Series Num → List (Option Num)
  own_values xs s = map (λ x. own_value x s.source_data) xs

  abbrev unified : (xs : List String) → List (Series Num) → List (Series Num)
  unified xs ss =
      map
        (λ (s : Series Num). record s {
          xs = xs;
          ys = map (λ x. y_or_default numbers options (item_at numbers options x s.source_data)) xs;
        })
        ss
