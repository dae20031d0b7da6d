-- ===== src/Parameters/Values.antt =====
-- `getExecutionValue` of Parameter.js, EnumParameter.js, QueryBasedDropdownParameter.js,
-- DateParameter.js and DateRangeParameter.js, with the dynamic dates they read off the clock.
use Prim.Native.String
use mxzz_bi.Prelude.{
  ℕ, String, Bool, true, Option, none, some, List, [], ◌∷◌, map, str_eq, if◌then◌else◌,
}
use mxzz_bi.Parameters.Normalize.{
  Item, str, nr, Value, null, text, list, dynamic, dates, Env, DateFormat, Multi, enum_kind,
  query_kind, date_kind, date_range_kind,
}
use mxzz_bi.Parameters.Object.{Parameter}

-- What the code uses of moment's calendar.
pub record Calendar (Moment : Type 0) : Type 0 where
  pub subtract : ℕ → String → Moment → Moment
  pub start_of : String → Moment → Moment
  pub end_of : String → Moment → Moment

-- `extra`
pub record Extra : Type 0 where
  pub join_list_values : Bool

-- `get(multiValuesOptions, key, default)`
abbrev pub or_else : Option String → String → String
or_else none d = d
or_else (some s) d = s

abbrev pub separator_of : Option Multi → String
separator_of none = ","
separator_of (some m) = or_else m.separator ","

abbrev pub prefix_of : Option Multi → String
prefix_of none = ""
prefix_of (some m) = or_else m.prefix ""

abbrev pub suffix_of : Option Multi → String
suffix_of none = ""
suffix_of (some m) = or_else m.suffix ""

-- `join`
unfoldable pub join : String → List String → String
join sep [] = ""
join sep (x ∷ []) = x
join sep (x ∷ y ∷ xs) = String.◌++◌ x (String.◌++◌ sep (join sep (y ∷ xs)))

module _ {Moment : Type 0} (cal : Calendar Moment) where
  open cal use {subtract, start_of, end_of}

  -- `DYNAMIC_DATES[key].value()` at a time
  unfoldable pub dynamic_date : String → Moment → Moment
  dynamic_date key now = if str_eq key "now" then now else subtract 1 "day" now

  abbrev pub whole : String → Moment → Moment → Moment × Moment
  whole unit a b = (start_of unit a, end_of unit b)

  -- `DYNAMIC_DATE_RANGES[key].value()`; the clock is read for the start, then for the end.
  unfoldable pub dynamic_date_range : String → Moment → Moment → Moment × Moment
  dynamic_date_range key a b =
      if str_eq key "today"
      then whole "day" a b
      else if str_eq key "yesterday"
      then whole "day" (subtract 1 "day" a) (subtract 1 "day" b)
      else if str_eq key "this_week"
      then whole "week" a b
      else if str_eq key "this_month"
      then whole "month" a b
      else if str_eq key "this_year"
      then whole "year" a b
      else if str_eq key "last_week"
      then whole "week" (subtract 1 "week" a) (subtract 1 "week" b)
      else if str_eq key "last_month"
      then whole "month" (subtract 1 "month" a) (subtract 1 "month" b)
      else if str_eq key "last_year"
      then whole "year" (subtract 1 "year" a) (subtract 1 "year" b)
      else if str_eq key "last_7_days"
      then (subtract 7 "days" a, b)
      else if str_eq key "last_14_days"
      then (subtract 14 "days" a, b)
      else if str_eq key "last_30_days"
      then (subtract 30 "days" a, b)
      else if str_eq key "last_60_days"
      then (subtract 60 "days" a, b)
      else (subtract 90 "days" a, b)

module _ {Num Moment : Type 0} (env : Env Num Moment) (cal : Calendar Moment) where
  open env use {to_string, format}

  -- `${prefix}${v}${suffix}`
  abbrev pub quote : Option Multi → Item Num → String
  quote m (str s) = String.◌++◌ (prefix_of m) (String.◌++◌ s (suffix_of m))
  quote m (nr n) = String.◌++◌ (prefix_of m) (String.◌++◌ (to_string (Value.num n)) (suffix_of m))

  unfoldable pub choice_value : Option Multi → Extra → Value Num Moment → Value Num Moment
  unfolding join
  choice_value m extra (list xs) =
      if extra.join_list_values then text (join (separator_of m) (map (quote m) xs)) else list xs
  choice_value m extra v = v

  unfoldable pub date_value :
      DateFormat → Bool → Moment → (normalized value : Value Num Moment) → Value Num Moment
  unfolding dynamic_date
  date_value f use_current now (dynamic k) value = text (format f (dynamic_date cal k now))
  date_value f true now _ null = text (format f now)
  date_value f use_current now _ value = value

  unfoldable pub range_value :
      DateFormat → (a b : Moment) → (normalized value : Value Num Moment) → Value Num Moment
  unfolding dynamic_date_range
  range_value f a b (dynamic k) value =
      let r = dynamic_date_range cal k a b in dates (format f r.0) (format f r.1)
  range_value f a b _ value = value

  -- The clock is read at `a` and, for a range, at `b`.
  unfoldable pub get_execution_value :
      Extra → (a b : Moment) → Parameter Num Moment → Value Num Moment
  get_execution_value extra a b p = elim p.kind [
    | enum_kind o m ↦ choice_value m extra p.value
    | query_kind m ↦ choice_value m extra p.value
    | date_kind f now ↦ date_value f now a p.normalized_value p.value
    | date_range_kind f ↦ range_value f a b p.normalized_value p.value
    | _ ↦ p.value
  ]
