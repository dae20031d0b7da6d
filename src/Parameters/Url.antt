-- ===== src/Parameters/Url.antt =====
-- `toUrlParams` and `fromUrlParams` of Parameter.js, EnumParameter.js,
-- QueryBasedDropdownParameter.js and DateRangeParameter.js. JSON and `split` are parameters.
use Prim.Native.String
use mxzz_bi.Prelude.{
  String, Bool, true, false, Option, none, some, List, [], ◌∷◌, str_eq, ◌&&◌, if◌then◌else◌,
}
use mxzz_bi.Parameters.Normalize.{
  Item, str, Value, null, text, list, dates, Env, Multi, Kind, enum_kind, query_kind,
  date_range_kind,
}
use mxzz_bi.Parameters.Object.{Parameter, Node, node, set_value}

pub record Json (Num : Type 0) : Type 0 where
  pub stringify : List (Item Num) → String
  -- `none` if it throws or gives no array
  pub parse : String → Option (List (Item Num))
  -- `split("--")`
  pub split_range : String → List String

-- `location.search`: what stands at the first key that is the same.
abbrev pub lookup : String → List (String × String) → Option String
lookup key [] = none
lookup key ((k, v) ∷ q) = if str_eq key k then some v else lookup key q

abbrev pub url_key : {Num Moment : Type 0} → Parameter Num Moment → String
url_key p = String.◌++◌ p.url_prefix p.name

module _ {Num Moment : Type 0} (env : Env Num Moment) (json : Json Num) where
  open json use {stringify, parse, split_range}

  -- `!this.isEmpty ? value : null`
  abbrev pub unless_null : (normalized value : Value Num Moment) → Value Num Moment
  unless_null null value = null
  unless_null _ value = value

  unfoldable pub choice_param : Option Multi → Value Num Moment → Value Num Moment
  choice_param (some m) (list xs) = text (stringify xs)
  choice_param m v = v

  abbrev pub truthy_text : String → Bool
  truthy_text String.[] = false
  truthy_text (String.◌∷◌ c s) = true

  unfoldable pub range_param : (normalized value : Value Num Moment) → Value Num Moment
  range_param normalized (dates a b) =
      if truthy_text a && truthy_text b
      then text (String.◌++◌ a (String.◌++◌ "--" b))
      else unless_null normalized (dates a b)
  range_param normalized v = unless_null normalized v

  -- By the class; `null` removes the parameter from the URL.
  unfoldable pub url_param : Kind → (normalized value : Value Num Moment) → Value Num Moment
  unfolding choice_param range_param
  url_param (enum_kind o m) normalized v = unless_null normalized (choice_param m v)
  url_param (query_kind m) normalized v = unless_null normalized (choice_param m v)
  url_param (date_range_kind f) normalized v = range_param normalized v
  url_param _ normalized v = unless_null normalized v

  unfoldable pub to_url_params : Parameter Num Moment → String × Value Num Moment
  unfolding url_param
  to_url_params p = (url_key p, url_param p.kind p.normalized_value p.value)

  unfoldable pub choice_from : Option Multi → String → Value Num Moment
  choice_from none s = text s
  choice_from (some m) s = elim (parse s) [ none ↦ text s | some xs ↦ list xs ]

  -- A split in two is set as an array, any other text as it is.
  abbrev pub range_split : String → List String → Value Num Moment
  range_split s (a ∷ b ∷ []) = list (str a ∷ str b ∷ [])
  range_split s _ = text s

  abbrev pub range_ends : Option String → Option String → Option (Value Num Moment)
  range_ends (some a) (some b) = some (list (str a ∷ str b ∷ []))
  range_ends _ _ = none

  -- The value to set by what stands at the key and at the keys of the ends, `none` for nothing.
  unfoldable pub url_value : Kind → (at at_start at_end : Option String) → Option (Value Num Moment)
  unfolding choice_from
  url_value (enum_kind o m) (some s) _ _ = some (choice_from m s)
  url_value (query_kind m) (some s) _ _ = some (choice_from m s)
  url_value (date_range_kind f) (some s) _ _ = some (range_split s (split_range s))
  url_value (date_range_kind f) none a b = range_ends a b
  url_value _ (some s) _ _ = some (text s)
  url_value _ none _ _ = none

  abbrev pub set_some : Option (Value Num Moment) → Node Num Moment → Node Num Moment
  set_some none n = n
  set_some (some v) n = set_value env v n

  unfoldable pub from_url_params : List (String × String) → Node Num Moment → Node Num Moment
  unfolding url_value
  from_url_params q (node p ls) =
      let key = url_key p in
      set_some
        (url_value p.kind (lookup key q) (lookup (String.◌++◌ key ".start") q)
          (lookup (String.◌++◌ key ".end") q))
        (node p ls)
