-- ===== src/Parameters/Normalize.antt =====
-- `normalizeValue` of Parameter.js, TextParameter.js, NumberParameter.js, EnumParameter.js,
-- QueryBasedDropdownParameter.js, DateParameter.js and DateRangeParameter.js, and what their
-- `setValue` stores. A class is a kind; lodash's conversions and moments are parameters.
use Prim.Native.Char.{code}
use Prim.Native.String
use mxzz_bi.Prelude.{
  String, Bool, true, false, not, ◌&&◌, Option, none, some, List, [], ◌∷◌, ◌==◌, str_eq,
  if◌then◌else◌, any,
}

-- What an array holds: texts and numbers.
pub data Item (Num : Type 0) : Type 0 where
  str : String → Item Num
  nr : Num → Item Num

pub data Value (Num Moment : Type 0) : Type 0 where
  undefined null : Value Num Moment
  num : Num → Value Num Moment
  text : String → Value Num Moment
  list : List (Item Num) → Value Num Moment
  -- an entry of `DYNAMIC_DATES` or `DYNAMIC_DATE_RANGES`, by its key
  dynamic : String → Value Num Moment
  moment : Moment → Value Num Moment
  -- an array of two moments, and an object `{ start, end }`
  moments : (start end : Moment) → Value Num Moment
  dates : (start end : String) → Value Num Moment
  -- a member that `DYNAMIC_DATE_RANGES` inherits from `Object.prototype`, by its name
  inherited : String → Value Num Moment

-- The values of both tables `DATETIME_FORMATS`: YYYY-MM-DD, alone, with HH:mm, and with HH:mm:ss.
pub data DateFormat : Type 0 where
  day_format minute_format second_format : DateFormat

-- What the classes use of lodash and of moment. Moments are valid and of the years 0 to 9999, which
-- the formats write in four digits; of `undefined`, moment makes the time of the call.
pub record Env (Num Moment : Type 0) : Type 0 where
  pub to_string : Value Num Moment → String
  -- `none` is NaN
  pub to_number : Value Num Moment → Option Num
  -- `moment(value)` if it is valid
  pub moment_of : Value Num Moment → Option Moment
  pub format : DateFormat → Moment → String

-- `multiValuesOptions`
pub record Multi : Type 0 where
  pub separator : Option String
  pub prefix : Option String
  pub suffix : Option String

-- The class, with its own fields; dates have the format of their type.
pub data Kind : Type 0 where
  plain text_kind number_kind : Kind
  enum_kind : (options : Option String) (multi : Option Multi) → Kind
  query_kind : (multi : Option Multi) → Kind
  date_kind : (format : DateFormat) (use_current : Bool) → Kind
  date_range_kind : (format : DateFormat) → Kind

abbrev pub member : String → List String → Bool
member s = any (str_eq s)

abbrev pub dynamic_dates : List String
dynamic_dates = "now" ∷ "yesterday" ∷ []

abbrev pub dynamic_date_ranges : List String
dynamic_date_ranges =
    "today" ∷ "yesterday" ∷ "this_week" ∷ "this_month" ∷ "this_year" ∷ "last_week" ∷ "last_month"
    ∷ "last_year" ∷ "last_7_days" ∷ "last_14_days" ∷ "last_30_days" ∷ "last_60_days"
    ∷ "last_90_days" ∷ []

-- What an object inherits, every one of which is truthy.
abbrev pub object_prototype : List String
object_prototype =
    "constructor" ∷ "__proto__" ∷ "hasOwnProperty" ∷ "isPrototypeOf" ∷ "propertyIsEnumerable"
    ∷ "toLocaleString" ∷ "toString" ∷ "valueOf" ∷ "__defineGetter__" ∷ "__defineSetter__"
    ∷ "__lookupGetter__" ∷ "__lookupSetter__" ∷ []

-- `getDynamicDateFromString`: the key behind the prefix "d_".
unfoldable pub dynamic_key : List String → String → Option String
dynamic_key keys String.[] = none
dynamic_key keys (String.◌∷◌ c String.[]) = none
dynamic_key keys (String.◌∷◌ c (String.◌∷◌ d s)) =
    if code c == b'd' && code d == b'_' && member s keys then some s else none

abbrev pub prefixed : String → String
prefixed k = String.◌∷◌ "d" (String.◌∷◌ "_" k)

-- `split("\n")`; the part begun is `cur`.
unfoldable pub split_lines : String → String → List String
split_lines cur String.[] = cur ∷ []
split_lines cur (String.◌∷◌ c s) = elim (code c == 10) [
  | true ↦ cur ∷ split_lines "" s
  | false ↦ split_lines (String.◌++◌ cur (String.◌∷◌ c "")) s
]

unfoldable pub options_of : String → List String
unfolding split_lines
options_of s = split_lines "" s

-- `intersection(xs, ys)`: what `xs` has of `ys`, each once, in the order of `xs`.
unfoldable pub intersection_from : List String → List String → List String → List String
intersection_from seen [] ys = []
intersection_from seen (x ∷ xs) ys =
    let hit = x ∷ intersection_from (x ∷ seen) xs ys in
    let miss = intersection_from seen xs ys in
    if member x ys && not (member x seen) then hit else miss

unfoldable pub intersection : List String → List String → List String
unfolding intersection_from
intersection = intersection_from []

unfoldable pub strings : {Num : Type 0} → List (Item Num) → List String
strings [] = []
strings (str s ∷ xs) = s ∷ strings xs
strings (nr n ∷ xs) = strings xs

unfoldable pub items : {Num : Type 0} → List String → List (Item Num)
items [] = []
items (s ∷ xs) = str s ∷ items xs

module _ {Num Moment : Type 0} where
  abbrev pub of_item : Item Num → Value Num Moment
  of_item (str s) = text s
  of_item (nr n) = num n

  -- `if (!isArray(value)) value = [value]`, of which `intersection` with strings keeps the strings.
  unfoldable pub as_list : Value Num Moment → List String
  unfolding strings
  as_list (list xs) = strings xs
  as_list (text s) = s ∷ []
  as_list _ = []

  unfoldable pub list_or_null : List String → Value Num Moment
  unfolding items
  list_or_null [] = null
  list_or_null (x ∷ xs) = list (str x ∷ items xs)

  abbrev pub first_of : List String → Value Num Moment
  first_of [] = undefined
  first_of (x ∷ xs) = text x

  -- `!value || isArray(value) || !includes(options, value)`
  unfoldable pub pick : List String → Value Num Moment → Value Num Moment
  pick options (text String.[]) = first_of options
  pick options (text (String.◌∷◌ c s)) =
      if member (String.◌∷◌ c s) options then text (String.◌∷◌ c s) else first_of options
  pick options _ = first_of options

  unfoldable pub normalize_enum : Option String → Option Multi → Value Num Moment → Value Num Moment
  normalize_enum none multi v = null
  normalize_enum (some String.[]) multi v = null
  normalize_enum (some (String.◌∷◌ c s)) none v = pick (options_of (String.◌∷◌ c s)) v
  normalize_enum (some (String.◌∷◌ c s)) (some m) v =
      list_or_null (intersection (as_list v) (options_of (String.◌∷◌ c s)))

  -- A drop-down's value is a text, a number or an array of these.
  unfoldable pub normalize_query : Option Multi → Value Num Moment → Value Num Moment
  normalize_query multi undefined = null
  normalize_query multi null = null
  normalize_query multi (list []) = null
  normalize_query none (list (x ∷ xs)) = of_item x
  normalize_query (some m) (list (x ∷ xs)) = list (x ∷ xs)
  normalize_query (some m) (text s) = list (str s ∷ [])
  normalize_query (some m) (num n) = list (nr n ∷ [])
  normalize_query multi v = v

  abbrev pub moment_or_null : Option Moment → Value Num Moment
  moment_or_null none = null
  moment_or_null (some m) = moment m

  abbrev pub dynamic_or : Option String → Value Num Moment → Value Num Moment
  dynamic_or none v = v
  dynamic_or (some k) v = dynamic k

  abbrev pub inherited_or : Option String → Value Num Moment → Value Num Moment
  inherited_or none v = v
  inherited_or (some k) v = inherited k

  abbrev pub moments_or_null : Option Moment → Option Moment → Value Num Moment
  moments_or_null (some a) (some b) = moments a b
  moments_or_null _ _ = null

  module _ (env : Env Num Moment) where
    open env use {to_string, to_number, moment_of, format}

    unfoldable pub normalize_date : Value Num Moment → Value Num Moment
    normalize_date (text s) =
        dynamic_or (dynamic_key dynamic_dates s) (moment_or_null (moment_of (text s)))
    normalize_date (dynamic k) =
        if member k dynamic_dates then dynamic k else moment_or_null (moment_of (dynamic k))
    normalize_date v = moment_or_null (moment_of v)

    -- `value.length === 2` and both valid
    unfoldable pub pair_of : List (Item Num) → Value Num Moment
    pair_of (a ∷ b ∷ []) = moments_or_null (moment_of (of_item a)) (moment_of (of_item b))
    pair_of _ = null

    -- An object with neither `start` nor `end`.
    abbrev pub no_ends : Value Num Moment
    no_ends = moments_or_null (moment_of undefined) (moment_of undefined)

    -- `!!DYNAMIC_DATE_RANGES[key]` finds what the table inherits as well.
    unfoldable pub normalize_range : Value Num Moment → Value Num Moment
    unfolding pair_of
    normalize_range (text s) =
        dynamic_or (dynamic_key dynamic_date_ranges s)
          (inherited_or (dynamic_key object_prototype s) null)
    normalize_range (dynamic k) = if member k dynamic_date_ranges then dynamic k else no_ends
    normalize_range (moment m) = no_ends
    normalize_range (inherited k) = no_ends
    normalize_range (dates a b) = pair_of (str a ∷ str b ∷ [])
    normalize_range (list xs) = pair_of xs
    normalize_range (moments a b) = moments_or_null (moment_of (moment a)) (moment_of (moment b))
    normalize_range _ = null

    abbrev pub text_or_null : String → Value Num Moment
    text_or_null String.[] = null
    text_or_null (String.◌∷◌ c s) = text (String.◌∷◌ c s)

    abbrev pub num_or_null : Option Num → Value Num Moment
    num_or_null none = null
    num_or_null (some n) = num n

    unfoldable pub normalize_number : Value Num Moment → Value Num Moment
    normalize_number null = null
    normalize_number v = num_or_null (to_number v)

    unfoldable pub normalize_plain : Value Num Moment → Value Num Moment
    normalize_plain undefined = null
    normalize_plain v = v

    -- `normalizeValue`
    unfoldable pub normalize : Kind → Value Num Moment → Value Num Moment
    unfolding normalize_number normalize_plain
    normalize plain v = normalize_plain v
    normalize text_kind v = text_or_null (to_string v)
    normalize number_kind v = normalize_number v
    normalize (enum_kind options multi) v = normalize_enum options multi v
    normalize (query_kind multi) v = normalize_query multi v
    normalize (date_kind f now) v = normalize_date v
    normalize (date_range_kind f) v = normalize_range v

    unfoldable pub stored_date : DateFormat → Value Num Moment → Value Num Moment
    stored_date f (dynamic k) = text (prefixed k)
    stored_date f (moment m) = text (format f m)
    stored_date f v = v

    unfoldable pub stored_range : DateFormat → Value Num Moment → Value Num Moment
    stored_range f (dynamic k) = text (prefixed k)
    stored_range f (moments a b) = dates (format f a) (format f b)
    stored_range f v = v

    -- What `setValue` makes `this.value` of the normalized value.
    unfoldable pub stored : Kind → Value Num Moment → Value Num Moment
    unfolding stored_date stored_range
    stored (date_kind f now) v = stored_date f v
    stored (date_range_kind f) v = stored_range f v
    stored _ v = v
