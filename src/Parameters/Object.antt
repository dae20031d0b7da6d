-- ===== src/Parameters/Object.antt =====
-- Parameter.js and index.js: the object with its pending value and its locals, and its making from
-- a definition. `Node` is a parameter with its locals below it, each an object of its own.
use mxzz_bi.Prelude.{String, Bool, true, false, ◌||◌, Option, str_eq, if◌then◌else◌}
use mxzz_bi.Parameters.Normalize.{
  DateFormat, day_format, minute_format, second_format, Value, undefined, null, Env, Multi, Kind,
  text_kind, number_kind, enum_kind, query_kind, date_kind, date_range_kind, normalize, stored,
}

-- What the server saves of a parameter.
pub record Definition (Num Moment : Type 0) : Type 0 where
  pub name : String
  pub title : String
  pub type : String
  pub value : Value Num Moment
  pub global : Bool
  pub enum_options : Option String
  pub multi_values_options : Option Multi
  pub use_current_date_time : Bool

pub record Parameter (Num Moment : Type 0) : Type 0 where
  pub name : String
  pub title : String
  pub global : Bool
  pub kind : Kind
  pub value : Value Num Moment
  -- `$$value`
  pub normalized_value : Value Num Moment
  -- `undefined` if nothing is pending
  pub pending_value : Value Num Moment
  pub url_prefix : String

-- `DATETIME_FORMATS[type]`
unfoldable pub date_format : String → DateFormat
date_format type =
    if str_eq type "date"
    then day_format
    else if str_eq type "datetime-local"
    then minute_format
    else second_format

unfoldable pub date_range_format : String → DateFormat
date_range_format type =
    if str_eq type "date-range"
    then day_format
    else if str_eq type "datetime-range"
    then minute_format
    else second_format

mutual
  pub data Node (Num Moment : Type 0) : Type 0 where
    node : Parameter Num Moment → Locals Num Moment → Node Num Moment

  pub data Locals (Num Moment : Type 0) : Type 0 where
    no_locals : Locals Num Moment
    with_local : Node Num Moment → Locals Num Moment → Locals Num Moment

module _ {Num Moment : Type 0} where
  abbrev pub is_undefined : Value Num Moment → Bool
  is_undefined undefined = true
  is_undefined _ = false

  abbrev pub is_null : Value Num Moment → Bool
  is_null null = true
  is_null _ = false

  -- `switch (param.type)`
  unfoldable pub kind_of : Definition Num Moment → Kind
  unfolding date_format date_range_format
  kind_of d =
      if str_eq d.type "number"
      then number_kind
      else if str_eq d.type "enum"
      then enum_kind d.enum_options d.multi_values_options
      else if str_eq d.type "query"
      then query_kind d.multi_values_options
      else if str_eq d.type "date"
          || str_eq d.type "datetime-local"
          || str_eq d.type "datetime-with-seconds"
      then date_kind (date_format d.type) d.use_current_date_time
      else if str_eq d.type "date-range"
          || str_eq d.type "datetime-range"
          || str_eq d.type "datetime-range-with-seconds"
      then date_range_kind (date_range_format d.type)
      else text_kind

  abbrev pub root : Node Num Moment → Parameter Num Moment
  root (node p ls) = p

  abbrev pub is_empty : Parameter Num Moment → Bool
  is_empty p = is_null p.normalized_value

  module _ (env : Env Num Moment) where
    -- `setValue` without `updateLocals`
    abbrev pub assign : Value Num Moment → Parameter Num Moment → Parameter Num Moment
    assign v p = record p {
      value = stored env p.kind (normalize env p.kind v);
      normalized_value = normalize env p.kind v;
      pending_value = undefined;
    }

    unfoldable mutual
      pub set_value : Value Num Moment → Node Num Moment → Node Num Moment
      set_value v (node p ls) = node (assign v p) (update_locals (assign v p).value ls)

      pub update_locals : Value Num Moment → Locals Num Moment → Locals Num Moment
      update_locals v no_locals = no_locals
      update_locals v (with_local n ls) = with_local (set_value v n) (update_locals v ls)

    unfoldable pub create_parameter : Definition Num Moment → Parameter Num Moment
    create_parameter d = assign d.value (record {
      name = d.name;
      title = d.title;
      global = d.global;
      kind = kind_of d;
      value = undefined;
      normalized_value = undefined;
      pending_value = undefined;
      url_prefix = "p_";
    })
