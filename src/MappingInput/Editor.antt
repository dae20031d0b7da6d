-- ===== src/MappingInput/Editor.antt =====
-- ParameterMappingInput.jsx: `updateSourceType` and `updateParamMapping` of the input, the state of the
-- editor around it, and `updateParamMapping` of the list. `none` is an exception.
use mathlib.Core.Option
use mxzz_bi.Prelude.{
  String, Bool, true, false, ◌&&◌, not, Option, none, some, List, [], ◌∷◌, str_eq, if◌then◌else◌,
}
use mxzz_bi.Parameters.Normalize.{Value, null, Env, member}
use mxzz_bi.MappingInput.Editable.{
  MappingType, dashboard_add_new, static_value, EditableMapping, clone_with,
}
use mxzz_bi.MappingInput.Titles.{to_existing}

-- The fields that `update` has.
pub record Update (Num Moment : Type 0) : Type 0 where
  pub type : Option MappingType
  pub map_to : Option String
  pub value : Option (Value Num Moment)

pub data InputError : Type 0 where
  no_keyword keyword_exists : InputError

pub record Editor (Num Moment : Type 0) : Type 0 where
  -- `props.mapping`
  pub given : EditableMapping Num Moment
  pub visible : Bool
  pub mapping : EditableMapping Num Moment
  pub input_error : Option InputError
  -- what `props.onChange` was called with
  pub saved : List (EditableMapping Num Moment)

-- What the user does, and new props.
pub data Action (Num Moment : Type 0) : Type 0 where
  change : EditableMapping Num Moment → Action Num Moment
  pop_up close ok : Action Num Moment
  receive : EditableMapping Num Moment → Action Num Moment

abbrev pub to_new : MappingType → Bool
to_new dashboard_add_new = true
to_new _ = false

abbrev pub is_some {ℓ} : {A : Type ℓ} → Option A → Bool
is_some none = false
is_some (some a) = true

module _ {Num Moment : Type 0} where
  -- `extend({}, mapping, update)`
  abbrev pub extended : Update Num Moment → EditableMapping Num Moment → EditableMapping Num Moment
  extended u m = record m {
    type = Option.get_or u.type m.type;
    map_to = Option.get_or u.map_to m.map_to;
    value = Option.get_or u.value m.value;
  }

  module _ (env : Env Num Moment) (identical : Value Num Moment → Value Num Moment → Bool) where
    -- `identical` is `===`.
    unfoldable pub with_value :
        (old new : EditableMapping Num Moment) → Option (EditableMapping Num Moment)
    with_value old new =
        if identical new.value old.value
        then some new
        else Option.map (λ p. record new { param = some (clone_with env new.value p) }) new.param

    unfoldable pub with_type :
        Option MappingType → EditableMapping Num Moment → Option (EditableMapping Num Moment)
    with_type none m = some m
    with_type (some static_value) m = Option.map (λ p. record m { value = p.value }) m.param
    with_type (some _) m = some (record m { value = null })

    abbrev pub and_then :
        Option (EditableMapping Num Moment)
        → (EditableMapping Num Moment → Option (EditableMapping Num Moment))
        → Option (EditableMapping Num Moment)
    and_then none f = none
    and_then (some m) f = f m

    unfoldable pub update_param_mapping :
        Update Num Moment → EditableMapping Num Moment → Option (EditableMapping Num Moment)
    unfolding with_value with_type
    update_param_mapping u m = and_then (with_value m (extended u m)) (with_type u.type)

    abbrev pub first_or : String → List String → String
    first_or s [] = s
    first_or s (n ∷ ns) = n

    -- With no existing name that type cannot be chosen.
    unfoldable pub update_source_type :
        (existing_param_names : List String)
        → MappingType
        → EditableMapping Num Moment
        → Option (EditableMapping Num Moment)
    unfolding update_param_mapping
    update_source_type existing t m =
        let map_to =
          if to_existing t && not (member m.map_to existing)
          then first_or m.map_to existing
          else m.map_to in
        update_param_mapping (record { type = some t; map_to = some map_to; value = none }) m

  module _ (existing_param_names : List String) where
    unfoldable pub error_of : EditableMapping Num Moment → Option InputError
    error_of m =
        if to_new m.type
        then if str_eq m.map_to ""
          then some no_keyword
          else if member m.map_to existing_param_names
          then some keyword_exists
          else none
        else none

    abbrev pub on_change : EditableMapping Num Moment → Editor Num Moment → Editor Num Moment
    on_change m e = record e { mapping = m; input_error = error_of m }

    abbrev pub show : Editor Num Moment → Editor Num Moment
    show e = record e { visible = true; mapping = e.given }

    abbrev pub hide : Editor Num Moment → Editor Num Moment
    hide e = record e { visible = false }

    abbrev pub save : Editor Num Moment → Editor Num Moment
    save e = hide (record e { saved = e.mapping ∷ e.saved })

    -- The button that saves is disabled while there is an error.
    unfoldable pub act : Action Num Moment → Editor Num Moment → Editor Num Moment
    unfolding error_of
    act (change m) e = on_change m e
    act pop_up e = show e
    act close e = hide e
    act ok e = if is_some e.input_error then e else save e
    act (receive m) e = record e { given = m }

    unfoldable pub acts : List (Action Num Moment) → Editor Num Moment → Editor Num Moment
    unfolding act
    acts [] e = e
    acts (a ∷ xs) e = acts xs (act a e)

  unfoldable pub new : EditableMapping Num Moment → Editor Num Moment
  new m = record { given = m; visible = false; mapping = m; input_error = none; saved = [] }

  -- The list's `updateParamMapping`; `is_old` is the match of `findIndex`.
  unfoldable pub replace_mapping :
      (is_old : EditableMapping Num Moment → Bool)
      → (new_mapping : EditableMapping Num Moment) → List (EditableMapping Num Moment)
      → List (EditableMapping Num Moment)
  replace_mapping is_old n [] = n ∷ []
  replace_mapping is_old n (m ∷ ms) = if is_old m then n ∷ ms else m ∷ replace_mapping is_old n ms
