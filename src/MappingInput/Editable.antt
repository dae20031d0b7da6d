-- ===== src/MappingInput/Editable.antt =====
-- ParameterMappingInput.jsx: `parameterMappingsToEditableMappings` and
-- `editableMappingsToParameterMappings`. `none` is an exception: a static value of a parameter that
-- the query does not have.
use mathlib.Core.Option
use mxzz_bi.Prelude.{String, Option, none, some, List, [], ◌∷◌, map, find, str_eq, if◌then◌else◌}
use mxzz_bi.Parameters.Normalize.{Value, null, Env, member}
use mxzz_bi.Parameters.Object.{Parameter, assign}
use mxzz_bi.Widget.Mappings.{
  dashboard_level as to_dashboard, widget_level as to_widget, static_value as to_static, Mapping,
  Mappings,
}

pub data MappingType : Type 0 where
  dashboard_add_new dashboard_map_to_existing widget_level static_value : MappingType

pub record EditableMapping (Num Moment : Type 0) : Type 0 where
  pub name : String
  pub type : MappingType
  pub map_to : String
  pub value : Value Num Moment
  pub title : String
  -- `none` is undefined
  pub param : Option (Parameter Num Moment)

abbrev pub all_some {ℓ} : {A : Type ℓ} → List (Option A) → Option (List A)
all_some [] = some []
all_some (none ∷ os) = none
all_some (some a ∷ os) = Option.map (a ∷◌) (all_some os)

module _ {Num Moment : Type 0} where
  -- `fromPairs`: a key that is there keeps its place and takes the new value.
  abbrev pub put : String → Mapping Num Moment → Mappings Num Moment → Mappings Num Moment
  put key m [] = (key, m) ∷ []
  put key m ((k, n) ∷ ms) = if str_eq key k then (k, m) ∷ ms else (k, n) ∷ put key m ms

  unfoldable pub from_pairs :
      List (String × Mapping Num Moment) → Mappings Num Moment → Mappings Num Moment
  from_pairs [] ms = ms
  from_pairs ((k, m) ∷ es) ms = from_pairs es (put k m ms)

  -- `find(parameters, p => p.name === mapping.name)`
  abbrev pub param_named : String → List (Parameter Num Moment) → Option (Parameter Num Moment)
  param_named name ps = find (λ p. str_eq p.name name) ps

  module _ (env : Env Num Moment) where
    -- `cloneParameter(param)`, whose fields are read off the parameter again.
    abbrev pub clone_parameter : Parameter Num Moment → Parameter Num Moment
    clone_parameter p = assign env p.value (record p { url_prefix = "p_" })

    abbrev pub clone_with : Value Num Moment → Parameter Num Moment → Parameter Num Moment
    clone_with v p = assign env v (clone_parameter p)

    unfoldable pub editable :
        List (Parameter Num Moment)
        → (existing_parameter_names : List String) → Mapping Num Moment
        → Option (EditableMapping Num Moment)
    editable ps existing m =
        let param = param_named m.name ps in
        let result : EditableMapping Num Moment = record {
          name = m.name;
          type = widget_level;
          map_to = m.map_to;
          value = null;
          title = m.title;
          param = param;
        } in
        elim m.type [
          | to_dashboard ↦ some (record result {
            type =
                if member m.map_to existing then dashboard_map_to_existing else dashboard_add_new;
          })
          | to_static ↦
              Option.map
                (λ p. record result {
                  type = static_value;
                  value = m.value;
                  param = some (clone_with m.value p);
                })
                param
          | to_widget ↦ some result
        ]

    unfoldable pub parameter_mappings_to_editable_mappings :
        Mappings Num Moment
        → List (Parameter Num Moment)
        → (existing_parameter_names : List String) → Option (List (EditableMapping Num Moment))
    unfolding editable
    parameter_mappings_to_editable_mappings ms ps existing =
        all_some (map (λ e. editable ps existing e.1) ms)

    unfoldable pub plain_mapping : EditableMapping Num Moment → Option (String × Mapping Num Moment)
    plain_mapping e =
        let result : Mapping Num Moment = record {
          name = e.name;
          type = to_dashboard;
          map_to = e.map_to;
          value = null;
          title = e.title;
        } in
        elim e.type [
          | static_value ↦
              Option.map
                (λ p. (
                  e.name,
                  record result { type = to_static; value = (clone_with e.value p).value },
                ))
                e.param
          | widget_level ↦ some (e.name, record result { type = to_widget })
          | _ ↦ some (e.name, result)
        ]

    unfoldable pub editable_mappings_to_parameter_mappings :
        List (EditableMapping Num Moment) → Option (Mappings Num Moment)
    unfolding plain_mapping from_pairs
    editable_mappings_to_parameter_mappings es =
        Option.map (λ ps. from_pairs ps []) (all_some (map plain_mapping es))
