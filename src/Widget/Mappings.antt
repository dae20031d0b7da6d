-- ===== src/Widget/Mappings.antt =====
-- widget.js: `getParameterMappings`, `getParametersDefs`, `isStaticParam` and `getLocalParameters`.
use Prim.Native.String
use mxzz_bi.Prelude.{
  String, Bool, true, false, not, Option, none, some, List, [], ◌∷◌, ◌++◌, map, filter, str_eq,
  if◌then◌else◌,
}
use mxzz_bi.Parameters.Normalize.{Value, null, Env, member}
use mxzz_bi.Parameters.Object.{
  Parameter, Node, node, no_locals, with_local, root, assign, set_value,
}
use mxzz_bi.Parameters.Url.{Json, from_url_params}

-- `ParameterMappingType`
pub data MappingType : Type 0 where
  dashboard_level widget_level static_value : MappingType

pub record Mapping (Num Moment : Type 0) : Type 0 where
  pub name : String
  pub type : MappingType
  pub map_to : String
  pub value : Value Num Moment
  pub title : String

-- `options.parameterMappings`, where every key has an object.
abbrev pub Mappings : (Num Moment : Type 0) → Type 0
Mappings Num Moment = List (String × Mapping Num Moment)

-- `mapping.title || param.title`
abbrev pub title_or : String → String → String
title_or String.[] t = t
title_or (String.◌∷◌ c s) t = String.◌∷◌ c s

module _ {Num Moment : Type 0} where
  abbrev pub mapping_at : String → Mappings Num Moment → Option (Mapping Num Moment)
  mapping_at key [] = none
  mapping_at key ((k, m) ∷ ms) = if str_eq key k then some m else mapping_at key ms

  unfoldable pub default_mapping : Parameter Num Moment → Mapping Num Moment
  default_mapping p = record {
    name = p.name;
    type = if p.global then dashboard_level else widget_level;
    map_to = p.name;
    value = null;
    title = "";
  }

  unfoldable pub add_mappings :
      List (Parameter Num Moment) → Mappings Num Moment → Mappings Num Moment
  add_mappings [] ms = ms
  add_mappings (p ∷ ps) ms = add_mappings ps (elim (mapping_at p.name ms) [
    | some m ↦ ms
    | none ↦ ms ++ ((p.name, default_mapping p) ∷ [])
  ])

  abbrev pub param_names : List (Parameter Num Moment) → List String
  param_names ps = map (λ p. p.name) ps

  -- `difference` of the keys, deleted
  unfoldable pub remove_mappings : List String → Mappings Num Moment → Mappings Num Moment
  remove_mappings existing ms = filter (λ e. member e.0 existing) ms

  -- Of the query's parameters, none for a text box.
  unfoldable pub get_parameter_mappings :
      List (Parameter Num Moment) → Mappings Num Moment → Mappings Num Moment
  unfolding add_mappings remove_mappings
  get_parameter_mappings ps ms = remove_mappings (param_names ps) (add_mappings ps ms)

  abbrev pub is_static : Option (Mapping Num Moment) → Bool
  is_static none = false
  is_static (some m) = elim m.type [ static_value ↦ true | _ ↦ false ]

  -- `localTypes.indexOf(type) >= 0`
  abbrev pub is_local : Option (Mapping Num Moment) → Bool
  is_local none = false
  is_local (some m) = elim m.type [ dashboard_level ↦ false | _ ↦ true ]

  module _ (env : Env Num Moment) (json : Json Num) (id : String) where
    -- `cloneParameter`, with the fields that are set on it.
    unfoldable pub local_parameter : Mapping Num Moment → Node Num Moment → Node Num Moment
    local_parameter m n =
        let p = root n in
        let copy = assign env p.value (record p { url_prefix = "p_" }) in
        node
          (record copy {
            title = title_or m.title p.title;
            url_prefix = String.◌++◌ "p_w" (String.◌++◌ id "_");
          })
          (with_local n no_locals)

    unfoldable pub parameter_of :
        (query : List (String × String)) → Mapping Num Moment → Node Num Moment → Node Num Moment
    unfolding local_parameter
    parameter_of query m n = elim m.type [
      | static_value ↦ set_value env m.value (local_parameter m n)
      | _ ↦ from_url_params env json query (local_parameter m n)
    ]

    abbrev pub parameter_at :
        (query : List (String × String))
        → Option (Mapping Num Moment)
        → Node Num Moment
        → Node Num Moment
    parameter_at query none n = n
    parameter_at query (some m) n = parameter_of query m n

    unfoldable pub get_parameters_defs :
        (query : List (String × String))
        → List (Node Num Moment)
        → Mappings Num Moment
        → List (Node Num Moment)
    unfolding get_parameter_mappings parameter_of
    get_parameters_defs query ns ms =
        let mappings = get_parameter_mappings (map root ns) ms in
        map (λ n. parameter_at query (mapping_at (root n).name mappings) n)
          (filter (λ n. is_local (mapping_at (root n).name mappings)) ns)

    abbrev pub is_static_param : (mappings : Mappings Num Moment) → Node Num Moment → Bool
    is_static_param mappings n = is_static (mapping_at (root n).name mappings)

    unfoldable pub get_local_parameters :
        (query : List (String × String))
        → List (Node Num Moment)
        → Mappings Num Moment
        → List (Node Num Moment)
    unfolding get_parameters_defs
    get_local_parameters query ns ms =
        filter (λ n. not (is_static_param (get_parameter_mappings (map root ns) ms) n))
          (get_parameters_defs query ns ms)
