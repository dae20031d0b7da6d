-- ===== src/Widget/Mapped.antt =====
-- widget.js: which mappings a widget has, and which of its parameters are its own.
use mxzz_bi.Prelude.{
  String, ◌≡◌, refl, ap, ap₂, ◌∙◌, Bool, true, false, not, ◌&&◌, Option, none, some, List, [], ◌∷◌,
  ◌++◌, map, filter, str_eq, eq_iff, if◌then◌else◌, Bool-cases, Option-cases, inl, inr,
}
use mxzz_bi.Parameters.Normalize.{Value, Env, member}
use mxzz_bi.Parameters.Object.{Parameter, Node, node, root, set_value}
use mxzz_bi.Parameters.Url.{Json, set_some, from_url_params}
use mxzz_bi.Widget.Mappings.{
  MappingType, dashboard_level, widget_level, static_value, Mapping, Mappings, mapping_at,
  default_mapping, add_mappings, param_names, remove_mappings, get_parameter_mappings, is_static,
  is_local, local_parameter, parameter_of, parameter_at, get_parameters_defs, get_local_parameters,
}

abbrev or_option {ℓ} : {A : Type ℓ} → Option A → Option A → Option A
or_option none b = b
or_option (some a) b = some a

module _ {Num Moment : Type 0} where
  -- What a parameter that has no mapping yet is given: the default of the first of its name.
  abbrev pub first_default : String → List (Parameter Num Moment) → Option (Mapping Num Moment)
  first_default key [] = none
  first_default key (p ∷ ps) =
      if str_eq key p.name then some (default_mapping p) else first_default key ps

  abbrev pub wanted_mapping :
      String → List (Parameter Num Moment) → Mappings Num Moment → Option (Mapping Num Moment)
  wanted_mapping key ps ms =
      if member key (param_names ps)
      then or_option (mapping_at key ms) (first_default key ps)
      else none

  mapping_at_append :
      (key k : String) (m : Mapping Num Moment) (ms : Mappings Num Moment)
      → mapping_at key (ms ++ ((k, m) ∷ []))
        ≡ or_option (mapping_at key ms) (if str_eq key k then some m else none)
  mapping_at_append key k m [] = refl
  mapping_at_append key k m ((j, n) ∷ ms) = elim (Bool-cases (str_eq key j)) [
    | inl e ↦ rw e
    | inr e ↦ rw e (mapping_at_append key k m ms)
  ]

  or_option_empty : (a : Option (Mapping Num Moment)) → a ≡ or_option a none
  or_option_empty none = refl
  or_option_empty (some a) = refl

  or_option_assoc :
      (a b c : Option (Mapping Num Moment))
      → or_option (or_option a b) c ≡ or_option a (or_option b c)
  or_option_assoc none b c = refl
  or_option_assoc (some a) b c = refl

  or_option-if :
      (t : Bool) (m : Mapping Num Moment) (c : Option (Mapping Num Moment))
      → or_option (if t then some m else none) c ≡ (if t then some m else c)
  or_option-if true m c = refl
  or_option-if false m c = refl

  or_option_known :
      (t : Bool) (a : Option (Mapping Num Moment)) (b m : Mapping Num Moment)
      (c : Option (Mapping Num Moment))
      → (t ≡ true → a ≡ some m)
      → or_option a c ≡ or_option a (if t then some b else c)
  or_option_known true a b m c h = rw (h refl)
  or_option_known false a b m c h = refl

  mapping_at-add_mappings :
      (key : String) (ps : List (Parameter Num Moment)) (ms : Mappings Num Moment)
      → mapping_at key (add_mappings ps ms) ≡ or_option (mapping_at key ms) (first_default key ps)
  unfolding add_mappings
  mapping_at-add_mappings key [] ms = or_option_empty (mapping_at key ms)
  mapping_at-add_mappings key (p ∷ ps) ms = elim (Option-cases (mapping_at p.name ms)) [
    | inl e ↦
        rw (add_mappings, e)
          (mapping_at-add_mappings key ps (ms ++ ((p.name, default_mapping p) ∷ []))
            ∙ ap (λ o. or_option o (first_default key ps))
                (mapping_at_append key p.name (default_mapping p) ms)
            ∙ or_option_assoc (mapping_at key ms)
                (if str_eq key p.name then some (default_mapping p) else none)
                (first_default key ps)
            ∙ ap (or_option (mapping_at key ms))
                (or_option-if (str_eq key p.name) (default_mapping p) (first_default key ps)))
    | inr (m, e) ↦
        rw (add_mappings, e)
          (mapping_at-add_mappings key ps ms
            ∙ or_option_known (str_eq key p.name) (mapping_at key ms) (default_mapping p) m
                (first_default key ps) (λ h. rw ((eq_iff key p.name).0 h) e))
  ]

  mapping_at-remove_mappings :
      (key : String) (names : List String) (ms : Mappings Num Moment)
      → mapping_at key (remove_mappings names ms)
        ≡ (if member key names then mapping_at key ms else none)
  unfolding remove_mappings
  mapping_at-remove_mappings key names [] = elim (Bool-cases (member key names)) [
    | inl e ↦ rw e
    | inr e ↦ rw e
  ]
  mapping_at-remove_mappings key names ((k, m) ∷ ms) = elim (Bool-cases (str_eq key k)) [
    | inl e ↦
        let q = (eq_iff key k).0 e in
        elim (Bool-cases (member k names)) [
          | inl f ↦ let g : member key names ≡ true = rw q f in rw (f, e, g) refl
          | inr f ↦
              let g : member key names ≡ false = rw q f in
              rw f (mapping_at-remove_mappings key names ms ∙ rw g refl)
        ]
    | inr e ↦ elim (Bool-cases (member k names)) [
      | inl f ↦ rw (f, e) (mapping_at-remove_mappings key names ms)
      | inr f ↦ rw (f, e) (mapping_at-remove_mappings key names ms)
    ]
  ]

  -- A widget has a mapping for exactly the parameters of its query: the one it had, or else the
  -- default of the first parameter of that name; every other mapping is removed.
  pub mapping_at-get_parameter_mappings :
      (key : String) (ps : List (Parameter Num Moment)) (ms : Mappings Num Moment)
      → mapping_at key (get_parameter_mappings ps ms) ≡ wanted_mapping key ps ms
  unfolding get_parameter_mappings
  mapping_at-get_parameter_mappings key ps ms =
      mapping_at-remove_mappings key (param_names ps) (add_mappings ps ms)
      ∙ ap (λ o. if member key (param_names ps) then o else none)
          (mapping_at-add_mappings key ps ms)

  -- `WidgetLevel`
  abbrev pub is_widget_level : Option (Mapping Num Moment) → Bool
  is_widget_level none = false
  is_widget_level (some m) = elim m.type [ widget_level ↦ true | _ ↦ false ]

  widget_level-type :
      (t : MappingType) (m : Mapping Num Moment)
      → m.type ≡ t
      → is_widget_level (some m) ≡ (is_local (some m) && not (is_static (some m)))
  widget_level-type dashboard_level m h = rw h refl
  widget_level-type widget_level m h = rw h refl
  widget_level-type static_value m h = rw h refl

  widget_level-local :
      (o : Option (Mapping Num Moment)) → is_widget_level o ≡ (is_local o && not (is_static o))
  widget_level-local none = refl
  widget_level-local (some m) = widget_level-type m.type m refl

  module _ (env : Env Num Moment) (json : Json Num) (id : String)
      (query : List (String × String)) where
    name-set_some :
        (o : Option (Value Num Moment)) (n : Node Num Moment)
        → (root (set_some env json o n)).name ≡ (root n).name
    unfolding set_value
    name-set_some none n = refl
    name-set_some (some v) (node p ls) = refl

    name-from_url_params :
        (n : Node Num Moment) → (root (from_url_params env json query n)).name ≡ (root n).name
    name-from_url_params (node p ls) = unfold from_url_params in name-set_some _ (node p ls)

    name-parameter_of :
        (t : MappingType) (m : Mapping Num Moment) (n : Node Num Moment)
        → m.type ≡ t
        → (root (parameter_of env json id query m n)).name ≡ (root n).name
    unfolding parameter_of local_parameter set_value
    name-parameter_of static_value m n h = rw h refl
    name-parameter_of widget_level m n h =
        rw h (name-from_url_params (local_parameter env json id m n))
    name-parameter_of dashboard_level m n h =
        rw h (name-from_url_params (local_parameter env json id m n))

    name-parameter_at :
        (o : Option (Mapping Num Moment)) (n : Node Num Moment)
        → (root (parameter_at env json id query o n)).name ≡ (root n).name
    name-parameter_at none n = refl
    name-parameter_at (some m) n = name-parameter_of m.type m n refl

    abbrev node_names : List (Node Num Moment) → List String
    node_names ns = map (λ n. (root n).name) ns

    node_names-filter :
        (ms : Mappings Num Moment) (ns : List (Node Num Moment))
        → node_names (
            filter
              (λ n. not (is_static (mapping_at (root n).name ms)))
              (map
                (λ n. parameter_at env json id query (mapping_at (root n).name ms) n)
                (filter (λ n. is_local (mapping_at (root n).name ms)) ns)))
          ≡ node_names (filter (λ n. is_widget_level (mapping_at (root n).name ms)) ns)
    node_names-filter ms [] = refl
    node_names-filter ms (n ∷ ns) =
        let o = mapping_at (root n).name ms in
        let k = name-parameter_at o n in
        let w = widget_level-local o in
        elim (Bool-cases (is_local o)) [
          | inl e ↦ elim (Bool-cases (is_static o)) [
            | inl f ↦ rw (w, e, k, f) (node_names-filter ms ns)
            | inr f ↦ rw (w, e, k, f) (ap₂ (◌∷◌) k (node_names-filter ms ns))
          ]
          | inr e ↦ rw (w, e) (node_names-filter ms ns)
        ]

    -- The parameters that a widget lets one edit are, in the query's order, those that the widget's
    -- mappings keep at the level of the widget: neither static ones nor the dashboard's.
    names-get_local_parameters :
        (ns : List (Node Num Moment)) (ms : Mappings Num Moment)
        → map (λ n. (root n).name) (get_local_parameters env json id query ns ms)
          ≡ map
              (λ n. (root n).name)
              (filter
                (λ n.
                  is_widget_level
                    (mapping_at (root n).name (get_parameter_mappings (map root ns) ms)))
                ns)
    unfolding get_local_parameters get_parameters_defs
    names-get_local_parameters ns ms =
        node_names-filter (get_parameter_mappings (map root ns) ms) ns
