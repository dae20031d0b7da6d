-- ===== src/MappingInput/RoundTrip.antt =====
-- ParameterMappingInput.jsx: mappings that are made editable and saved again.
use mathlib.Core.Option
use mathlib.Core.Path.{subst}
use mxzz_bi.Prelude.{
  String, ◌≡◌, refl, sym, ap, ap₂, ◌∙◌, Bool, true, false, Option, none, some, List, [], ◌∷◌, ◌++◌,
  map, append_assoc, append-nil, str_eq, if◌then◌else◌, Bool-cases, inl, inr,
}
use mxzz_bi.Parameters.Normalize.{Value, null, Env, normalize, stored, member}
use mxzz_bi.Parameters.Object.{Parameter}
use mxzz_bi.Widget.Mappings.{
  MappingType as ParameterMappingType, dashboard_level as to_dashboard, widget_level as to_widget,
  static_value as to_static, Mapping, Mappings, mapping_at,
}
use mxzz_bi.MappingInput.Editable.{
  EditableMapping, put, from_pairs, param_named, all_some, editable,
  parameter_mappings_to_editable_mappings, plain_mapping, editable_mappings_to_parameter_mappings,
}

module _ {Num Moment : Type 0} where
  -- No key stands twice, nor among the `earlier` ones.
  abbrev pub Distinct : (earlier : Mappings Num Moment) → Mappings Num Moment → Type 0
  Distinct earlier [] = Unit {0}
  Distinct earlier ((k, m) ∷ ms) =
      (mapping_at k earlier ≡ none) × Distinct (earlier ++ ((k, m) ∷ [])) ms

  if_absent :
      (t : Bool) (n : Mapping Num Moment) (o : Option (Mapping Num Moment))
      → (if t then some n else o) ≡ none
      → (t ≡ false) × (o ≡ none)
  if_absent true n o h = absurd (Option.some-ne-none n h)
  if_absent false n o h = (refl, h)

  put-absent :
      (k : String) (m : Mapping Num Moment) (ms : Mappings Num Moment)
      → mapping_at k ms ≡ none
      → put k m ms ≡ ms ++ ((k, m) ∷ [])
  put-absent k m [] h = refl
  put-absent k m ((j, n) ∷ ms) h =
      let (e, g) = if_absent (str_eq k j) n (mapping_at k ms) h in
      rw e (ap ((j, n) ∷◌) (put-absent k m ms g))

  from_pairs-Distinct :
      (es earlier : Mappings Num Moment)
      → Distinct earlier es
      → from_pairs es earlier ≡ earlier ++ es
  unfolding from_pairs
  from_pairs-Distinct [] earlier h = sym (append-nil earlier)
  from_pairs-Distinct ((k, m) ∷ es) earlier h = rw (put-absent k m earlier h.0) (
      from_pairs-Distinct es (earlier ++ ((k, m) ∷ [])) h.1 ∙ append_assoc earlier ((k, m) ∷ []) es)

  module _ (env : Env Num Moment) (ps : List (Parameter Num Moment)) where
    -- A mapping as it is saved: a static value is in the form that its parameter stores, and no
    -- other mapping has a value.
    abbrev pub IsSaved : ParameterMappingType → Mapping Num Moment → Type 0
    IsSaved to_static m =
        (p : Parameter Num Moment) × (param_named m.name ps ≡ some p)
        × (stored env p.kind (normalize env p.kind m.value) ≡ m.value)
    IsSaved to_dashboard m = m.value ≡ null
    IsSaved to_widget m = m.value ≡ null

    abbrev pub AllSaved : Mappings Num Moment → Type 0
    AllSaved [] = Unit {0}
    AllSaved ((k, m) ∷ ms) = (m.name ≡ k) × IsSaved m.type m × AllSaved ms

    abbrev saved_again : Option (EditableMapping Num Moment) → Option (String × Mapping Num Moment)
    saved_again none = none
    saved_again (some e) = plain_mapping env e

    retyped_back :
        (existing : List String) (t : ParameterMappingType) (m : Mapping Num Moment)
        → IsSaved t m
        → saved_again (editable env ps existing (record m { type = t }))
          ≡ some (m.name, record m { type = t })
    unfolding editable plain_mapping
    retyped_back existing to_static m (p, f, s) =
        rw f (ap (λ v. some (m.name, record m { type = to_static; value = v })) s)
    retyped_back existing to_widget m s =
        ap (λ v. some (m.name, record m { type = to_widget; value = v })) (sym s)
    retyped_back existing to_dashboard m s =
        let with_value : Value Num Moment → Option (String × Mapping Num Moment) =
          λ v. some (m.name, record m { type = to_dashboard; value = v }) in
        let end : with_value null ≡ with_value m.value = ap with_value (sym s) in
        elim (Bool-cases (member m.map_to existing)) [ inl f ↦ rw f end | inr f ↦ rw f end ]

    editable_back :
        (existing : List String) (t : ParameterMappingType) (m : Mapping Num Moment)
        → m.type ≡ t
        → IsSaved t m
        → saved_again (editable env ps existing m) ≡ some (m.name, m)
    editable_back existing t m e s =
        subst
          (λ (n : Mapping Num Moment). saved_again (editable env ps existing n) ≡ some (n.name, n))
          (ap (λ t. record m { type = t }) (sym e)) (retyped_back existing t m s)

    saved_again-some :
        (o : Option (EditableMapping Num Moment)) (x : String × Mapping Num Moment)
        → saved_again o ≡ some x
        → (e : EditableMapping Num Moment) × (o ≡ some e) × (plain_mapping env e ≡ some x)
    saved_again-some none x h = absurd (Option.none-ne-some x h)
    saved_again-some (some e) x h = (e, refl, h)

    all_back :
        (existing : List String) (ms : Mappings Num Moment)
        → AllSaved ms
        → (es : List (EditableMapping Num Moment)) × (parameter_mappings_to_editable_mappings env ms
              ps existing
            ≡ some es)
          × (all_some (map (plain_mapping env) es) ≡ some ms)
    unfolding parameter_mappings_to_editable_mappings
    all_back existing [] h = ([], refl, refl)
    all_back existing ((k, m) ∷ ms) (n, s, h) =
        let (e, f, g) =
          saved_again-some (editable env ps existing m) (m.name, m)
            (editable_back existing m.type m refl s) in
        let (es, fs, gs) = all_back existing ms h in
        (
          e ∷ es,
          ap₂ (λ o os. all_some (o ∷ os)) f refl ∙ ap (Option.map (e ∷◌)) fs,
          ap (λ o. all_some (o ∷ map (plain_mapping env) es)) g
              ∙ ap (Option.map ((m.name, m) ∷◌)) gs
              ∙ ap (λ key. some ((key, m) ∷ ms)) n,
        )

    -- Saved mappings that are made editable, whatever names the dashboard has, and saved again with no
    -- change are what they were.
    pub mappings_round_trip :
        (existing : List String) (ms : Mappings Num Moment)
        → Distinct [] ms
        → AllSaved ms
        → (es : List (EditableMapping Num Moment)) × (parameter_mappings_to_editable_mappings env ms
              ps existing
            ≡ some es)
          × (editable_mappings_to_parameter_mappings env es ≡ some ms)
    unfolding editable_mappings_to_parameter_mappings
    mappings_round_trip existing ms d h =
        let (es, f, g) = all_back existing ms h in
        (es, f, rw g (ap some (from_pairs-Distinct ms [] d)))
