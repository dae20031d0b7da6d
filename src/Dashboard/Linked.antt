-- ===== src/Dashboard/Linked.antt =====
-- dashboard.js: which parameters a dashboard's parameter stands for, and the values that they take.
use mxzz_bi.Prelude.{
  String, ◌≡◌, refl, sym, ap, ◌∙◌, Bool, true, false, ◌&&◌, Option, none, some, List, [], ◌∷◌, ◌++◌,
  map, filter, append_assoc, append-nil, str_eq, eq_iff, if◌then◌else◌, Bool-cases, inl, inr,
}
use mxzz_bi.Parameters.Normalize.{Value, Env}
use mxzz_bi.Parameters.Object.{
  Node, node, Locals, no_locals, with_local, root, set_value, update_locals,
}
use mxzz_bi.Parameters.Pending.{values_of_locals, values_of_locals-update_locals}
use mxzz_bi.Parameters.Url.{Json, set_some, from_url_params}
use mxzz_bi.Widget.Mappings.{
  MappingType, dashboard_level, widget_level, static_value, Mapping, Mappings, mapping_at,
  get_parameter_mappings,
}
use mxzz_bi.Dashboard.Globals.{
  Widget, push_local, with_pushed, add_global, add_mapped, add_parameters, add_widgets, initialize,
}

str_apart : (key n m : String) → str_eq n m ≡ false → str_eq key m ≡ true → str_eq key n ≡ false
str_apart key n m e f = elim (Bool-cases (str_eq key n)) [
  | inl h ↦ let k : str_eq n m ≡ true = sym (ap (λ x. str_eq x m) ((eq_iff key n).0 h)) ∙ f in cc
  | inr h ↦ h
]

module _ {Num Moment : Type 0} where
  abbrev pub local_list : Locals Num Moment → List (Node Num Moment)
  local_list no_locals = []
  local_list (with_local n ls) = n ∷ local_list ls

  abbrev pub locals_of : Node Num Moment → Locals Num Moment
  locals_of (node p ls) = ls

  -- The locals of the dashboard's parameter of a key, none if there is no such parameter.
  abbrev pub locals_at : String → List (String × Node Num Moment) → List (Node Num Moment)
  locals_at key [] = []
  locals_at key ((k, g) ∷ gs) = if str_eq key k then local_list (locals_of g) else locals_at key gs

  abbrev pub maps_to : String → Option (Mapping Num Moment) → Bool
  maps_to key none = false
  maps_to key (some m) = elim m.type [ dashboard_level ↦ true | _ ↦ false ] && str_eq key m.map_to

  abbrev pub mapped_to : String → Widget Num Moment → List (Node Num Moment)
  mapped_to key w =
      filter
        (λ n.
          maps_to key
            (mapping_at (root n).name (get_parameter_mappings (map root w.parameters) w.mappings)))
        w.parameters

  abbrev pub all_mapped_to : String → List (Widget Num Moment) → List (Node Num Moment)
  all_mapped_to key [] = []
  all_mapped_to key (w ∷ ws) = mapped_to key w ++ all_mapped_to key ws

  list-push_local :
      (n : Node Num Moment) (ls : Locals Num Moment)
      → local_list (push_local n ls) ≡ local_list ls ++ (n ∷ [])
  list-push_local n no_locals = refl
  list-push_local n (with_local l ls) = ap (l ∷◌) (list-push_local n ls)

  list-with_pushed :
      (n g : Node Num Moment)
      → local_list (locals_of (with_pushed n g)) ≡ local_list (locals_of g) ++ (n ∷ [])
  list-with_pushed n (node p ls) = list-push_local n ls

  module _ (env : Env Num Moment) where
    locals_at-add_global :
        (key : String) (m : Mapping Num Moment) (n : Node Num Moment)
        (gs : List (String × Node Num Moment))
        → locals_at key (add_global env m n gs)
          ≡ locals_at key gs ++ (if str_eq key m.map_to then n ∷ [] else [])
    unfolding add_global
    locals_at-add_global key m n [] = refl
    locals_at-add_global key m n ((k, g) ∷ gs) = elim (Bool-cases (str_eq m.map_to k)) [
      | inl e ↦
          let q = (eq_iff m.map_to k).0 e in
          elim (Bool-cases (str_eq key k)) [
            | inl f ↦
                let h : str_eq key m.map_to ≡ true = ap (str_eq key) q ∙ f in
                rw (add_global, e, f, h) (list-with_pushed n g)
            | inr f ↦
                let h : str_eq key m.map_to ≡ false = ap (str_eq key) q ∙ f in
                rw (add_global, e, f, h) (sym (append-nil (locals_at key gs)))
          ]
      | inr e ↦ elim (Bool-cases (str_eq key k)) [
        | inl f ↦
            let h : str_eq key m.map_to ≡ false = str_apart key m.map_to k e f in
            rw (add_global, e, f, h) (sym (append-nil (local_list (locals_of g))))
        | inr f ↦ rw (add_global, e, f) (locals_at-add_global key m n gs)
      ]
    ]

    locals_at-add_mapped :
        (key : String) (o : Option (Mapping Num Moment)) (n : Node Num Moment)
        (gs : List (String × Node Num Moment))
        → locals_at key (add_mapped env o n gs)
          ≡ locals_at key gs ++ (if maps_to key o then n ∷ [] else [])
    locals_at-add_mapped key none n gs = sym (append-nil (locals_at key gs))
    locals_at-add_mapped key (some m) n gs = by_type m.type refl
      where
        by_type :
            (t : MappingType)
            → m.type ≡ t
            → locals_at key (add_mapped env (some m) n gs)
              ≡ locals_at key gs ++ (if maps_to key (some m) then n ∷ [] else [])
        by_type dashboard_level e = rw e (locals_at-add_global key m n gs)
        by_type widget_level e = rw e (sym (append-nil (locals_at key gs)))
        by_type static_value e = rw e (sym (append-nil (locals_at key gs)))

    filter-cons :
        {A : Type 0} (p : A → Bool) (x : A) (xs : List A)
        → filter p (x ∷ xs) ≡ (if p x then x ∷ [] else []) ++ filter p xs
    filter-cons p x xs = elim (Bool-cases (p x)) [ inl e ↦ rw e refl | inr e ↦ rw e refl ]

    locals_at-add_parameters :
        (key : String) (ms : Mappings Num Moment) (ns : List (Node Num Moment))
        (gs : List (String × Node Num Moment))
        → locals_at key (add_parameters env ms ns gs)
          ≡ locals_at key gs ++ filter (λ n. maps_to key (mapping_at (root n).name ms)) ns
    unfolding add_parameters
    locals_at-add_parameters key ms [] gs = sym (append-nil (locals_at key gs))
    locals_at-add_parameters key ms (n ∷ ns) gs =
        let o = mapping_at (root n).name ms in
        let mine : Node Num Moment → Bool = λ n. maps_to key (mapping_at (root n).name ms) in
        locals_at-add_parameters key ms ns (add_mapped env o n gs)
        ∙ ap (◌++ filter mine ns) (locals_at-add_mapped key o n gs)
        ∙ append_assoc (locals_at key gs) (if mine n then n ∷ [] else []) (filter mine ns)
        ∙ ap (locals_at key gs ++◌) (sym (filter-cons mine n ns))

    -- A dashboard's parameter stands for the parameters of the widgets that are mapped to its key, all
    -- of them, widget by widget in the order of their queries.
    pub locals_at-add_widgets :
        (key : String) (ws : List (Widget Num Moment)) (gs : List (String × Node Num Moment))
        → locals_at key (add_widgets env ws gs) ≡ locals_at key gs ++ all_mapped_to key ws
    unfolding add_widgets
    locals_at-add_widgets key [] gs = sym (append-nil (locals_at key gs))
    locals_at-add_widgets key (w ∷ ws) gs =
        let ms = get_parameter_mappings (map root w.parameters) w.mappings in
        locals_at-add_widgets key ws (add_parameters env ms w.parameters gs)
        ∙ ap (◌++ all_mapped_to key ws) (locals_at-add_parameters key ms w.parameters gs)
        ∙ append_assoc (locals_at key gs) (mapped_to key w) (all_mapped_to key ws)

    set_value_locals :
        (v : Value Num Moment) (n : Node Num Moment)
        → values_of_locals env (locals_of (set_value env v n))
          ≡ values_of_locals env (update_locals env (root (set_value env v n)).value (locals_of n))
    unfolding set_value
    set_value_locals v (node p ls) = refl

    set_some_locals :
        (json : Json Num) (o : Option (Value Num Moment)) (v : Value Num Moment)
        (n : Node Num Moment)
        → (let m = set_some env json o (set_value env v n) in
            values_of_locals env (locals_of m)
            ≡ values_of_locals env (update_locals env (root m).value (locals_of n)))
    set_some_locals json none v n = set_value_locals v n
    set_some_locals json (some u) v (node p ls) =
        unfold set_value in values_of_locals-update_locals env _ _ ls

    -- What a dashboard's parameter shows after it was initialized, be it its own value or the URL's, is
    -- what all its locals were set to, at any depth.
    locals-initialize :
        (json : Json Num) (query : List (String × String)) (n : Node Num Moment)
        → values_of_locals env (locals_of (initialize env json query n))
          ≡ values_of_locals env
              (update_locals env (root (initialize env json query n)).value (locals_of n))
    unfolding initialize
    locals-initialize json query (node p ls) =
        unfold set_value from_url_params in set_some_locals json _ p.value (node p ls)
