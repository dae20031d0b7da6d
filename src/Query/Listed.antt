-- ===== src/Query/Listed.antt =====
-- query.js: which parameters are listed after the list is updated and added to.
use mxzz_bi.Prelude.{
  String, ◌≡◌, refl, ap, ap₂, ◌∙◌, Bool, true, false, not, ◌&&◌, ◌||◌, Option, none, some, List, [],
  ◌∷◌, ◌++◌, append-nil, map, filter, any, Bool-cases, inl, inr, str_eq, eq_iff,
}
use mxzz_bi.Parameters.Normalize.{Env, member}
use mxzz_bi.Parameters.Object.{Definition, node, no_locals, create_parameter}
use mxzz_bi.Query.Names.{Parts}
use mxzz_bi.Query.ParameterList.{
  Entry, saved, instance_of, Parameters, same_text, name_of, names, is_saved, parse_query,
  instantiate, instantiate_saved, new_text, wanted, update_parameters, get, add,
}

str_eq_self : (s : String) → str_eq s s ≡ true
str_eq_self s = (eq_iff s s).1 refl

same_text_self : (o : Option String) → same_text o o ≡ true
same_text_self none = refl
same_text_self (some s) = str_eq_self s

member-append :
    (x : String) (xs ys : List String) → member x (xs ++ ys) ≡ (member x xs || member x ys)
member-append x [] ys = refl
member-append x (y ∷ xs) ys = elim (Bool-cases (str_eq x y)) [
  | inl e ↦ rw e
  | inr e ↦ rw e (member-append x xs ys)
]

and_false : (b : Bool) → (b && false) ≡ false
and_false true = refl
and_false false = refl

module _ {A : Type 0} (p : A → Bool) where
  filter-append : (xs ys : List A) → filter p (xs ++ ys) ≡ filter p xs ++ filter p ys
  filter-append [] ys = refl
  filter-append (x ∷ xs) ys = elim (Bool-cases (p x)) [
    | inl h ↦ rw h (ap (x ∷◌) (filter-append xs ys))
    | inr h ↦ rw h (filter-append xs ys)
  ]

  filter-not : (xs : List A) → filter p (filter (λ x. not (p x)) xs) ≡ []
  filter-not [] = refl
  filter-not (x ∷ xs) = elim (Bool-cases (p x)) [
    | inl h ↦ rw h (filter-not xs)
    | inr h ↦ rw (h, h) (filter-not xs)
  ]

  filter-filter : (xs : List A) → filter p (filter p xs) ≡ filter p xs
  filter-filter [] = refl
  filter-filter (x ∷ xs) = elim (Bool-cases (p x)) [
    | inl h ↦ rw (h, h) (ap (x ∷◌) (filter-filter xs))
    | inr h ↦ rw h (filter-filter xs)
  ]

-- What a filter on names keeps.
member-filter :
    (p : String → Bool) (x : String) (ws : List String)
    → member x (filter p ws) ≡ (member x ws && p x)
member-filter p x [] = refl
member-filter p x (w ∷ ws) = elim (Bool-cases (str_eq x w)) [
  | inl e ↦ elim (Bool-cases (p w)) [
    | inl f ↦ let q : p x ≡ true = rw ((eq_iff x w).0 e) f in rw (f, e, q)
    | inr f ↦
        let q : p x ≡ false = rw ((eq_iff x w).0 e) f in
        rw (f, e, q) (member-filter p x ws ∙ rw q (and_false (member x ws)))
  ]
  | inr e ↦ elim (Bool-cases (p w)) [
    | inl f ↦ rw (f, e) (member-filter p x ws)
    | inr f ↦ rw (f, e) (member-filter p x ws)
  ]
]

module _ {Num Moment : Type 0} where
  names-filter :
      (p : String → Bool) (es : List (Entry Num Moment))
      → names (filter (λ e. p (name_of e)) es) ≡ filter p (names es)
  names-filter p [] = refl
  names-filter p (e ∷ es) = elim (Bool-cases (p (name_of e))) [
    | inl h ↦ rw h (ap (name_of e ∷◌) (names-filter p es))
    | inr h ↦ rw h (names-filter p es)
  ]

  names-append : (xs ys : List (Entry Num Moment)) → names (xs ++ ys) ≡ names xs ++ names ys
  names-append [] ys = refl
  names-append (x ∷ xs) ys = ap (name_of x ∷◌) (names-append xs ys)

  module _ (env : Env Num Moment) where
    name_of-instantiate : (e : Entry Num Moment) → name_of (instantiate env e) ≡ name_of e
    name_of-instantiate (saved d) = unfold create_parameter in refl
    name_of-instantiate (instance_of n) = refl

    names-instantiate : (es : List (Entry Num Moment)) → names (map (instantiate env) es) ≡ names es
    names-instantiate [] = refl
    names-instantiate (e ∷ es) = ap₂ (◌∷◌) (name_of-instantiate e) (names-instantiate es)

    names-new_text : (ws : List String) → names (map (new_text env) ws) ≡ ws
    unfolding create_parameter
    names-new_text [] = refl
    names-new_text (w ∷ ws) = ap (w ∷◌) (names-new_text ws)

    is_saved-instantiate :
        (es : List (Entry Num Moment)) → any is_saved (map (instantiate env) es) ≡ false
    is_saved-instantiate [] = refl
    is_saved-instantiate (saved d ∷ es) = is_saved-instantiate es
    is_saved-instantiate (instance_of n ∷ es) = is_saved-instantiate es

    names-wanted :
        (ws : List String) (es : List (Entry Num Moment))
        → names (wanted env ws es)
          ≡ filter (λ x. member x ws) (names es ++ filter (λ x. not (member x (names es))) ws)
    unfolding wanted
    names-wanted ws es =
        let added = filter (λ x. not (member x (names es))) ws in
        names-instantiate (filter (λ e. member (name_of e) ws) (es ++ map (new_text env) added))
        ∙ names-filter (λ x. member x ws) (es ++ map (new_text env) added)
        ∙ ap (λ l. filter (λ x. member x ws) l)
            (names-append es (map (new_text env) added) ∙ ap (names es ++◌) (names-new_text added))

    wanted_self : (w e : Bool) → ((e || (w && not e)) && w) ≡ w
    wanted_self true true = refl
    wanted_self true false = refl
    wanted_self false true = refl
    wanted_self false false = refl

    member-names-wanted :
        (ws : List String) (es : List (Entry Num Moment)) (x : String)
        → member x (names (wanted env ws es)) ≡ member x ws
    member-names-wanted ws es x =
        let added = filter (λ y. not (member y (names es))) ws in
        ap (member x) (names-wanted ws es)
        ∙ member-filter (λ y. member y ws) x (names es ++ added)
        ∙ ap (λ b. b && member x ws)
            (member-append x (names es) added
              ∙ ap (λ b. member x (names es) || b)
                  (member-filter (λ y. not (member y (names es))) x ws))
        ∙ wanted_self (member x ws) (member x (names es))

    -- After the text has changed, an update lists exactly the parameters that the new text names, or
    -- those that there were if it does not parse.
    pub member-names-update_parameters :
        (parse : String → Option Parts) (ps : Parameters Num Moment) (x : String)
        → same_text ps.text ps.cached_query_text ≡ false
        → member x (names (update_parameters env parse true ps).parameters)
          ≡ member x (parse_query parse ps)
    unfolding update_parameters
    member-names-update_parameters parse ps x h =
        rw h (member-names-wanted (parse_query parse ps) ps.parameters x)

    any-instantiate_saved :
        (es : List (Entry Num Moment)) → any is_saved (instantiate_saved env es) ≡ false
    any-instantiate_saved es = elim (Bool-cases (any is_saved es)) [
      | inl e ↦ rw e (is_saved-instantiate es)
      | inr e ↦ rw e e
    ]

    instantiate_saved_none :
        (es : List (Entry Num Moment)) → any is_saved es ≡ false → instantiate_saved env es ≡ es
    instantiate_saved_none es h = rw h

    is_saved-wanted :
        (ws : List String) (es : List (Entry Num Moment)) → any is_saved (wanted env ws es) ≡ false
    unfolding wanted
    is_saved-wanted ws es = is_saved-instantiate (
        filter (λ e. member (name_of e) ws)
          (es ++ map (new_text env) (filter (λ x. not (member x (names es))) ws)))

    -- Reading the list a second time changes nothing: it is up to date and holds instances.
    get-get :
        (parse : String → Option Parts) (ps : Parameters Num Moment)
        → get env parse (get env parse ps) ≡ get env parse ps
    unfolding update_parameters
    get-get parse ps = elim (Bool-cases (same_text ps.text ps.cached_query_text)) [
      | inl h ↦
          rw (h, h)
            (ap (λ es. record ps { parameters = es })
              (instantiate_saved_none (instantiate_saved env ps.parameters)
                (any-instantiate_saved ps.parameters)))
      | inr h ↦
          rw (h, same_text_self ps.text)
            (ap (λ es. record ps { cached_query_text = ps.text; parameters = es })
              (instantiate_saved_none (wanted env (parse_query parse ps) ps.parameters)
                (is_saved-wanted (parse_query parse ps) ps.parameters)))
    ]

    -- Adding a definition leaves one parameter of its name, the new one, behind all the others, which
    -- stay as they were.
    add_replaces :
        (parse : String → Option Parts) (d : Definition Num Moment) (ps : Parameters Num Moment)
        → (filter (λ e. str_eq (name_of e) d.name) (add env parse d ps).parameters
            ≡ instance_of (node (create_parameter env d) no_locals) ∷ [])
          × (filter (λ e. not (str_eq (name_of e) d.name)) (add env parse d ps).parameters
              ≡ filter (λ e. not (str_eq (name_of e) d.name)) ps.parameters)
    unfolding add create_parameter
    add_replaces parse d ps =
        let same = λ (e : Entry Num Moment). str_eq (name_of e) d.name in
        let others = λ (e : Entry Num Moment). not (str_eq (name_of e) d.name) in
        let made = instance_of (node (create_parameter env d) no_locals) ∷ [] in
        (
          filter-append same (filter others ps.parameters) made
              ∙ ap₂ (◌++◌) (filter-not same ps.parameters) (rw (str_eq_self d.name) refl),
          filter-append others (filter others ps.parameters) made
              ∙ ap₂ (◌++◌) (filter-filter others ps.parameters) (rw (str_eq_self d.name) refl)
              ∙ append-nil (filter others ps.parameters),
        )
