-- ===== src/Query/Uniq.antt =====
-- query.js: the names of `collectParams`, each once.
use mxzz_bi.Prelude.{
  String, ◌≡◌, refl, sym, ap, ◌∙◌, Bool, true, false, ◌||◌, ◌⊎◌, List, [], ◌∷◌, ◌++◌, append-nil,
  append_assoc, Bool-cases, inl, inr, str_eq, eq_iff,
}
use mxzz_bi.Parameters.Normalize.{member}
use mxzz_bi.Query.Names.{
  Part, tag, section, other, Parts, no_parts, part, before_dot, uniq_from, uniq,
  collect_params_from, collect_part, collect_params,
}

abbrev Within : List String → List String → Type 0
Within s t = (x : String) → member x s ≡ true → member x t ≡ true

or_cases : (a b : Bool) → (a || b) ≡ true → (a ≡ true) ⊎ (b ≡ true)
or_cases true b h = inl refl
or_cases false b h = inr h

or_true : (a b : Bool) → b ≡ true → (a || b) ≡ true
or_true true b h = refl
or_true false b h = h

or_left : (a b : Bool) → a ≡ true → (a || b) ≡ true
or_left a b h = rw h

Within-cons : (s t : List String) (y : String) → Within s t → Within (y ∷ s) (y ∷ t)
Within-cons s t y h x m = elim (or_cases (str_eq x y) (member x s) m) [
  | inl e ↦ or_left (str_eq x y) (member x t) e
  | inr e ↦ or_true (str_eq x y) (member x t) (h x e)
]

Within-cons_seen :
    (s t : List String) (y : String) → Within s t → member y t ≡ true → Within (y ∷ s) t
Within-cons_seen s t y h k x m = elim (or_cases (str_eq x y) (member x s) m) [
  | inl e ↦ rw ((eq_iff x y).0 e) k
  | inr e ↦ h x e
]

-- Taking each once, less what is seen no later, changes nothing in front of a list.
uniq_from-uniq_from_append :
    (s t xs ys : List String)
    → Within t s
    → uniq_from s (uniq_from t xs ++ ys) ≡ uniq_from s (xs ++ ys)
unfolding uniq_from
uniq_from-uniq_from_append s t [] ys h = refl
uniq_from-uniq_from_append s t (x ∷ xs) ys h = elim (Bool-cases (member x t)) [
  | inl e ↦ rw (uniq_from, e, h x e) (uniq_from-uniq_from_append s t xs ys h)
  | inr e ↦ elim (Bool-cases (member x s)) [
    | inl f ↦
        rw (uniq_from, e, f)
          (uniq_from-uniq_from_append s (x ∷ t) xs ys (Within-cons_seen t s x h f))
    | inr f ↦
        rw (uniq_from, e, f)
          (ap (x ∷◌) (uniq_from-uniq_from_append (x ∷ s) (x ∷ t) xs ys (Within-cons t s x h)))
  ]
]

uniq_from_append_of :
    (xs ys zs : List String)
    → uniq xs ≡ uniq ys
    → (s : List String) → uniq_from s (xs ++ zs) ≡ uniq_from s (ys ++ zs)
uniq_from_append_of xs ys zs h s =
    sym (uniq_from-uniq_from_append s [] xs zs (λ x m. cc))
    ∙ ap (λ l. uniq_from s (l ++ zs)) h
    ∙ uniq_from-uniq_from_append s [] ys zs (λ x m. cc)

uniq_from_behind :
    (acc xs ys : List String)
    → ((s : List String) → uniq_from s xs ≡ uniq_from s ys)
    → (s : List String) → uniq_from s (acc ++ xs) ≡ uniq_from s (acc ++ ys)
unfolding uniq_from
uniq_from_behind [] xs ys h s = h s
uniq_from_behind (x ∷ acc) xs ys h s = elim (Bool-cases (member x s)) [
  | inl e ↦ rw (uniq_from, e) (uniq_from_behind acc xs ys h s)
  | inr e ↦ rw (uniq_from, e) (ap (x ∷◌) (uniq_from_behind acc xs ys h (x ∷ s)))
]

-- The names of every tag, in the order of the text.
abbrev mutual
  pub all_names : Parts → List String
  all_names no_parts = []
  all_names (part p ps) = names_of p ++ all_names ps

  pub names_of : Part → List String
  names_of (tag s) = before_dot s ∷ []
  names_of (section s ps) = all_names ps
  names_of other = []

mutual
  unfolding collect_params_from

  uniq-collect_params_from :
      (acc : List String) (ps : Parts)
      → uniq (collect_params_from acc ps) ≡ uniq (acc ++ all_names ps)
  uniq-collect_params_from acc no_parts = ap uniq (sym (append-nil acc))
  uniq-collect_params_from acc (part p ps) =
      uniq-collect_params_from (collect_part acc p) ps ∙ uniq-collect_part acc (all_names ps) p

  uniq-collect_part :
      (acc rest : List String) (p : Part)
      → uniq (collect_part acc p ++ rest) ≡ uniq (acc ++ (names_of p ++ rest))
  uniq-collect_part acc rest (tag s) = ap uniq (append_assoc acc (before_dot s ∷ []) rest)
  uniq-collect_part acc rest other = refl
  uniq-collect_part acc rest (section s ps) =
      uniq_from-uniq_from_append [] [] (acc ++ collect_params_from [] ps) rest (λ x m. m)
      ∙ ap uniq (append_assoc acc (collect_params_from [] ps) rest)
      ∙ uniq_from_behind acc (collect_params_from [] ps ++ rest) (all_names ps ++ rest)
          (uniq_from_append_of (collect_params_from [] ps) (all_names ps) rest
            (uniq-collect_params_from [] ps))
          []

-- The parameters of a text are the names of its tags at any depth of sections, each once, in the
-- order in which they first stand in the text.
pub uniq-collect_params : (ps : Parts) → uniq (collect_params ps) ≡ uniq (all_names ps)
uniq-collect_params ps = uniq-collect_params_from [] ps
