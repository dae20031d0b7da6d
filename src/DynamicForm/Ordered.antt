-- ===== src/DynamicForm/Ordered.antt =====
-- client/app/components/dynamic-form/dynamicFormHelper.js: the order of the inputs.
use mxzz_bi.Prelude.{
  ℕ, suc, String, ◌≡◌, refl, sym, ap, ◌∙◌, fun_ext, neither, Bool-cases, Option-cases, inl, inr,
  true, false, Option, none, some, List, [], ◌∷◌, ◌++◌, append-nil, append_assoc, map, str_eq,
  eq_iff, if◌then◌else◌,
}
use mxzz_bi.Parameters.Normalize.{member}
use mxzz_bi.DynamicForm.{
  Values, Property, Input, index_of, set_at, input_of, place_all, ordered_inputs,
}

abbrev pub Distinct : List String → Type 0
Distinct [] = Unit {0}
Distinct (n ∷ ns) = (member n ns ≡ false) × Distinct ns

index_of-none : (key : String) (ns : List String) → member key ns ≡ false → index_of key ns ≡ none
index_of-none key [] h = refl
index_of-none key (n ∷ ns) h =
    let (p, q) = neither (str_eq key n) (member key ns) h in rw (p, index_of-none key ns q) refl

module _ {A : Type 0} where
  abbrev updated : (String → Option A) → String → A → String → Option A
  updated h key v n = if str_eq key n then some v else h n

  map-updated :
      (h : String → Option A) (key : String) (v : A) (ns : List String)
      → member key ns ≡ false
      → map (updated h key v) ns ≡ map h ns
  map-updated h key v [] m = refl
  map-updated h key v (n ∷ ns) m =
      let (p, q) = neither (str_eq key n) (member key ns) m in
      rw p (ap (h n ∷◌) (map-updated h key v ns q))

  set_at-index_of :
      (h : String → Option A) (key : String) (v : A) (ns : List String) (xs : List (Option A))
      → Distinct ns
      → member key ns ≡ true
      → (i : ℕ) × (index_of key ns ≡ some i)
        × (set_at i (some v) (map h ns ++ xs) ≡ map (updated h key v) ns ++ xs)
  set_at-index_of h key v [] xs d t = cc
  set_at-index_of h key v (n ∷ ns) xs (m, d) t = elim (Bool-cases (str_eq key n)) [
    | inl e ↦
        let k : key ≡ n = (eq_iff key n).0 e in
        let u = map-updated h key v ns (ap (λ x. member x ns) k ∙ m) in
        (0, rw e refl, rw (e, u) refl)
    | inr e ↦
        let t' : member key ns ≡ true = simp e at t in
        let (i, f, g) = set_at-index_of h key v ns xs d t' in
        (suc i, rw (e, f) refl, rw e (ap (h n ∷◌) g))
  ]

module _ {Value : Type 0} (values : Values Value) (order : List String)
    (options : List (String × Value)) where
  -- The input of the property of a name, if there is one.
  abbrev pub input_named : List (String × Property Value) → String → Option (Input Value)
  input_named [] n = none
  input_named ((key, p) ∷ fs) n =
      if str_eq key n then some (input_of values options key p) else input_named fs n

  -- The inputs of the properties that the order does not name.
  abbrev pub others : List (String × Property Value) → List (Option (Input Value))
  others [] = []
  others ((key, p) ∷ fs) =
      if member key order then others fs else some (input_of values options key p) ∷ others fs

  abbrev or_else : Option (Input Value) → Option (Input Value) → Option (Input Value)
  or_else none b = b
  or_else (some a) b = some a

  abbrev pub keys : List (String × Property Value) → List String
  keys fs = map (λ f. f.0) fs

  input_named-none :
      (fs : List (String × Property Value)) (n : String)
      → member n (keys fs) ≡ false
      → input_named fs n ≡ none
  input_named-none [] n h = refl
  input_named-none ((key, p) ∷ fs) n h =
      let (a, b) = neither (str_eq n key) (member n (keys fs)) h in
      elim (Bool-cases (str_eq key n)) [
        | inl e ↦ let f : str_eq n key ≡ true = (eq_iff n key).1 (sym ((eq_iff key n).0 e)) in cc
        | inr e ↦ rw e (input_named-none fs n b)
      ]

  -- An input that is placed first is the one that counts, as no later property has its name.
  named_first :
      (h : String → Option (Input Value)) (key : String) (p : Property Value)
      (fs : List (String × Property Value))
      → member key (keys fs) ≡ false
      → (n : String)
      → or_else (input_named fs n) (updated h key (input_of values options key p) n)
        ≡ or_else (input_named ((key, p) ∷ fs) n) (h n)
  named_first h key p fs m n = elim (Bool-cases (str_eq key n)) [
    | inl e ↦
        let k : key ≡ n = (eq_iff key n).0 e in
        let g = input_named-none fs n (ap (λ x. member x (keys fs)) (sym k) ∙ m) in rw (e, g) refl
    | inr e ↦ rw e refl
  ]

  named_unlisted :
      (h : String → Option (Input Value)) (key : String) (p : Property Value)
      (fs : List (String × Property Value)) (ns : List String)
      → member key ns ≡ false
      → map (λ n. or_else (input_named ((key, p) ∷ fs) n) (h n)) ns
        ≡ map (λ n. or_else (input_named fs n) (h n)) ns
  named_unlisted h key p fs [] m = refl
  named_unlisted h key p fs (n ∷ ns) m =
      let (a, b) = neither (str_eq key n) (member key ns) m in
      rw a (ap (or_else (input_named fs n) (h n) ∷◌) (named_unlisted h key p fs ns b))

  placed :
      (h : String → Option (Input Value)) (fs : List (String × Property Value))
      (xs : List (Option (Input Value)))
      → Distinct order
      → Distinct (keys fs)
      → place_all values order options fs (map h order ++ xs)
        ≡ map (λ n. or_else (input_named fs n) (h n)) order ++ xs ++ others fs
  unfolding place_all
  placed h [] xs d k = sym (append-nil (map h order ++ xs))
  placed h ((key, p) ∷ fs) xs d (m, k) =
      let input = input_of values options key p in
      elim (Bool-cases (member key order)) [
        | inl e ↦
            let (i, f, g) = set_at-index_of h key input order xs d e in
            let q = fun_ext (named_first h key p fs m) in
            rw (e, f)
              (ap (place_all values order options fs) g
                ∙ placed (updated h key input) fs xs d k
                ∙ ap (λ x. map x order ++ xs ++ others fs) q)
        | inr e ↦
            rw (e, index_of-none key order e)
              (ap (place_all values order options fs)
                  (append_assoc (map h order) xs (some input ∷ []))
                ∙ placed h fs (xs ++ some input ∷ []) d k
                ∙ ap (λ ms. ms ++ (xs ++ some input ∷ []) ++ others fs)
                    (sym (named_unlisted h key p fs order e))
                ∙ let ms = map (λ n. or_else (input_named ((key, p) ∷ fs) n) (h n)) order in
                  ap (◌++ others fs) (sym (append_assoc ms xs (some input ∷ [])))
                  ∙ append_assoc (ms ++ xs) (some input ∷ []) (others fs))
      ]

  none_left :
      (fs : List (String × Property Value)) (n : String)
      → or_else (input_named fs n) none ≡ input_named fs n
  none_left fs n = elim (Option-cases (input_named fs n)) [
    | inl e ↦ rw e refl
    | inr (i, e) ↦ rw e refl
  ]

  -- The inputs stand in the order that the schema gives, each under its name, with a hole where the
  -- order names no property; those that the order does not name follow, in their own order, and none is
  -- lost or shown twice. Neither the order nor the properties name anything twice.
  pub ordered_inputs_ordered :
      (properties : List (String × Property Value))
      → Distinct order
      → Distinct (keys properties)
      → ordered_inputs values properties order options
        ≡ map (input_named properties) order ++ others properties
  unfolding ordered_inputs
  ordered_inputs_ordered properties d k =
      ap (place_all values order options properties) (sym (append-nil (map (λ name. none) order)))
      ∙ placed (λ name. none) properties [] d k
      ∙ ap (◌++ others properties)
          (append-nil (map (λ n. or_else (input_named properties n) none) order))
      ∙ ap (λ h. map h order ++ others properties) (fun_ext (none_left properties))
