-- ===== src/QueryResult/ColumnName/Laws.antt =====
-- The name in front of a filter's type.
use mxzz_bi.Prelude.{
  ℕ, ◌≡◌, refl, ◌≢◌, true, false, List, [], ◌∷◌, ◌++◌, arith, ◌==◌, append_assoc, append-nil,
  Bool-cases, inl, inr, ap, ◌∙◌,
}
use mxzz_bi.Js.{codes}
use mxzz_bi.QueryResult.ColumnName.{
  or_else, eq_codes, colon, underscore, has_double, split_double, is_filter_type,
  column_name_without_type, filter_type,
}

-- No code point of the list is `c`.
abbrev pub Lacks : ℕ → List ℕ → Type 0
Lacks c [] = Unit {0}
Lacks c (x ∷ xs) = (x ≢ c) × Lacks c xs

module _ (c : ℕ) where
  split_double_next :
      (x y : ℕ) (cur xs : List ℕ)
      → x ≢ c
      → split_double c cur (x ∷ y ∷ xs) ≡ split_double c (cur ++ x ∷ []) (y ∷ xs)
  unfolding split_double
  split_double_next x y cur xs h = let e : (x == c) ≡ false = ground arith in rw (e, split_double)

  split_double_cut :
      (cur xs : List ℕ) → split_double c cur (c ∷ c ∷ xs) ≡ cur ∷ split_double c [] xs
  unfolding split_double
  split_double_cut cur xs = let e : (c == c) ≡ true = ground arith in rw (e, split_double)

  split_double-Lacks : (cur xs : List ℕ) → Lacks c xs → split_double c cur xs ≡ (cur ++ xs) ∷ []
  split_double-Lacks cur [] h = unfold split_double in rw append-nil
  split_double-Lacks cur (x ∷ []) h = unfold split_double in refl
  split_double-Lacks cur (x ∷ y ∷ xs) (p, h) =
      split_double_next x y cur xs p
      ∙ split_double-Lacks (cur ++ x ∷ []) (y ∷ xs) h
      ∙ ap (λ (l : List ℕ). l ∷ []) (append_assoc cur (x ∷ []) (y ∷ xs))

  split_double-join :
      (cur xs ys : List ℕ)
      → Lacks c xs
      → Lacks c ys
      → split_double c cur (xs ++ c ∷ c ∷ ys) ≡ (cur ++ xs) ∷ ys ∷ []
  split_double-join cur [] ys h k =
      split_double_cut cur ys ∙ rw (append-nil, split_double-Lacks [] ys k)
  split_double-join cur (x ∷ []) ys (p, h) k =
      split_double_next x c cur (c ∷ ys) p
      ∙ split_double_cut (cur ++ x ∷ []) ys
      ∙ rw (split_double-Lacks [] ys k)
  split_double-join cur (x ∷ y ∷ xs) ys (p, h) k =
      split_double_next x y cur (xs ++ c ∷ c ∷ ys) p
      ∙ split_double-join (cur ++ x ∷ []) (y ∷ xs) ys h k
      ∙ ap (λ (l : List ℕ). l ∷ ys ∷ []) (append_assoc cur (x ∷ []) (y ∷ xs))

  has_double-join : (xs ys : List ℕ) → has_double c (xs ++ c ∷ c ∷ ys) ≡ true
  unfolding has_double
  has_double-join [] ys = ground arith
  has_double-join (x ∷ []) ys = ground arith
  has_double-join (x ∷ y ∷ xs) ys = ground (arith, has_double-join (y ∷ xs) ys)

pub eq_codes→eq : (xs ys : List ℕ) → eq_codes xs ys ≡ true → xs ≡ ys
eq_codes→eq [] [] h = refl
eq_codes→eq (x ∷ xs) (y ∷ ys) h = ground (arith, eq_codes→eq xs ys)
eq_codes→eq [] (y ∷ ys) h = cc
eq_codes→eq (x ∷ xs) [] h = cc

Clean : List ℕ → Type 0
Clean t = Lacks colon t × Lacks underscore t × (t ≢ [])

-- A type that makes a filter has no colon and no underscore, and is not empty.
is_filter_type-Clean : (t : List ℕ) → is_filter_type t ≡ true → Clean t
unfolding Clean
is_filter_type-Clean t h = elim (Bool-cases (eq_codes t (codes "filter"))) [
  | inl e ↦ rw (eq_codes→eq t _ e) (omega arith, omega arith, λ q. cc)
  | inr e ↦ elim (Bool-cases (eq_codes t (codes "multi-filter"))) [
    | inl f ↦ rw (eq_codes→eq t _ f) (omega arith, omega arith, λ q. cc)
    | inr f ↦
        rw (eq_codes→eq t (codes "multiFilter") (ground arith)) (omega arith, omega arith, λ q. cc)
  ]
]

has_double-Lacks : (c : ℕ) (xs : List ℕ) → Lacks c xs → has_double c xs ≡ false
unfolding has_double
has_double-Lacks c [] h = refl
has_double-Lacks c (x ∷ []) h = refl
has_double-Lacks c (x ∷ y ∷ xs) (p, h) = ground (arith, has_double-Lacks c (y ∷ xs) h)

or_else_text : (t u : List ℕ) → t ≢ [] → or_else t u ≡ t
or_else_text [] u h = absurd (h refl)
or_else_text (x ∷ t) u h = refl

Lacks-append : (c : ℕ) (xs ys : List ℕ) → Lacks c xs → Lacks c ys → Lacks c (xs ++ ys)
Lacks-append c [] ys h k = k
Lacks-append c (x ∷ xs) ys (p, h) k = (p, Lacks-append c xs ys h k)

module _ (b : ℕ) (base t : List ℕ) (is_type : is_filter_type t ≡ true) where
  -- A column called `base::type`, for one of the filter types and a base with no colon, is a filter
  -- of that type, and its name without the type is the base.
  column_name_colon :
      Lacks colon (b ∷ base)
      → (column_name_without_type (b ∷ base ++ colon ∷ colon ∷ t) ≡ b ∷ base)
        × (filter_type (b ∷ base ++ colon ∷ colon ∷ t) ≡ t)
  unfolding column_name_without_type filter_type Clean
  column_name_colon h =
      let (no_colon, no_underscore, some_type) = is_filter_type-Clean t is_type in
      let name = b ∷ base ++ colon ∷ colon ∷ t in
      let parts = split_double-join colon [] (b ∷ base) t h no_colon in
      let double = has_double-join colon (b ∷ base) t in
      (rw (double, parts, is_type), rw parts (or_else_text t _ some_type))

  -- Likewise for `base__type` and a base with neither colon nor underscore.
  column_name_underscore :
      Lacks colon (b ∷ base)
      → Lacks underscore (b ∷ base)
      → (column_name_without_type (b ∷ base ++ underscore ∷ underscore ∷ t) ≡ b ∷ base)
        × (filter_type (b ∷ base ++ underscore ∷ underscore ∷ t) ≡ t)
  unfolding column_name_without_type filter_type Clean
  column_name_underscore h k =
      let (no_colon, no_underscore, some_type) = is_filter_type-Clean t is_type in
      let name = b ∷ base ++ underscore ∷ underscore ∷ t in
      let lacks : Lacks colon name =
        Lacks-append colon (b ∷ base) (underscore ∷ underscore ∷ t) h
          (omega arith, (omega arith, no_colon)) in
      let parts = split_double-join underscore [] (b ∷ base) t k no_underscore in
      let whole = split_double-Lacks colon [] name lacks in
      (
        rw (
          has_double-Lacks colon name lacks,
          has_double-join underscore (b ∷ base) t,
          parts,
          is_type,
        ),
        rw (whole, parts),
      )
