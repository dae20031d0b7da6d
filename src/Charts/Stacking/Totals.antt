-- ===== src/Charts/Stacking/Totals.antt =====
-- updateData.js: what stacking adds up.
use mxzz_bi.Prelude.{
  String, ◌≡◌, refl, sym, ap, ap₂, ◌∙◌, false, not, ◌&&◌, Option, none, some, List, [], ◌∷◌, ◌++◌,
  map, str_eq, eq_iff, eq_refl, if◌then◌else◌, Bool-cases, neither, inl, inr,
}
use mxzz_bi.Parameters.Normalize.{member}
use mxzz_bi.Charts.Stacking.{
  Numbers, Series, Options, is_none, total_at, set_total, stacked, next_total, stack_values,
  stack_series,
}

-- No x twice.
abbrev pub Distinct : List String → Type 0
Distinct [] = Unit {0}
Distinct (x ∷ xs) = (member x xs ≡ false) × Distinct xs

pub not_other_way : (x z : String) → str_eq x z ≡ false → str_eq z x ≡ false
not_other_way x z h = elim (Bool-cases (str_eq z x)) [
  | inl e ↦ let k = ap (str_eq x) ((eq_iff z x).0 e) ∙ eq_refl x in cc
  | inr e ↦ e
]

module _ {Num : Type 0} (numbers : Numbers Num) where
  total_at-set_same :
      (x : String) (n : Num) (ns : List (String × Num))
      → total_at numbers x (set_total numbers x n ns) ≡ n
  total_at-set_same x n [] = rw (eq_refl x) refl
  total_at-set_same x n ((k, m) ∷ ns) = elim (Bool-cases (str_eq x k)) [
    | inl e ↦ rw (e, e) refl
    | inr e ↦ rw (e, e) (total_at-set_same x n ns)
  ]

  total_at-set_other :
      (x z : String) (n : Num) (ns : List (String × Num))
      → str_eq z x ≡ false
      → total_at numbers z (set_total numbers x n ns) ≡ total_at numbers z ns
  total_at-set_other x z n [] h = rw h refl
  total_at-set_other x z n ((k, m) ∷ ns) h = elim (Bool-cases (str_eq x k)) [
    | inl e ↦
        let g : str_eq z k ≡ false = ap (str_eq z) (sym ((eq_iff x k).0 e)) ∙ h in rw (e, g) refl
    | inr e ↦ elim (Bool-cases (str_eq z k)) [
      | inl f ↦ rw (e, f) refl
      | inr f ↦ rw (e, f) (total_at-set_other x z n ns h)
    ]
  ]

  module _ (options : Options) where
    -- What a value counts for: itself, or zero or nothing where it is missing.
    abbrev pub counted : Option Num → List Num
    counted none = if options.missing_values_as_zero then numbers.zero ∷ [] else []
    counted (some n) = n ∷ []

    -- The sum of a pile of values, the uppermost first.
    abbrev pub sum_of : List Num → Num
    sum_of [] = numbers.zero
    sum_of (n ∷ ns) = numbers.add n (sum_of ns)

    -- What is shown of values put on a pile: the sum of all that is there then.
    abbrev pub put_on : (pile put : List Num) → Option Num
    put_on pile [] = none
    put_on pile (n ∷ ns) = some (sum_of (n ∷ ns ++ pile))

    -- A pile for each x, and a value for each.
    abbrev pub stacked_row : List (List Num) → List (Option Num) → List (Option Num)
    stacked_row [] ys = []
    stacked_row (p ∷ ps) [] = []
    stacked_row (p ∷ ps) (y ∷ ys) = put_on p (counted y) ∷ stacked_row ps ys

    abbrev pub next_row : List (List Num) → List (Option Num) → List (List Num)
    next_row [] ys = []
    next_row (p ∷ ps) [] = p ∷ ps
    next_row (p ∷ ps) (y ∷ ys) = (counted y ++ p) ∷ next_row ps ys

    -- The rows of the series, one after the other put on the piles.
    abbrev pub stacked_rows : List (List Num) → List (List (Option Num)) → List (List (Option Num))
    stacked_rows ps [] = []
    stacked_rows ps (ys ∷ rows) = stacked_row ps ys ∷ stacked_rows (next_row ps ys) rows

    stacked-sum_of :
        (p : List Num) (y : Option Num)
        → stacked numbers options (sum_of p) y ≡ put_on p (counted y)
    stacked-sum_of p none = elim (Bool-cases options.missing_values_as_zero) [
      | inl e ↦ simp e
      | inr e ↦ simp e
    ]
    stacked-sum_of p (some n) = refl

    next_total-sum_of :
        (p : List Num) (y : Option Num)
        → next_total numbers options (sum_of p) y ≡ sum_of (counted y ++ p)
    next_total-sum_of p none = elim (Bool-cases options.missing_values_as_zero) [
      | inl e ↦ simp e
      | inr e ↦ simp e
    ]
    next_total-sum_of p (some n) = refl

    -- The totals kept by x are the sums of the piles.
    abbrev pub Agree : List String → List (List Num) → List (String × Num) → Type 0
    Agree [] [] totals = Unit {0}
    Agree [] (t ∷ ts) totals = ⊥
    Agree (x ∷ xs) [] totals = ⊥
    Agree (x ∷ xs) (t ∷ ts) totals = (total_at numbers x totals ≡ sum_of t) × Agree xs ts totals

    -- The totals after the value `y` at `x`.
    abbrev after : String → Option Num → List (String × Num) → List (String × Num)
    after x y totals =
        if is_none y && not options.missing_values_as_zero
        then totals
        else set_total numbers x (next_total numbers options (total_at numbers x totals) y) totals

    after_same :
        (x : String) (y : Option Num) (totals : List (String × Num))
        → total_at numbers x (after x y totals)
          ≡ next_total numbers options (total_at numbers x totals) y
    after_same x y totals = elim (Bool-cases (is_none y && not options.missing_values_as_zero)) [
      | inl e ↦ rw e refl
      | inr e ↦ rw e (total_at-set_same x _ totals)
    ]

    after_other :
        (x z : String) (y : Option Num) (totals : List (String × Num))
        → str_eq z x ≡ false
        → total_at numbers z (after x y totals) ≡ total_at numbers z totals
    after_other x z y totals h =
        elim (Bool-cases (is_none y && not options.missing_values_as_zero)) [
          | inl e ↦ rw e refl
          | inr e ↦ rw e (total_at-set_other x z _ totals h)
        ]

    Agree-after :
        (x : String) (xs : List String) (y : Option Num) (ts : List (List Num))
        (totals : List (String × Num))
        → member x xs ≡ false
        → Agree xs ts totals
        → Agree xs ts (after x y totals)
    Agree-after x [] y [] totals n h = tt
    Agree-after x [] y (t ∷ ts) totals n h = absurd h
    Agree-after x (z ∷ xs) y [] totals n h = absurd h
    Agree-after x (z ∷ xs) y (t ∷ ts) totals n (e, h) =
        let (p, q) = neither (str_eq x z) (member x xs) n in
        (after_other x z y totals (not_other_way x z p) ∙ e, Agree-after x xs y ts totals q h)

    stack_values_other :
        (z : String) (xs : List String) (ys : List (Option Num)) (totals : List (String × Num))
        → member z xs ≡ false
        → total_at numbers z (stack_values numbers options xs ys totals).1
          ≡ total_at numbers z totals
    unfolding stack_values
    stack_values_other z xs [] totals n = refl
    stack_values_other z [] (y ∷ ys) totals n = refl
    stack_values_other z (x ∷ xs) (y ∷ ys) totals n =
        let (p, q) = neither (str_eq z x) (member z xs) n in
        stack_values_other z xs ys (after x y totals) q ∙ after_other x z y totals p

    stack_values-Agree :
        (xs : List String) (ys : List (Option Num)) (ts : List (List Num))
        (totals : List (String × Num))
        → Distinct xs
        → Agree xs ts totals
        → (let own = stack_values numbers options xs ys totals in
            (own.0 ≡ stacked_row ts ys) × Agree xs (next_row ts ys) own.1)
    unfolding stack_values
    stack_values-Agree [] [] [] totals d h = (refl, tt)
    stack_values-Agree [] (y ∷ ys) [] totals d h = (refl, tt)
    stack_values-Agree [] ys (t ∷ ts) totals d h = absurd h
    stack_values-Agree (x ∷ xs) ys [] totals d h = absurd h
    stack_values-Agree (x ∷ xs) [] (t ∷ ts) totals d h = (refl, h)
    stack_values-Agree (x ∷ xs) (y ∷ ys) (t ∷ ts) totals (n, d) (e, h) =
        let (p, q) =
          stack_values-Agree xs ys ts (after x y totals) d (Agree-after x xs y ts totals n h) in
        (
          ap₂ (λ u rest. stacked numbers options u y ∷ rest) e p
              ∙ ap (◌∷ stacked_row ts ys) (stacked-sum_of t y),
          (
            stack_values_other x xs ys (after x y totals) n
                ∙ after_same x y totals
                ∙ ap (λ u. next_total numbers options u y) e
                ∙ next_total-sum_of t y,
            q,
          ),
        )

    -- Series that have their values at the same x.
    abbrev pub AllAt : List String → List (Series Num) → Type 0
    AllAt xs [] = Unit {0}
    AllAt xs (s ∷ ss) = (s.xs ≡ xs) × AllAt xs ss

    pub ys-stack_series :
        (xs : List String) (ts : List (List Num)) (ss : List (Series Num))
        (totals : List (String × Num))
        → Distinct xs
        → AllAt xs ss
        → Agree xs ts totals
        → map (λ s. s.ys) (stack_series numbers options ss totals)
          ≡ stacked_rows ts (map (λ s. s.ys) ss)
    unfolding stack_series
    ys-stack_series xs ts [] totals d a h = refl
    ys-stack_series xs ts (s ∷ ss) totals d (e, a) h =
        let same = ap (λ zs. stack_values numbers options zs s.ys totals) e in
        let (p, q) = stack_values-Agree xs s.ys ts totals d h in
        ap₂ (◌∷◌) (ap (λ (o : List (Option Num) × List (String × Num)). o.0) same ∙ p) (
          ap
            (λ (o : List (Option Num) × List (String × Num)).
              map (λ s. s.ys) (stack_series numbers options ss o.1))
            same
          ∙ ys-stack_series xs (next_row ts s.ys) ss _ d a q)

    pub empty-Agree : (xs : List String) → Agree xs (map (λ x. []) xs) []
    empty-Agree [] = tt
    empty-Agree (x ∷ xs) = (refl, empty-Agree xs)

    pub AllAt-unified :
        (xs : List String) (ys : Series Num → List (Option Num)) (ss : List (Series Num))
        → AllAt xs (map (λ (s : Series Num). record s { xs = xs; ys = ys s }) ss)
    AllAt-unified xs ys [] = tt
    AllAt-unified xs ys (s ∷ ss) = (refl, AllAt-unified xs ys ss)
