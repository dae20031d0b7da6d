-- ===== src/Charts/Cohort/Stages.antt =====
-- viz-lib/src/visualizations/cohort/prepareData.js: the arithmetic of stages, and repeated rows.
use mxzz_bi.Prelude.{
  ℕ, zero, suc, ◌+◌, ◌-◌, ◌≡◌, refl, sym, ◌∙◌, Bool-cases, inl, inr, Option, some, List, ◌++◌, leb,
  get_elem?, arith, ℤ, pos, negsuc, pos_part, neg_part, neg,
}
use mxzz_bi.Charts.Cohort.{Shown, minus, plus, span, count, lower, lower_by, size, repeat}

pub size_neg : (n : ℕ) → size (some (neg n)) ≡ n
size_neg zero = refl
size_neg (suc n) = omega arith

pos_part-neg : (n : ℕ) → pos_part (neg n) ≡ 0
pos_part-neg zero = refl
pos_part-neg (suc n) = refl

neg_part-neg : (n : ℕ) → neg_part (neg n) ≡ n
neg_part-neg zero = refl
neg_part-neg (suc n) = refl

pos_part-minus : (a b : ℕ) → pos_part (minus a b) ≡ a - b
pos_part-minus a b = elim (Bool-cases (leb b a)) [
  | inl e ↦ rw e refl
  | inr e ↦ rw e (let h : a - b ≡ 0 = ground (arith, e) in pos_part-neg (b - a) ∙ sym h)
]

neg_part-minus : (a b : ℕ) → neg_part (minus a b) ≡ b - a
neg_part-minus a b = elim (Bool-cases (leb b a)) [
  | inl e ↦ rw e (let h : b - a ≡ 0 = ground (arith, e) in sym h)
  | inr e ↦ rw e (neg_part-neg (b - a))
]

span-lower : (f l : ℤ) → span f (plus l (negsuc 0)) ≡ span f l - 1
span-lower f l =
    let p = pos_part-minus (pos_part l + 0) (neg_part l + 1) in
    let n = neg_part-minus (pos_part l + 0) (neg_part l + 1) in omega (arith, p, n)

-- A last stage that is lowered k times leaves k stages fewer.
pub count-lower_by : (f l : ℤ) (k : ℕ) → count (some f) (lower_by k (some l)) ≡ span f l - k
count-lower_by f l zero = omega arith
count-lower_by f l (suc k) =
    let h = count-lower_by f (plus l (negsuc 0)) k in let e = span-lower f l in omega (arith, h, e)

pub span-plus : (f : ℤ) (n : ℕ) → span f (plus f (pos n)) ≡ suc n
span-plus f n =
    let p = pos_part-minus (pos_part f + n) (neg_part f + 0) in
    let q = neg_part-minus (pos_part f + n) (neg_part f + 0) in omega (arith, p, q)

pub lower-lower_by : (k : ℕ) (l : Option ℤ) → lower (lower_by k l) ≡ lower_by k (lower l)
lower-lower_by zero l = refl
lower-lower_by (suc k) l = lower-lower_by k (lower l)

pub lower_by_add : (j k : ℕ) (l : Option ℤ) → lower_by k (lower_by j l) ≡ lower_by (j + k) l
lower_by_add zero k l = let e : zero + k ≡ k = omega arith in rw e refl
lower_by_add (suc j) k l =
    let e : suc j + k ≡ suc (j + k) = omega arith in rw e (lower_by_add j k (lower l))

pub get_elem?-repeat :
    (n k : ℕ) (r : List Shown) (rs : List (List Shown))
    → get_elem? (repeat n r ++ rs) (n + k) ≡ get_elem? rs k
get_elem?-repeat zero k r rs = let e : zero + k ≡ k = omega arith in rw e refl
get_elem?-repeat (suc n) k r rs =
    let e : suc n + k ≡ suc (n + k) = omega arith in rw e (get_elem?-repeat n k r rs)
