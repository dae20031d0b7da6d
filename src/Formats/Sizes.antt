-- ===== src/Formats/Sizes.antt =====
-- lib/utils.js: the units of sizes.
use mathlib.Core.Option.{some-ne-none}
use mxzz_bi.Prelude.{
  ℕ, zero, suc, ◌+◌, ◌-◌, ◌*◌, ◌/◌, ◌≤◌, ◌<◌, ◌≡◌, refl, sym, ◌↔◌, inl, inr, none, leb, get_elem?,
  Bool-cases, arith, leb→le,
}
use mxzz_bi.Formats.{unit_of, units, pretty_unit}

-- 1024 to the power of `k`
abbrev pub kib : ℕ → ℕ
kib zero = 1
kib (suc k) = 1024 * kib k

kib_pos : (k : ℕ) → 1 ≤ kib k
kib_pos zero = omega arith
kib_pos (suc k) = omega (arith, kib_pos k)

-- With fuel for every byte, the unit is the last one that the bytes fill.
pub unit_of_fills :
    (fuel b : ℕ) → b ≤ fuel → 1 ≤ b → (kib (unit_of fuel b) ≤ b) × (b < kib (suc (unit_of fuel b)))
unfolding unit_of
unit_of_fills zero b h p = absurd (omega arith)
unit_of_fills (suc fuel) b h p = elim (Bool-cases (leb 1024 b)) [
  | inl e ↦
      let l = leb→le 1024 b e in
      let ih = unit_of_fills fuel (b / 1024) (omega arith) (omega arith) in
      rw e (omega (arith, ih.0), omega (arith, ih.1))
  | inr e ↦ let l : b < 1024 = ground arith in rw e (omega arith, omega arith)
]

kib_mono : (k m : ℕ) → kib m ≤ kib (k + m)
kib_mono zero m = let e : zero + m ≡ m = omega arith in rw e (omega arith)
kib_mono (suc k) m =
    let e : suc k + m ≡ suc (k + m) = omega arith in
    rw e (omega (arith, kib_mono k m, kib_pos (k + m)))

no_unit : (u : ℕ) → 6 ≤ u → get_elem? units u ≡ none
no_unit zero h = absurd (omega arith)
no_unit (suc zero) h = absurd (omega arith)
no_unit (suc (suc zero)) h = absurd (omega arith)
no_unit (suc (suc (suc zero))) h = absurd (omega arith)
no_unit (suc (suc (suc (suc zero)))) h = absurd (omega arith)
no_unit (suc (suc (suc (suc (suc zero))))) h = absurd (omega arith)
no_unit (suc (suc (suc (suc (suc (suc u)))))) h = refl

has_unit : (u : ℕ) → get_elem? units u ≡ none → 6 ≤ u
has_unit zero h = absurd (some-ne-none _ h)
has_unit (suc zero) h = absurd (some-ne-none _ h)
has_unit (suc (suc zero)) h = absurd (some-ne-none _ h)
has_unit (suc (suc (suc zero))) h = absurd (some-ne-none _ h)
has_unit (suc (suc (suc (suc zero)))) h = absurd (some-ne-none _ h)
has_unit (suc (suc (suc (suc (suc zero))))) h = absurd (some-ne-none _ h)
has_unit (suc (suc (suc (suc (suc (suc u)))))) h = omega arith

unit_from : (b u : ℕ) → 1 ≤ b → u ≤ unit_of b b → kib u ≤ b
unit_from b u p h =
    let v = unit_of b b in
    let e : (v - u) + u ≡ v = omega arith in
    let m : kib u ≤ kib v = rw (sym e) (kib_mono (v - u) u) in
    omega (arith, m, (unit_of_fills b b (omega arith) p).0)

unit_to : (b u : ℕ) → 1 ≤ b → kib u ≤ b → u ≤ unit_of b b
unit_to b u p h =
    let v = unit_of b b in
    elim (Bool-cases (leb u v)) [
      | inl e ↦ leb→le u v e
      | inr e ↦
          let l : v < u = ground arith in
          let f : (u - suc v) + suc v ≡ u = omega arith in
          let m : kib (suc v) ≤ kib u = rw (sym f) (kib_mono (u - suc v) (suc v)) in
          absurd (omega (arith, m, (unit_of_fills b b (omega arith) p).1))
    ]

-- A size has a unit just when it is below 1024 petabytes: above that, the units are read past their end.
pretty_unit-none : (b : ℕ) → 1 ≤ b → (pretty_unit b ≡ none) ↔ (kib 6 ≤ b)
unfolding pretty_unit
pretty_unit-none b p =
    (λ h. unit_from b 6 p (has_unit (unit_of b b) h), λ h. no_unit (unit_of b b) (unit_to b 6 p h))
