-- ===== src/Formats/Intervals.antt =====
-- lib/utils.js: the interval that a number of seconds is shown in.
use mxzz_bi.Prelude.{
  ℕ, zero, suc, ◌*◌, ◌%◌, ◌≤◌, ◌<◌, ◌≡◌, refl, ap, ◌∙◌, inl, inr, Bool, true, false, ◌&&◌, leb,
  ◌==◌, if◌then◌else◌, Bool-cases, ==_iff, leb→le, arith,
}
use mxzz_bi.Formats.{
  Interval, never, seconds, minutes, hours, days, weeks, Count, to_minutes, to_hours, to_days,
  to_weeks, seconds_to_interval, is_hours, is_days,
}

-- How many seconds an interval has.
abbrev pub seconds_of : Interval → ℕ
seconds_of never = 1
seconds_of seconds = 1
seconds_of minutes = 60
seconds_of hours = 3600
seconds_of days = 86400
seconds_of weeks = 604800

-- The seconds up to which an interval is used; days are used for all that is no whole number of weeks.
abbrev pub Range : Interval → ℕ → Type 0
Range never n = n ≡ 0
Range seconds n = n < 60
Range minutes n = (60 ≤ n) × (n < 3600)
Range hours n = (3600 ≤ n) × (n < 86400)
Range days n = 86400 ≤ n
Range weeks n = (604800 ≤ n) × (n % 604800 ≡ 0)

and_false : (b : Bool) → (b && false) ≡ false
and_false true = refl
and_false false = refl

abbrev counted : Interval → (numerator divisor : ℕ) → Count
counted i n d = record { interval = i; numerator = n; divisor = d }

if_never : (a b c : Bool) (x y : Count) → c ≡ false → (if a && b && c then x else y) ≡ y
if_never true true c x y h = rw h refl
if_never true false c x y h = refl
if_never false b c x y h = refl

if_not : (a b : Bool) (x y : Count) → (a && b) ≡ false → (if a && b && true then x else y) ≡ y
if_not true true x y h = cc
if_not true false x y h = refl
if_not false b x y h = refl

both : (a b : Bool) → (a && b) ≡ true → (a ≡ true) × (b ≡ true)
both true b h = (refl, h)
both false b h = cc

not_weeks : (i : Interval) (n d : ℕ) → is_days i ≡ false → to_weeks (counted i n d) ≡ counted i n d
not_weeks i n d k = if_never (leb (7 * d) n) (n % (7 * d) == 0) (is_days i) _ _ k

-- No count of another interval is taken for days or weeks.
short_count :
    (i : Interval) (n d : ℕ)
    → is_hours i ≡ false
    → is_days i ≡ false
    → to_weeks (to_days (counted i n d)) ≡ counted i n d
short_count i n d h k =
    let e : to_days (counted i n d) ≡ counted i n d = rw (h, and_false (leb (24 * d) n)) refl in
    ap to_weeks e ∙ not_weeks i n d k

to_interval : ℕ → Count
to_interval n = to_weeks (to_days (to_hours (to_minutes (counted seconds n 1))))

in_seconds : (n : ℕ) → leb 60 n ≡ false → to_interval n ≡ counted seconds n 1
unfolding to_interval
in_seconds n a = rw (a, a) (short_count seconds n 1 refl refl)

in_minutes : (n : ℕ) → leb 60 n ≡ true → leb 3600 n ≡ false → to_interval n ≡ counted minutes n 60
unfolding to_interval
in_minutes n a b = rw a (rw b (short_count minutes n 60 refl refl))

-- From hours on.
later : ℕ → Count
later n = to_weeks (to_days (counted hours n 3600))

from_hours : (n : ℕ) → leb 60 n ≡ true → leb 3600 n ≡ true → to_interval n ≡ later n
unfolding to_interval later
from_hours n a b = rw a (rw b refl)

in_hours : (n : ℕ) → leb 86400 n ≡ false → later n ≡ counted hours n 3600
unfolding later
in_hours n c =
    let e : to_days (counted hours n 3600) ≡ counted hours n 3600 = rw c refl in
    ap to_weeks e ∙ not_weeks hours n 3600 refl

in_days :
    (n : ℕ)
    → leb 86400 n ≡ true
    → (leb 604800 n && n % 604800 == 0) ≡ false
    → later n ≡ counted days n 86400
unfolding later
in_days n c d = rw c (if_not (leb 604800 n) (n % 604800 == 0) _ _ d)

in_weeks :
    (n : ℕ)
    → leb 86400 n ≡ true
    → leb 604800 n ≡ true
    → (n % 604800 == 0) ≡ true
    → later n ≡ counted weeks n 604800
unfolding later
in_weeks n c p q = rw c (rw (p, q) refl)

Fits : ℕ → Count → Type 0
Fits n c = (c.numerator ≡ n) × (c.divisor ≡ seconds_of c.interval) × Range c.interval n

later-Fits : (n : ℕ) → 3600 ≤ n → Fits n (later n)
unfolding Fits
later-Fits n h = elim (Bool-cases (leb 86400 n)) [
  | inr c ↦ rw (in_hours n c) (refl, refl, (h, ground arith))
  | inl c ↦ elim (Bool-cases (leb 604800 n && n % 604800 == 0)) [
    | inr d ↦ rw (in_days n c d) (refl, refl, leb→le 86400 n c)
    | inl d ↦
        let (p, q) = both (leb 604800 n) (n % 604800 == 0) d in
        rw (in_weeks n c p q) (refl, refl, (leb→le 604800 n p, (==_iff (n % 604800) 0).0 q))
  ]
]

to_interval-Fits : (n : ℕ) → Fits n (to_interval n)
unfolding Fits
to_interval-Fits n = elim (Bool-cases (leb 60 n)) [
  | inr a ↦ rw (in_seconds n a) (refl, refl, ground arith)
  | inl a ↦ elim (Bool-cases (leb 3600 n)) [
    | inr b ↦ rw (in_minutes n a b) (refl, refl, (leb→le 60 n a, ground arith))
    | inl b ↦ rw (from_hours n a b) (unfold Fits in later-Fits n (leb→le 3600 n b))
  ]
]

-- The count is that of all the seconds in the interval, and the interval is the one of their range:
-- weeks for whole numbers of weeks alone, days for all else from a day on.
seconds_to_interval_fits :
    (n : ℕ)
    → (let c = seconds_to_interval n in
        (c.numerator ≡ n) × (c.divisor ≡ seconds_of c.interval) × Range c.interval n)
unfolding seconds_to_interval
seconds_to_interval_fits zero = (refl, refl, refl)
seconds_to_interval_fits (suc n) = unfold Fits to_interval in to_interval-Fits (suc n)
