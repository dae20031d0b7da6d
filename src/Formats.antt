-- ===== src/Formats.antt =====
-- client/app/lib/utils.js: texts of intervals, sizes and names, and `remove`. Counts are whole numbers of
-- seconds and bytes; a quotient is kept as its numerator and divisor.
pub mod Intervals
pub mod Sizes
mod Tests
use mxzz_bi.Prelude.{
  ℕ, zero, suc, ◌+◌, ◌*◌, ◌/◌, ◌%◌, String, Bool, true, false, not, ◌&&◌, ◌||◌, Option, none, some,
  List, [], ◌∷◌, ◌++◌, length, take, get_elem?, filter, any, ltb, leb, ◌==◌, if◌then◌else◌,
}
use mxzz_bi.Js.{codes}

-- `name` as code points, none if it is falsy
unfoldable pub deal_ellipsis : Option (List ℕ) → List ℕ
deal_ellipsis none = codes "--"
deal_ellipsis (some []) = codes "--"
deal_ellipsis (some (c ∷ cs)) =
    if ltb 8 (length (c ∷ cs)) then take 8 (c ∷ cs) ++ codes "..." else c ∷ cs

-- `IntervalEnum`
pub data Interval : Type 0 where
  never seconds minutes hours days weeks : Interval

-- `count` is `numerator / divisor`.
pub record Count : Type 0 where
  pub interval : Interval
  pub numerator : ℕ
  pub divisor : ℕ

abbrev pub is_hours : Interval → Bool
is_hours hours = true
is_hours _ = false

abbrev pub is_days : Interval → Bool
is_days days = true
is_days _ = false

-- `count >= n`
abbrev pub at_least : ℕ → Count → Bool
at_least n c = leb (n * c.divisor) c.numerator

abbrev pub divided : ℕ → Interval → Count → Count
divided n i c = record c { interval = i; divisor = c.divisor * n }

abbrev pub to_minutes : Count → Count
to_minutes c = if at_least 60 c then divided 60 minutes c else c

abbrev pub to_hours : Count → Count
to_hours c = if at_least 60 c then divided 60 hours c else c

abbrev pub to_days : Count → Count
to_days c = if at_least 24 c && is_hours c.interval then divided 24 days c else c

-- `!(count % 7)`
abbrev pub to_weeks : Count → Count
to_weeks c =
    if at_least 7 c && c.numerator % (7 * c.divisor) == 0 && is_days c.interval
    then divided 7 weeks c
    else c

unfoldable pub seconds_to_interval : ℕ → Count
seconds_to_interval zero = record { interval = never; numerator = 0; divisor = 1 }
seconds_to_interval (suc n) = to_weeks (
    to_days (to_hours (to_minutes (record { interval = seconds; numerator = suc n; divisor = 1 }))))

-- `Math.round(count)`
abbrev pub rounded : Count → ℕ
rounded c = (2 * c.numerator + c.divisor) / (2 * c.divisor)

-- The number that is shown, if one is, with its interval; `-` for no duration.
unfoldable pub duration_humanize : (omit_single : Bool) → ℕ → Option (Option ℕ × Interval)
unfolding seconds_to_interval
duration_humanize omit_single zero = none
duration_humanize omit_single (suc n) =
    let c = seconds_to_interval (suc n) in
    some (if not (rounded c == 1) || not omit_single then some (rounded c) else none, c.interval)

-- The second argument as an array.
unfoldable pub remove {ℓ} : {A : Type ℓ} → (eq : A → A → Bool) → (items removed : List A) → List A
remove eq items removed = filter (λ other. not (any (eq other) removed)) items

-- The loop of `prettySize`: how often the bytes are divided.
unfoldable pub unit_of : (fuel bytes : ℕ) → ℕ
unit_of zero b = 0
unit_of (suc fuel) b = let rest = unit_of fuel (b / 1024) in if leb 1024 b then suc rest else 0

-- `units`
abbrev pub units : List String
units = "bytes" ∷ "KB" ∷ "MB" ∷ "GB" ∷ "TB" ∷ "PB" ∷ []

-- `units[unit]`; each division makes the bytes fewer.
unfoldable pub pretty_unit : ℕ → Option String
unfolding unit_of
pretty_unit b = get_elem? units (unit_of b b)
