-- ===== src/Parameters/Ranges.antt =====
-- DateRangeParameter.js: the ends of the dynamic ranges.
use mxzz_bi.Prelude.{ℕ, String, ◌≡◌, refl, Bool, true, false, List, [], ◌∷◌, if◌then◌else◌}
use mxzz_bi.Parameters.Normalize.{member}
use mxzz_bi.Parameters.Values.{Calendar, dynamic_date_range}

abbrev pub units : List String
units = "day" ∷ "week" ∷ "month" ∷ "year" ∷ []

-- A calendar with an order of time: a unit starts before each moment in it and ends after it, days are
-- subtracted to go back, and the unit before a moment's does not start later than the unit before a later
-- moment's. (The moments themselves may change their order: the days of a longer month are cut off.)
pub record LawfulCalendar {Moment : Type 0} (cal : Calendar Moment)
    (Before : Moment → Moment → Type 0) : Type 0 where
  pub trans : (a b c : Moment) → Before a b → Before b c → Before a c
  pub start_of_before : (u : String) (m : Moment) → Before (cal.start_of u m) m
  pub end_of_after : (u : String) (m : Moment) → Before m (cal.end_of u m)
  pub subtract_before : (n : ℕ) (m : Moment) → Before (cal.subtract n "days" m) m
  pub start_of-subtract_mono :
      (u : String) (a b : Moment)
      → member u units ≡ true
      → Before a b
      → Before (cal.start_of u (cal.subtract 1 u a)) (cal.start_of u (cal.subtract 1 u b))

module _ {Moment : Type 0} (cal : Calendar Moment) (Before : Moment → Moment → Type 0)
    (l : LawfulCalendar cal Before) where
  abbrev InOrder : Moment × Moment → Type 0
  InOrder r = Before r.0 r.1

  if-InOrder :
      (c : Bool) (r s : Moment × Moment) → InOrder r → InOrder s → InOrder (if c then r else s)
  if-InOrder true r s h k = h
  if-InOrder false r s h k = k

  whole-InOrder :
      (u : String) (a b : Moment) → Before a b → Before (cal.start_of u a) (cal.end_of u b)
  whole-InOrder u a b h =
      l.trans (cal.start_of u a) a (cal.end_of u b) (l.start_of_before u a)
        (l.trans a b (cal.end_of u b) h (l.end_of_after u b))

  last-InOrder :
      (u : String) (a b : Moment)
      → member u units ≡ true
      → Before a b
      → Before (cal.start_of u (cal.subtract 1 u a)) (cal.end_of u (cal.subtract 1 u b))
  last-InOrder u a b k h =
      let before = cal.subtract 1 u b in
      l.trans (cal.start_of u (cal.subtract 1 u a)) (cal.start_of u before) (cal.end_of u before)
        (l.start_of-subtract_mono u a b k h)
        (l.trans (cal.start_of u before) before (cal.end_of u before) (l.start_of_before u before)
          (l.end_of_after u before))

  days-InOrder : (n : ℕ) (a b : Moment) → Before a b → Before (cal.subtract n "days" a) b
  days-InOrder n a b h = l.trans (cal.subtract n "days" a) a b (l.subtract_before n a) h

  -- By a lawful calendar, when the clock is not read later for the start than for the end, every
  -- dynamic range starts before it ends.
  pub dynamic_date_range-InOrder :
      (key : String) (a b : Moment)
      → Before a b
      → Before (dynamic_date_range cal key a b).0 (dynamic_date_range cal key a b).1
  unfolding dynamic_date_range
  dynamic_date_range-InOrder key a b h = if-InOrder _ _ _ (whole-InOrder "day" a b h) (
      if-InOrder _ _ _ (last-InOrder "day" a b refl h) (
        if-InOrder _ _ _ (whole-InOrder "week" a b h) (
          if-InOrder _ _ _ (whole-InOrder "month" a b h) (
            if-InOrder _ _ _ (whole-InOrder "year" a b h) (
              if-InOrder _ _ _ (last-InOrder "week" a b refl h) (
                if-InOrder _ _ _ (last-InOrder "month" a b refl h) (
                  if-InOrder _ _ _ (last-InOrder "year" a b refl h) (
                    if-InOrder _ _ _ (days-InOrder 7 a b h) (
                      if-InOrder _ _ _ (days-InOrder 14 a b h) (
                        if-InOrder _ _ _ (days-InOrder 30 a b h) (
                          if-InOrder _ _ _ (days-InOrder 60 a b h)
                            (days-InOrder 90 a b h))))))))))))
