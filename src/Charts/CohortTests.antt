-- ===== src/Charts/CohortTests.antt =====
-- The theorems of a cohort at concrete items, with days for moments.
use mxzz_bi.Prelude.{
  ℕ, ◌-◌, ◌≤◌, String, ◌≡◌, refl, ap, Bool-cases, true, inl, inr, Option, some, List, [], ◌∷◌, leb,
  get_elem?, ◌==◌, if◌then◌else◌, arith, pos, neg,
}
use mxzz_bi.Charts.Cohort.{
  Cells, Calendar, Item, Group, number, undefined, simple, Options, minus, group_data, add_items,
  add_item, moment_interval, prepare_simple_data, prepare_diagonal_data, min_of, max_of,
}
use mxzz_bi.Charts.Cohort.Placed.{
  CountsUnit, prepare_simple_data_placed, prepare_diagonal_data_placed,
}

abbrev cells : Cells ℕ ℕ ℕ
cells = record {
  cell = λ row col. row;
  parse_int = λ c. some (pos c);
  parse_float = λ c. c;
  whole = λ n. some (pos n);
}

abbrev day_key : ℕ → String
day_key n = if n == 0 then "0" else if n == 2 then "2" else "other"

abbrev days : Calendar ℕ ℕ
days = record { moment = λ c. c; key_of = day_key; diff = λ unit a b. some (minus a b) }

minus_later : (a b : ℕ) → a ≤ b → minus b a ≡ pos (b - a)
minus_later a b h = let e : leb a b ≡ true = ground (arith, h) in rw e refl

minus_earlier : (a b : ℕ) → a ≤ b → minus a b ≡ neg (b - a)
minus_earlier a b h = elim (Bool-cases (leb b a)) [
  | inl e ↦
      let p : a - b ≡ 0 = ground (arith, e, h) in
      let q : b - a ≡ 0 = ground (arith, e, h) in rw (e, p, q) refl
  | inr e ↦ rw e refl
]

days-CountsUnit : (unit : Option String) → CountsUnit days unit (λ n. n)
days-CountsUnit unit = record {
  later = λ a b h. ap some (minus_later a b h);
  earlier = λ a b h. ap some (minus_earlier a b h);
}

abbrev daily : Options
daily = record {
  time_interval = "daily";
  mode = simple;
  date_column = "date";
  stage_column = "stage";
  total_column = "total";
  value_column = "value";
}

abbrev item : ℕ → ℕ → ℕ → Item ℕ ℕ
item date stage value = record { date = date; stage = some (pos stage); total = 9; value = value }

-- The day after the first one is missing, and the last day has no value for the second stage.
abbrev items : List (Item ℕ ℕ)
items = item 0 1 8 ∷ item 0 2 7 ∷ item 2 1 6 ∷ []

abbrev first_day : Group ℕ
first_day = record {
  key = "0";
  date = 0;
  total = pos 9;
  values = (some (pos 2), some (pos 7)) ∷ (some (pos 1), some (pos 8)) ∷ [];
}

abbrev last_day : Group ℕ
last_day = record { key = "2"; date = 2; total = pos 9; values = (some (pos 1), some (pos 6)) ∷ [] }

groups : group_data cells days items ≡ first_day ∷ last_day ∷ []
unfolding group_data add_items add_item
groups = refl

prepare_simple_data_placed_example :
    get_elem? (prepare_simple_data cells days items daily) 2
    ≡ some (number (pos 9) ∷ number (pos 6) ∷ undefined ∷ [])
unfolding min_of max_of
prepare_simple_data_placed_example =
    prepare_simple_data_placed cells days (λ n. n) daily items (first_day ∷ []) last_day []
      (days-CountsUnit (moment_interval "daily")) groups (omega arith, tt)

prepare_diagonal_data_placed_example :
    get_elem? (prepare_diagonal_data cells days items daily) 2
    ≡ some (number (pos 9) ∷ number (pos 6) ∷ [])
unfolding min_of
prepare_diagonal_data_placed_example =
    prepare_diagonal_data_placed cells days (λ n. n) daily items (pos 1) (first_day ∷ []) last_day
      [] (days-CountsUnit (moment_interval "daily")) refl groups (omega arith, tt)
