-- ===== src/Parameters/Tests.antt =====
-- The theorems of the parameters at concrete inputs: moments are two days, numbers two digits.
use Prim.Native.Char.{Char, code}
use Prim.Native.String
use mathlib.Core.Option
use mxzz_bi.Prelude.{
  ℕ, String, ◌≡◌, refl, Bool, true, false, Option, none, some, List, [], ◌∷◌, str_eq, ◌==◌,
  if◌then◌else◌, ◌-◌, ◌*◌, ◌+◌, ◌%◌, ◌≤◌, arith,
}
use mxzz_bi.Parameters.Normalize.{
  normalize_date, DateFormat, day_format, Item, str, nr, Value, undefined, null, num, text, list,
  moment, dates, Env, enum_kind, date_kind, date_range_kind, dynamic_key, normalize,
  normalize_range, pair_of, stored_range, stored,
}
use mxzz_bi.Parameters.Dates.{Lawful}
use mxzz_bi.Parameters.Restore.{stored-normalize}
use mxzz_bi.Parameters.Object.{Parameter, node, Locals, no_locals, with_local, root}
use mxzz_bi.Parameters.Values.{Calendar, dynamic_date_range}
use mxzz_bi.Parameters.Ranges.{LawfulCalendar, dynamic_date_range-InOrder}
use mxzz_bi.Parameters.Url.{
  Json, truthy_text, url_param, range_param, to_url_params, from_url_params,
}
use mxzz_bi.Parameters.RoundTrip.{LawfulUrl, from_url_params-to_url_params}

abbrev day : Bool → String
day false = "2026-01-01"
day true = "2026-01-02"

abbrev digit : Bool → String
digit false = "0"
digit true = "1"

read_day : String → Option Bool
read_day s =
    if str_eq s "2026-01-01" then some false else if str_eq s "2026-01-02" then some true else none

read_digit : String → Option Bool
read_digit s = if str_eq s "0" then some false else if str_eq s "1" then some true else none

abbrev show : Value Bool Bool → String
show (text s) = s
show (num n) = digit n
show _ = ""

number : Value Bool Bool → Option Bool
unfolding read_digit
number (num n) = some n
number (text s) = read_digit s
number _ = none

moment_at : Value Bool Bool → Option Bool
unfolding read_day
moment_at (text s) = read_day s
moment_at (moment m) = some m
moment_at _ = none

abbrev two_days : Env Bool Bool
two_days = record {
  to_string = show;
  to_number = number;
  moment_of = moment_at;
  format = λ f m. day m;
}

two_days-read :
    (f : DateFormat) (m : Bool)
    → (n : Bool) × (two_days.moment_of (text (two_days.format f m)) ≡ some n)
      × (two_days.format f n ≡ two_days.format f m)
unfolding moment_at read_day
two_days-read f true = (true, refl, refl)
two_days-read f false = (false, refl, refl)

two_days_dynamic :
    (keys : List String) (f : DateFormat) (m : Bool) → dynamic_key keys (two_days.format f m) ≡ none
unfolding dynamic_key
two_days_dynamic keys f true = refl
two_days_dynamic keys f false = refl

two_days-Lawful : Lawful two_days
unfolding number moment_at
two_days-Lawful = record {
  to_string_text = λ s. refl;
  to_string_null = refl;
  to_number_num = λ n. refl;
  moment_null = refl;
  moment_moment = λ m. refl;
  read_format = two_days-read;
  format_not_dynamic = two_days_dynamic;
}

-- An array as text, each character of a text behind a sign.
quoted : String → String → String
quoted String.[] rest = String.◌∷◌ ";" rest
quoted (String.◌∷◌ c s) rest = String.◌∷◌ "+" (String.◌∷◌ c (quoted s rest))

write_items : List (Item Bool) → String
unfolding quoted
write_items [] = ""
write_items (nr true ∷ xs) = String.◌∷◌ "1" (write_items xs)
write_items (nr false ∷ xs) = String.◌∷◌ "0" (write_items xs)
write_items (str s ∷ xs) = String.◌∷◌ "s" (quoted s (write_items xs))

abbrev end_text : Option (List (Item Bool)) → Option (String × List (Item Bool))
end_text none = none
end_text (some xs) = some ("", xs)

abbrev push_char : Char → Option (String × List (Item Bool)) → Option (String × List (Item Bool))
push_char c none = none
push_char c (some (s, xs)) = some (String.◌∷◌ c s, xs)

abbrev push_text : Option (String × List (Item Bool)) → Option (List (Item Bool))
push_text none = none
push_text (some (s, xs)) = some (str s ∷ xs)

mutual
  read_items : String → Option (List (Item Bool))
  read_items String.[] = some []
  read_items (String.◌∷◌ c s) = elim (code c == b's') [
    | true ↦ push_text (read_quoted s)
    | false ↦ Option.map (nr (code c == b'1') ∷◌) (read_items s)
  ]

  read_quoted : String → Option (String × List (Item Bool))
  read_quoted String.[] = none
  read_quoted (String.◌∷◌ c s) = elim (code c == b';') [
    | true ↦ end_text (read_items s)
    | false ↦ read_char s
  ]

  read_char : String → Option (String × List (Item Bool))
  read_char String.[] = none
  read_char (String.◌∷◌ c s) = push_char c (read_quoted s)

read_quoted-quoted :
    (s rest : String) (xs : List (Item Bool))
    → read_items rest ≡ some xs
    → read_quoted (quoted s rest) ≡ some (s, xs)
unfolding read_items quoted
read_quoted-quoted String.[] rest xs h = rw h
read_quoted-quoted (String.◌∷◌ c s) rest xs h = rw (read_quoted-quoted s rest xs h)

read_items-write_items : (xs : List (Item Bool)) → read_items (write_items xs) ≡ some xs
unfolding read_items write_items
read_items-write_items [] = refl
read_items-write_items (nr true ∷ xs) = rw (read_items-write_items xs)
read_items-write_items (nr false ∷ xs) = rw (read_items-write_items xs)
read_items-write_items (str s ∷ xs) =
    rw (read_quoted-quoted s (write_items xs) xs (read_items-write_items xs))

split_joined : String → List String
split_joined s =
    if str_eq s "2026-01-01--2026-01-01"
    then "2026-01-01" ∷ "2026-01-01" ∷ []
    else if str_eq s "2026-01-01--2026-01-02"
    then "2026-01-01" ∷ "2026-01-02" ∷ []
    else if str_eq s "2026-01-02--2026-01-01"
    then "2026-01-02" ∷ "2026-01-01" ∷ []
    else if str_eq s "2026-01-02--2026-01-02"
    then "2026-01-02" ∷ "2026-01-02" ∷ []
    else s ∷ []

split_days : String → List String
unfolding split_joined
split_days String.[] = "" ∷ []
split_days (String.◌∷◌ c s) = elim (code c == b'd') [
  | true ↦ String.◌∷◌ c s ∷ []
  | false ↦ split_joined (String.◌∷◌ c s)
]

abbrev day_json : Json Bool
day_json = record { stringify = write_items; parse = read_items; split_range = split_days }

split_days-day :
    (f : DateFormat) (a b : Bool)
    → split_days (String.◌++◌ (day a) (String.◌++◌ "--" (day b))) ≡ day a ∷ day b ∷ []
unfolding split_days
split_days-day f true true = refl
split_days-day f true false = refl
split_days-day f false true = refl
split_days-day f false false = refl

truthy_day : (f : DateFormat) (m : Bool) → truthy_text two_days day_json (day m) ≡ true
truthy_day f true = refl
truthy_day f false = refl

number-digit : (n : Bool) → number (text (digit n)) ≡ some n
unfolding number read_digit
number-digit true = refl
number-digit false = refl

two_days-LawfulUrl : LawfulUrl two_days day_json
unfolding split_days
two_days-LawfulUrl = record {
  to_number_text = number-digit;
  parse_stringify = read_items-write_items;
  format_truthy = truthy_day;
  split_format = split_days-day;
  split_key = λ k h. refl;
}

abbrev tags : Parameter Bool Bool
tags = record {
  name = "tags";
  title = "Tags";
  global = false;
  kind = enum_kind (some "a\nb") (some (record { separator = none; prefix = none; suffix = none }));
  value = null;
  normalized_value = null;
  pending_value = undefined;
  url_prefix = "p_";
}

abbrev period : Parameter Bool Bool
period = record tags { name = "period"; kind = date_range_kind day_format }

-- A dashboard's parameter over a widget's.
abbrev below : Locals Bool Bool
below = with_local (node tags no_locals) no_locals

stored-normalize_example :
    stored two_days (date_kind day_format true) (
      normalize two_days (date_kind day_format true) (
        stored two_days
          (date_kind day_format true)
          (normalize two_days (date_kind day_format true) (text "d_now"))))
    ≡ stored two_days
        (date_kind day_format true)
        (normalize two_days (date_kind day_format true) (text "d_now"))
unfolding normalize normalize_date dynamic_key
stored-normalize_example =
    stored-normalize two_days two_days-Lawful (date_kind day_format true) (text "d_now") refl

from_url_params-to_url_params_example :
    (root (
      from_url_params two_days day_json
        (("p_period", "2026-01-01--2026-01-02") ∷ [])
        (node period below))).value
    ≡ dates "2026-01-01" "2026-01-02"
unfolding stored normalize normalize_range moment_at pair_of read_day to_url_params url_param
    range_param stored_range
from_url_params-to_url_params_example =
    from_url_params-to_url_params two_days day_json two_days-Lawful two_days-LawfulUrl
      (("p_period", "2026-01-01--2026-01-02") ∷ [])
      (list (str "2026-01-01" ∷ str "2026-01-02" ∷ [])) period below refl refl refl refl

-- Moments as seconds, every unit ten seconds long.
abbrev seconds : Calendar ℕ
seconds = record {
  subtract = λ n u m. m - n * 10;
  start_of = λ u m. m - m % 10;
  end_of = λ u m. m + 9;
}

seconds-LawfulCalendar : LawfulCalendar seconds (λ a b. a ≤ b)
seconds-LawfulCalendar = record {
  trans = λ a b c h k. omega arith;
  start_of_before = λ u m. omega arith;
  end_of_after = λ u m. omega arith;
  subtract_before = λ n m. omega arith;
  start_of-subtract_mono = λ u a b k h. omega arith;
}

dynamic_date_range-InOrder_example :
    (dynamic_date_range seconds "last_week" 100 101).0
    ≤ (dynamic_date_range seconds "last_week" 100 101).1
dynamic_date_range-InOrder_example =
    dynamic_date_range-InOrder seconds (λ a b. a ≤ b) seconds-LawfulCalendar "last_week" 100 101
      (omega arith)
