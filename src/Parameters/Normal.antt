-- ===== src/Parameters/Normal.antt =====
-- `normalizeValue` of a value that is normalized, and the values that it never gives.
use Prim.Native.Char.{code}
use Prim.Native.String
use mxzz_bi.Prelude.{
  String, ◌≡◌, refl, Bool, true, false, Option, none, some, List, [], ◌∷◌, Bool-cases, inl, inr,
  ◌==◌,
}
use mxzz_bi.Parameters.Normalize.{
  nr, str, Value, undefined, null, num, text, list, dynamic, moment, moments, dates, inherited, Env,
  Multi, Kind, plain, text_kind, number_kind, enum_kind, query_kind, date_kind, date_range_kind,
  member, dynamic_dates, dynamic_date_ranges, options_of, split_lines, pick, normalize_enum,
  normalize_query, normalize_date, normalize_range, normalize_number, normalize_plain, list_or_null,
  text_or_null, num_or_null, normalize, as_list, intersection,
}
use mxzz_bi.Parameters.Dates.{DateShape, normalize_date-DateShape, normalize_range-DateShape}
use mxzz_bi.Parameters.Object.{is_undefined}

pub split_lines_cons :
    (cur s : String) → (x : String) × (xs : List String) × (split_lines cur s ≡ x ∷ xs)
unfolding split_lines
split_lines_cons cur String.[] = (cur, [], refl)
split_lines_cons cur (String.◌∷◌ c s) = elim (Bool-cases (code c == 10)) [
  | inl e ↦ (cur, split_lines "" s, rw (split_lines, e))
  | inr e ↦
      let (x, xs, q) = split_lines_cons (String.◌++◌ cur (String.◌∷◌ c "")) s in
      (x, xs, rw (split_lines, e, q))
]

list_or_null-defined :
    (Num Moment : Type 0) (xs : List String)
    → is_undefined {Num = Num} {Moment = Moment} (list_or_null xs) ≡ false
unfolding list_or_null
list_or_null-defined Num Moment [] = refl
list_or_null-defined Num Moment (x ∷ xs) = refl

module _ {Num Moment : Type 0} where
  pub pick_text :
      (x : String) (xs : List String) (v : Value Num Moment)
      → (t : String) × (pick (x ∷ xs) v ≡ text t)
  unfolding pick
  pick_text x xs (text String.[]) = (x, refl)
  pick_text x xs (text (String.◌∷◌ c s)) = elim (Bool-cases (member (String.◌∷◌ c s) (x ∷ xs))) [
    | inl e ↦ (String.◌∷◌ c s, rw e)
    | inr e ↦ (x, rw e)
  ]
  pick_text x xs undefined = (x, refl)
  pick_text x xs null = (x, refl)
  pick_text x xs (num n) = (x, refl)
  pick_text x xs (list l) = (x, refl)
  pick_text x xs (dynamic k) = (x, refl)
  pick_text x xs (moment m) = (x, refl)
  pick_text x xs (moments a b) = (x, refl)
  pick_text x xs (dates a b) = (x, refl)
  pick_text x xs (inherited k) = (x, refl)

  normalize_enum-defined :
      (o : Option String) (m : Option Multi) (v : Value Num Moment)
      → is_undefined (normalize_enum o m v) ≡ false
  unfolding normalize_enum
  normalize_enum-defined none m v = refl
  normalize_enum-defined (some String.[]) m v = refl
  normalize_enum-defined (some (String.◌∷◌ c s)) none v =
      let (x, xs, q) = split_lines_cons "" (String.◌∷◌ c s) in
      let (t, r) = pick_text x xs v in unfold options_of in rw (q, r)
  normalize_enum-defined (some (String.◌∷◌ c s)) (some m) v =
      list_or_null-defined Num Moment (intersection (as_list v) (options_of (String.◌∷◌ c s)))

  normalize_query-defined :
      (m : Option Multi) (v : Value Num Moment) → is_undefined (normalize_query m v) ≡ false
  unfolding normalize_query
  normalize_query-defined none undefined = refl
  normalize_query-defined none null = refl
  normalize_query-defined none (list []) = refl
  normalize_query-defined none (list (str s ∷ xs)) = refl
  normalize_query-defined none (list (nr n ∷ xs)) = refl
  normalize_query-defined none (text s) = refl
  normalize_query-defined none (num n) = refl
  normalize_query-defined none (dynamic k) = refl
  normalize_query-defined none (moment x) = refl
  normalize_query-defined none (moments a b) = refl
  normalize_query-defined none (dates a b) = refl
  normalize_query-defined none (inherited k) = refl
  normalize_query-defined (some m) undefined = refl
  normalize_query-defined (some m) null = refl
  normalize_query-defined (some m) (list []) = refl
  normalize_query-defined (some m) (list (x ∷ xs)) = refl
  normalize_query-defined (some m) (text s) = refl
  normalize_query-defined (some m) (num n) = refl
  normalize_query-defined (some m) (dynamic k) = refl
  normalize_query-defined (some m) (moment x) = refl
  normalize_query-defined (some m) (moments a b) = refl
  normalize_query-defined (some m) (dates a b) = refl
  normalize_query-defined (some m) (inherited k) = refl

  normalize_plain-defined :
      (env : Env Num Moment) (v : Value Num Moment) → is_undefined (normalize_plain env v) ≡ false
  unfolding normalize_plain
  normalize_plain-defined env undefined = refl
  normalize_plain-defined env null = refl
  normalize_plain-defined env (num n) = refl
  normalize_plain-defined env (text s) = refl
  normalize_plain-defined env (list xs) = refl
  normalize_plain-defined env (dynamic k) = refl
  normalize_plain-defined env (moment m) = refl
  normalize_plain-defined env (moments a b) = refl
  normalize_plain-defined env (dates a b) = refl
  normalize_plain-defined env (inherited k) = refl

  num_or_null-defined :
      (env : Env Num Moment) (o : Option Num) → is_undefined (num_or_null env o) ≡ false
  num_or_null-defined env none = refl
  num_or_null-defined env (some n) = refl

  text_or_null-defined :
      (env : Env Num Moment) (s : String) → is_undefined (text_or_null env s) ≡ false
  text_or_null-defined env String.[] = refl
  text_or_null-defined env (String.◌∷◌ c s) = refl

  DateShape-defined :
      (keys : List String) (p : Bool) (v : Value Num Moment)
      → DateShape Num Moment keys p v
      → is_undefined v ≡ false
  unfolding DateShape
  DateShape-defined keys p v (inl e) = rw e
  DateShape-defined keys p v (inr (inl (k, e, d))) = rw e
  DateShape-defined keys p v (inr (inr (inl (m, e, d)))) = rw e
  DateShape-defined keys p v (inr (inr (inr (inl (a, b, e, d))))) = rw e
  DateShape-defined keys p v (inr (inr (inr (inr (k, e, d))))) = rw e

  normalize_number-defined :
      (env : Env Num Moment) (v : Value Num Moment) → is_undefined (normalize_number env v) ≡ false
  unfolding normalize_number
  normalize_number-defined env null = refl
  normalize_number-defined env undefined = num_or_null-defined env (env.to_number undefined)
  normalize_number-defined env (num n) = num_or_null-defined env (env.to_number (num n))
  normalize_number-defined env (text s) = num_or_null-defined env (env.to_number (text s))
  normalize_number-defined env (list xs) = num_or_null-defined env (env.to_number (list xs))
  normalize_number-defined env (dynamic k) = num_or_null-defined env (env.to_number (dynamic k))
  normalize_number-defined env (moment m) = num_or_null-defined env (env.to_number (moment m))
  normalize_number-defined env (moments a b) = num_or_null-defined env (env.to_number (moments a b))
  normalize_number-defined env (dates a b) = num_or_null-defined env (env.to_number (dates a b))
  normalize_number-defined env (inherited k) = num_or_null-defined env (env.to_number (inherited k))

  -- A normalized value is never `undefined`, which as a pending value means that none is pending.
  normalize-defined :
      (env : Env Num Moment) (k : Kind) (v : Value Num Moment)
      → is_undefined (normalize env k v) ≡ false
  unfolding normalize
  normalize-defined env plain v = normalize_plain-defined env v
  normalize-defined env text_kind v = text_or_null-defined env (env.to_string v)
  normalize-defined env number_kind v = normalize_number-defined env v
  normalize-defined env (enum_kind o m) v = normalize_enum-defined o m v
  normalize-defined env (query_kind m) v = normalize_query-defined m v
  normalize-defined env (date_kind f now) v =
      DateShape-defined dynamic_dates false (normalize_date env v)
        (normalize_date-DateShape Num Moment env v)
  normalize-defined env (date_range_kind f) v =
      DateShape-defined dynamic_date_ranges true (normalize_range env v)
        (normalize_range-DateShape Num Moment env v)
