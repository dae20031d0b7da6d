-- ===== src/Parameters/Dates.antt =====
-- DateParameter.js and DateRangeParameter.js: what normalizing gives, and storing it again.
use Prim.Native.Char.{code}
use mxzz_bi.Prelude.{
  String, ◌≡◌, refl, ap, ap₂, ◌⊎◌, Bool, true, false, ◌&&◌, Option, none, some, List, [], ◌∷◌, ◌==◌,
  if◌then◌else◌, arith, Bool-cases, Option-cases, inl, inr,
}
use mxzz_bi.Parameters.Normalize.{
  Item, str, Value, undefined, null, num, text, list, dynamic, moment, moments, dates, Env,
  DateFormat, inherited, object_prototype, member, dynamic_dates, dynamic_date_ranges, dynamic_key,
  prefixed, moment_or_null, moments_or_null, dynamic_or, inherited_or, no_ends, of_item,
  normalize_date, normalize_range, pair_of, stored_date, stored_range,
}

-- The documented behaviour of the conversions: a text and a number convert to themselves, `null` to
-- the empty text and to no valid moment, a moment to itself, the text
-- that a moment is formatted to reads as a moment of the same text, and looks like no dynamic date.
pub record Lawful {Num Moment : Type 0} (env : Env Num Moment) : Type 0 where
  pub to_string_text : (s : String) → env.to_string (text s) ≡ s
  pub to_string_null : env.to_string null ≡ ""
  pub to_number_num : (n : Num) → env.to_number (num n) ≡ some n
  pub moment_null : env.moment_of null ≡ none
  pub moment_moment : (m : Moment) → env.moment_of (moment m) ≡ some m
  pub read_format :
      (f : DateFormat) (m : Moment)
      → (n : Moment) × (env.moment_of (text (env.format f m)) ≡ some n)
        × (env.format f n ≡ env.format f m)
  pub format_not_dynamic :
      (keys : List String) (f : DateFormat) (m : Moment) → dynamic_key keys (env.format f m) ≡ none

dynamic_key-prefixed :
    (keys : List String) (k : String)
    → dynamic_key keys (prefixed k) ≡ (if member k keys then some k else none)
unfolding dynamic_key
dynamic_key-prefixed keys k = refl

dynamic_key-member :
    (keys : List String) (s k : String) → dynamic_key keys s ≡ some k → member k keys ≡ true
unfolding dynamic_key
dynamic_key-member keys String.[] k h = cc
dynamic_key-member keys (String.◌∷◌ c String.[]) k h = cc
dynamic_key-member keys (String.◌∷◌ c (String.◌∷◌ d s)) k h =
    elim (Bool-cases (code c == b'd' && code d == b'_' && member s keys)) [
      | inl e ↦ ground (arith, e)
      | inr e ↦ ground (arith, e)
    ]

abbrev pub is_inherited : {Num Moment : Type 0} → Value Num Moment → Bool
is_inherited (inherited k) = true
is_inherited _ = false

module _ (Num Moment : Type 0) where
  -- What a normalized date, and with the other keys a normalized range, can be.
  unfoldable pub DateShape : (keys : List String) (pairs : Bool) → Value Num Moment → Type 0
  DateShape keys pairs v =
      (v ≡ null)
      ⊎ ((k : String) × (v ≡ dynamic k) × (member k keys ≡ true))
      ⊎ ((m : Moment) × (v ≡ moment m) × (pairs ≡ false))
      ⊎ ((a b : Moment) × (v ≡ moments a b) × (pairs ≡ true))
      ⊎ ((k : String) × (v ≡ inherited k) × (pairs ≡ true))

  moment_or_null-DateShape :
      (keys : List String) (o : Option Moment) → DateShape keys false (moment_or_null o)
  unfolding DateShape
  moment_or_null-DateShape keys none = inl refl
  moment_or_null-DateShape keys (some m) = inr (inr (inl (m, refl, refl)))

  moments_or_null-DateShape :
      (keys : List String) (o p : Option Moment) → DateShape keys true (moments_or_null o p)
  unfolding DateShape
  moments_or_null-DateShape keys none p = inl refl
  moments_or_null-DateShape keys (some a) none = inl refl
  moments_or_null-DateShape keys (some a) (some b) = inr (inr (inr (inl (a, b, refl, refl))))

  dynamic_or-DateShape :
      (keys : List String) (p : Bool) (s : String) (v : Value Num Moment)
      → DateShape keys p v
      → DateShape keys p (dynamic_or (dynamic_key keys s) v)
  dynamic_or-DateShape keys p s v h = elim (Option-cases (dynamic_key keys s)) [
    | inl e ↦ rw e h
    | inr (k, e) ↦ rw e (unfold DateShape in inr (inl (k, refl, dynamic_key-member keys s k e)))
  ]

  member-DateShape :
      (keys : List String) (p : Bool) (k : String) (v : Value Num Moment)
      → DateShape keys p v
      → DateShape keys p (if member k keys then dynamic k else v)
  member-DateShape keys p k v h = elim (Bool-cases (member k keys)) [
    | inl e ↦ rw e (unfold DateShape in inr (inl (k, refl, e)))
    | inr e ↦ rw e h
  ]

  null-DateShape : (keys : List String) → DateShape keys true null
  unfolding DateShape
  null-DateShape keys = inl refl

  inherited_or-DateShape :
      (keys : List String) (o : Option String) (v : Value Num Moment)
      → DateShape keys true v
      → DateShape keys true (inherited_or o v)
  unfolding DateShape
  inherited_or-DateShape keys none v h = h
  inherited_or-DateShape keys (some k) v h = inr (inr (inr (inr (k, refl, refl))))

  pub normalize_date-DateShape :
      (env : Env Num Moment) (v : Value Num Moment)
      → DateShape dynamic_dates false (normalize_date env v)
  unfolding normalize_date
  normalize_date-DateShape env (text s) =
      dynamic_or-DateShape dynamic_dates false s (moment_or_null (env.moment_of (text s)))
        (moment_or_null-DateShape dynamic_dates (env.moment_of (text s)))
  normalize_date-DateShape env (dynamic k) =
      member-DateShape dynamic_dates false k (moment_or_null (env.moment_of (dynamic k)))
        (moment_or_null-DateShape dynamic_dates (env.moment_of (dynamic k)))
  normalize_date-DateShape env undefined =
      moment_or_null-DateShape dynamic_dates (env.moment_of undefined)
  normalize_date-DateShape env null = moment_or_null-DateShape dynamic_dates (env.moment_of null)
  normalize_date-DateShape env (num n) =
      moment_or_null-DateShape dynamic_dates (env.moment_of (num n))
  normalize_date-DateShape env (list xs) =
      moment_or_null-DateShape dynamic_dates (env.moment_of (list xs))
  normalize_date-DateShape env (moment m) =
      moment_or_null-DateShape dynamic_dates (env.moment_of (moment m))
  normalize_date-DateShape env (moments a b) =
      moment_or_null-DateShape dynamic_dates (env.moment_of (moments a b))
  normalize_date-DateShape env (dates a b) =
      moment_or_null-DateShape dynamic_dates (env.moment_of (dates a b))
  normalize_date-DateShape env (inherited k) =
      moment_or_null-DateShape dynamic_dates (env.moment_of (inherited k))

  pair_of-DateShape :
      (env : Env Num Moment) (xs : List (Item Num))
      → DateShape dynamic_date_ranges true (pair_of env xs)
  unfolding pair_of
  pair_of-DateShape env [] = null-DateShape dynamic_date_ranges
  pair_of-DateShape env (a ∷ []) = null-DateShape dynamic_date_ranges
  pair_of-DateShape env (a ∷ b ∷ []) =
      moments_or_null-DateShape dynamic_date_ranges (env.moment_of (of_item a))
        (env.moment_of (of_item b))
  pair_of-DateShape env (a ∷ b ∷ c ∷ xs) = null-DateShape dynamic_date_ranges

  no_ends-DateShape : (env : Env Num Moment) → DateShape dynamic_date_ranges true (no_ends env)
  no_ends-DateShape env =
      moments_or_null-DateShape dynamic_date_ranges (env.moment_of undefined)
        (env.moment_of undefined)

  pub normalize_range-DateShape :
      (env : Env Num Moment) (v : Value Num Moment)
      → DateShape dynamic_date_ranges true (normalize_range env v)
  unfolding normalize_range
  normalize_range-DateShape env (text s) =
      dynamic_or-DateShape dynamic_date_ranges true s
        (inherited_or (dynamic_key object_prototype s) null)
        (inherited_or-DateShape dynamic_date_ranges (dynamic_key object_prototype s) null
          (null-DateShape dynamic_date_ranges))
  normalize_range-DateShape env (dynamic k) =
      member-DateShape dynamic_date_ranges true k (no_ends env) (no_ends-DateShape env)
  normalize_range-DateShape env (dates a b) = pair_of-DateShape env (str a ∷ str b ∷ [])
  normalize_range-DateShape env (list xs) = pair_of-DateShape env xs
  normalize_range-DateShape env (moments a b) =
      moments_or_null-DateShape dynamic_date_ranges (env.moment_of (moment a))
        (env.moment_of (moment b))
  normalize_range-DateShape env undefined = null-DateShape dynamic_date_ranges
  normalize_range-DateShape env null = null-DateShape dynamic_date_ranges
  normalize_range-DateShape env (num n) = null-DateShape dynamic_date_ranges
  normalize_range-DateShape env (moment m) = no_ends-DateShape env
  normalize_range-DateShape env (inherited k) = no_ends-DateShape env

  -- The stored value of a shape is stored again as it is.
  pub restored_date :
      (env : Env Num Moment)
      → Lawful env
      → (f : DateFormat) (v : Value Num Moment) → DateShape dynamic_dates false v
      → stored_date env f (normalize_date env (stored_date env f v)) ≡ stored_date env f v
  unfolding stored_date normalize_date DateShape
  restored_date env l f v (inl e) = rw (e, l.moment_null)
  restored_date env l f v (inr (inl (k, e, d))) = rw (e, dynamic_key-prefixed dynamic_dates k, d)
  restored_date env l f v (inr (inr (inl (m, e, _)))) =
      let (n, r, s) = l.read_format f m in
      rw (e, l.format_not_dynamic dynamic_dates f m, r) (ap text s)
  restored_date env l f v (inr (inr (inr (inl (a, b, e, d))))) = cc
  restored_date env l f v (inr (inr (inr (inr (k, e, d))))) = cc

  pub restored_range :
      (env : Env Num Moment)
      → Lawful env
      → (f : DateFormat) (v : Value Num Moment) → DateShape dynamic_date_ranges true v
      → is_inherited v ≡ false
      → stored_range env f (normalize_range env (stored_range env f v)) ≡ stored_range env f v
  unfolding stored_range normalize_range pair_of DateShape
  restored_range env l f v (inl e) i = rw e
  restored_range env l f v (inr (inl (k, e, d))) i =
      rw (e, dynamic_key-prefixed dynamic_date_ranges k, d)
  restored_range env l f v (inr (inr (inl (m, e, d)))) i = cc
  restored_range env l f v (inr (inr (inr (inr (k, e, d))))) i = let h = ap is_inherited e in cc
  restored_range env l f v (inr (inr (inr (inl (a, b, e, _))))) i =
      let (n, r, s) = l.read_format f a in
      let (o, q, t) = l.read_format f b in rw (e, r, q) (ap₂ dates s t)
