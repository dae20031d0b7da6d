-- ===== src/Parameters/Restore.antt =====
-- Storing what `setValue` has stored, for each class.
use mxzz_bi.Prelude.{String, ◌≡◌, refl, false, Option, none, some}
use mxzz_bi.Parameters.Normalize.{
  Value, undefined, null, num, text, list, dynamic, moment, moments, dates, inherited, Env, Kind,
  plain, text_kind, number_kind, enum_kind, query_kind, date_kind, date_range_kind, text_or_null,
  num_or_null, normalize_date, normalize_range, normalize_number, normalize_plain, normalize,
  stored,
}
use mxzz_bi.Parameters.Choices.{normalize_enum-normalize_enum, normalize_query-normalize_query}
use mxzz_bi.Parameters.Dates.{
  Lawful, is_inherited, restored_date, restored_range, normalize_date-DateShape,
  normalize_range-DateShape,
}

module _ {Num Moment : Type 0} where
  normalize_text-normalize_text :
      (env : Env Num Moment)
      → Lawful env
      → (s : String) → text_or_null env (env.to_string (text_or_null env s)) ≡ text_or_null env s
  normalize_text-normalize_text env l String.[] = rw l.to_string_null
  normalize_text-normalize_text env l (String.◌∷◌ c s) = rw (l.to_string_text (String.◌∷◌ c s))

  normalize_number_num :
      (env : Env Num Moment)
      → Lawful env
      → (o : Option Num) → normalize_number env (num_or_null env o) ≡ num_or_null env o
  unfolding normalize_number
  normalize_number_num env l none = refl
  normalize_number_num env l (some n) = rw (l.to_number_num n)

  normalize_number-normalize_number :
      (env : Env Num Moment)
      → Lawful env
      → (v : Value Num Moment)
      → normalize_number env (normalize_number env v) ≡ normalize_number env v
  unfolding normalize_number
  normalize_number-normalize_number env l null = refl
  normalize_number-normalize_number env l undefined =
      normalize_number_num env l (env.to_number undefined)
  normalize_number-normalize_number env l (num n) =
      normalize_number_num env l (env.to_number (num n))
  normalize_number-normalize_number env l (text s) =
      normalize_number_num env l (env.to_number (text s))
  normalize_number-normalize_number env l (list xs) =
      normalize_number_num env l (env.to_number (list xs))
  normalize_number-normalize_number env l (dynamic k) =
      normalize_number_num env l (env.to_number (dynamic k))
  normalize_number-normalize_number env l (moment m) =
      normalize_number_num env l (env.to_number (moment m))
  normalize_number-normalize_number env l (moments a b) =
      normalize_number_num env l (env.to_number (moments a b))
  normalize_number-normalize_number env l (dates a b) =
      normalize_number_num env l (env.to_number (dates a b))
  normalize_number-normalize_number env l (inherited k) =
      normalize_number_num env l (env.to_number (inherited k))

  normalize_plain-normalize_plain :
      (env : Env Num Moment) (v : Value Num Moment)
      → normalize_plain env (normalize_plain env v) ≡ normalize_plain env v
  unfolding normalize_plain
  normalize_plain-normalize_plain env undefined = refl
  normalize_plain-normalize_plain env null = refl
  normalize_plain-normalize_plain env (num n) = refl
  normalize_plain-normalize_plain env (text s) = refl
  normalize_plain-normalize_plain env (list xs) = refl
  normalize_plain-normalize_plain env (dynamic k) = refl
  normalize_plain-normalize_plain env (moment m) = refl
  normalize_plain-normalize_plain env (moments a b) = refl
  normalize_plain-normalize_plain env (dates a b) = refl
  normalize_plain-normalize_plain env (inherited k) = refl

  -- In an environment of lawful conversions, storing the value that `setValue` has stored stores the
  -- same value again, for every class, unless the value is what the table of dynamic ranges inherits.
  pub stored-normalize :
      (env : Env Num Moment)
      → Lawful env
      → (k : Kind) (v : Value Num Moment) → is_inherited (normalize env k v) ≡ false
      → stored env k (normalize env k (stored env k (normalize env k v)))
        ≡ stored env k (normalize env k v)
  unfolding stored normalize
  stored-normalize env l plain v i = normalize_plain-normalize_plain env v
  stored-normalize env l text_kind v i = normalize_text-normalize_text env l (env.to_string v)
  stored-normalize env l number_kind v i = normalize_number-normalize_number env l v
  stored-normalize env l (enum_kind o m) v i = normalize_enum-normalize_enum o m v
  stored-normalize env l (query_kind m) v i = normalize_query-normalize_query m v
  stored-normalize env l (date_kind f now) v i =
      restored_date Num Moment env l f (normalize_date env v)
        (normalize_date-DateShape Num Moment env v)
  stored-normalize env l (date_range_kind f) v i =
      restored_range Num Moment env l f (normalize_range env v)
        (normalize_range-DateShape Num Moment env v) i
