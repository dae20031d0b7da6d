-- ===== src/Parameters/RoundTrip.antt =====
-- The value that `toUrlParams` puts in a URL and the value that `fromUrlParams` sets from it.
use Prim.Native.String
use mxzz_bi.Prelude.{
  String, ◌≡◌, refl, sym, ap, ◌∙◌, Bool, true, false, Option, none, some, List, [], ◌∷◌, inl, inr,
}
use mxzz_bi.Parameters.Normalize.{
  Item, str, Value, undefined, null, num, text, list, dynamic, moment, moments, dates, inherited,
  Env, DateFormat, Multi, Kind, plain, text_kind, number_kind, enum_kind, query_kind, date_kind,
  date_range_kind, member, prefixed, dynamic_date_ranges, dynamic_dates, normalize, stored,
  stored_date, stored_range, text_or_null, num_or_null, normalize_enum, normalize_date,
  normalize_range, normalize_number, list_or_null, pick, items, options_of, as_list, intersection,
}
use mxzz_bi.Parameters.Dates.{
  Lawful, is_inherited, DateShape, normalize_date-DateShape, normalize_range-DateShape,
  restored_date, restored_range,
}
use mxzz_bi.Parameters.Choices.{normalize_enum-normalize_enum}
use mxzz_bi.Parameters.Normal.{split_lines_cons, pick_text}
use mxzz_bi.Parameters.Object.{Parameter, node, Locals, root, set_value, is_null, assign}
use mxzz_bi.Parameters.Url.{
  Json, lookup, url_key, choice_param, range_param, url_param, to_url_params, choice_from,
  url_value, from_url_params, truthy_text,
}

-- What the URL needs of the conversions: a number and an array are read from the text that they are
-- written as, a date's text is not empty, and two dates' texts are split where they were joined, as
-- the key of a dynamic range is not.
pub record LawfulUrl {Num Moment : Type 0} (env : Env Num Moment) (json : Json Num) : Type 0 where
  pub to_number_text : (n : Num) → env.to_number (text (env.to_string (num n))) ≡ some n
  pub parse_stringify : (xs : List (Item Num)) → json.parse (json.stringify xs) ≡ some xs
  pub format_truthy : (f : DateFormat) (m : Moment) → truthy_text env json (env.format f m) ≡ true
  pub split_format :
      (f : DateFormat) (a b : Moment)
      → json.split_range (String.◌++◌ (env.format f a) (String.◌++◌ "--" (env.format f b)))
        ≡ env.format f a ∷ env.format f b ∷ []
  pub split_key :
      (k : String)
      → member k dynamic_date_ranges ≡ true
      → json.split_range (prefixed k) ≡ prefixed k ∷ []

-- The classes whose value comes back; a drop-down's number comes back as a text.
abbrev pub restores : Kind → Bool
restores plain = false
restores (query_kind m) = false
restores _ = true

module _ {Num Moment : Type 0} (env : Env Num Moment) (json : Json Num) where
  -- What the URL holds of a value; `null` is left out.
  abbrev pub shown : Value Num Moment → Option String
  shown null = none
  shown undefined = none
  shown v = some (env.to_string v)

  -- The URL's text sets a value that is stored as `x`.
  Restored : Kind → (normalized x : Value Num Moment) → Type 0
  Restored k normalized x =
      (a b : Option String)
      → (u : Value Num Moment) × (url_value env json k (shown (url_param env json k normalized x)) a
            b
          ≡ some u)
        × (stored env k (normalize env k u) ≡ x)

  module _ (l : Lawful env) (w : LawfulUrl env json) where
    text-Restored :
        (s : String)
        → is_null (text_or_null env s) ≡ false
        → Restored text_kind (text_or_null env s) (text_or_null env s)
    unfolding Restored url_param url_value normalize stored
    text-Restored String.[] h a b = cc
    text-Restored (String.◌∷◌ c s) h a b = (
      text (String.◌∷◌ c s),
      rw (l.to_string_text (String.◌∷◌ c s)),
      rw (l.to_string_text (String.◌∷◌ c s)),
    )

    num-Restored :
        (o : Option Num)
        → is_null (num_or_null env o) ≡ false
        → Restored number_kind (num_or_null env o) (num_or_null env o)
    unfolding Restored url_param url_value normalize stored normalize_number
    num-Restored none h a b = cc
    num-Restored (some n) h a b = (text (env.to_string (num n)), refl, rw (w.to_number_text n))

    date-Restored :
        (f : DateFormat) (now : Bool) (n : Value Num Moment)
        → DateShape Num Moment dynamic_dates false n
        → is_null n ≡ false
        → stored_date env f (normalize_date env (stored_date env f n)) ≡ stored_date env f n
        → Restored (date_kind f now) n (stored_date env f n)
    unfolding Restored url_param url_value normalize stored stored_date DateShape
    date-Restored f now n (inl e) h r a b = cc
    date-Restored f now n (inr (inl (k, e, d))) h r a b =
        (stored_date env f n, rw (e, l.to_string_text (prefixed k)) refl, r)
    date-Restored f now n (inr (inr (inl (m, e, d)))) h r a b =
        (stored_date env f n, rw (e, l.to_string_text (env.format f m)) refl, r)
    date-Restored f now n (inr (inr (inr (inl (x, y, e, d))))) h r a b = cc
    date-Restored f now n (inr (inr (inr (inr (k, e, d))))) h r a b = cc

    normalize_range_pair :
        (a b : String)
        → normalize_range env (list (str a ∷ str b ∷ [])) ≡ normalize_range env (dates a b)
    unfolding normalize_range
    normalize_range_pair a b = refl

    range-Restored :
        (f : DateFormat) (n : Value Num Moment)
        → DateShape Num Moment dynamic_date_ranges true n
        → is_null n ≡ false
        → is_inherited n ≡ false
        → stored_range env f (normalize_range env (stored_range env f n)) ≡ stored_range env f n
        → Restored (date_range_kind f) n (stored_range env f n)
    unfolding Restored url_param range_param url_value normalize stored stored_range DateShape
    range-Restored f n (inl e) h i r a b = cc
    range-Restored f n (inr (inl (k, e, d))) h i r a b =
        (stored_range env f n, rw (e, l.to_string_text (prefixed k), w.split_key k d) refl, r)
    range-Restored f n (inr (inr (inl (m, e, d)))) h i r a b = cc
    range-Restored f n (inr (inr (inr (inr (k, e, d))))) h i r a b = let g = ap is_inherited e in cc
    range-Restored f n (inr (inr (inr (inl (x, y, e, d))))) h i r a b =
        let s = String.◌++◌ (env.format f x) (String.◌++◌ "--" (env.format f y)) in
        (
          list (str (env.format f x) ∷ str (env.format f y) ∷ []),
          rw (e, w.format_truthy f x, w.format_truthy f y, l.to_string_text s, w.split_format f x y)
              refl,
          ap (λ t. stored_range env f t) (normalize_range_pair (env.format f x) (env.format f y))
              ∙ ap (λ t. stored_range env f (normalize_range env t)) (sym (rw e))
              ∙ r,
        )

    list_or_null-Restored :
        (o : Option String) (m : Multi) (xs : List String)
        → is_null (list_or_null {Num = Num} {Moment = Moment} xs) ≡ false
        → normalize_enum o (some m) (list_or_null xs)
          ≡ list_or_null {Num = Num} {Moment = Moment} xs
        → Restored (enum_kind o (some m)) (list_or_null xs) (list_or_null xs)
    unfolding Restored url_param choice_param url_value choice_from normalize stored list_or_null
    list_or_null-Restored o m [] h r a b = cc
    list_or_null-Restored o m (x ∷ xs) h r a b = (
      list (str x ∷ items xs),
      rw
          (
            choice_from,
            l.to_string_text (json.stringify (str x ∷ items xs)),
            w.parse_stringify (str x ∷ items xs),
          )
          refl,
      r,
    )

    text_choice-Restored :
        (o : Option String) (s : String)
        → normalize_enum {Num = Num} {Moment = Moment} o none (text s) ≡ text s
        → Restored (enum_kind o none) (text s) (text s)
    unfolding Restored url_param choice_param url_value choice_from normalize stored
    text_choice-Restored o s r a b = (text s, rw (choice_from, l.to_string_text s) refl, r)

    enum-Restored :
        (o : Option String) (m : Option Multi) (v : Value Num Moment)
        → is_null (normalize_enum o m v) ≡ false
        → Restored (enum_kind o m) (normalize_enum o m v) (normalize_enum o m v)
    unfolding normalize_enum
    enum-Restored none m v h = cc
    enum-Restored (some String.[]) m v h = cc
    enum-Restored (some (String.◌∷◌ c s)) none v h =
        let (x, xs, q) = split_lines_cons "" (String.◌∷◌ c s) in
        let (t, r) = pick_text x xs v in
        let e : pick (options_of (String.◌∷◌ c s)) v ≡ text t = unfold options_of in rw (q, r) in
        rw e (
          text_choice-Restored (some (String.◌∷◌ c s)) t (
            ap (λ z. pick (options_of (String.◌∷◌ c s)) z) (sym e)
            ∙ normalize_enum-normalize_enum (some (String.◌∷◌ c s)) none v
            ∙ e))
    enum-Restored (some (String.◌∷◌ c s)) (some m) v h =
        list_or_null-Restored (some (String.◌∷◌ c s)) m
          (intersection (as_list v) (options_of (String.◌∷◌ c s))) h
          (normalize_enum-normalize_enum (some (String.◌∷◌ c s)) (some m) v)

    number_cases :
        (v : Value Num Moment) → (o : Option Num) × (normalize_number env v ≡ num_or_null env o)
    unfolding normalize_number
    number_cases null = (none, refl)
    number_cases undefined = (env.to_number undefined, refl)
    number_cases (num n) = (env.to_number (num n), refl)
    number_cases (text s) = (env.to_number (text s), refl)
    number_cases (list xs) = (env.to_number (list xs), refl)
    number_cases (dynamic k) = (env.to_number (dynamic k), refl)
    number_cases (moment m) = (env.to_number (moment m), refl)
    number_cases (moments a b) = (env.to_number (moments a b), refl)
    number_cases (dates a b) = (env.to_number (dates a b), refl)
    number_cases (inherited k) = (env.to_number (inherited k), refl)

    number-Restored :
        (v : Value Num Moment)
        → is_null (normalize_number env v) ≡ false
        → Restored number_kind (normalize_number env v) (normalize_number env v)
    number-Restored v h = let (o, e) = number_cases v in rw e (num-Restored o (rw (sym e) h))

    normalize-Restored :
        (k : Kind) (v : Value Num Moment)
        → restores k ≡ true
        → is_null (normalize env k v) ≡ false
        → is_inherited (normalize env k v) ≡ false
        → Restored k (normalize env k v) (stored env k (normalize env k v))
    unfolding normalize stored
    normalize-Restored plain v t h i = cc
    normalize-Restored text_kind v t h i = text-Restored (env.to_string v) h
    normalize-Restored number_kind v t h i = number-Restored v h
    normalize-Restored (enum_kind o m) v t h i = enum-Restored o m v h
    normalize-Restored (query_kind m) v t h i = cc
    normalize-Restored (date_kind f now) v t h i =
        date-Restored f now (normalize_date env v) (normalize_date-DateShape Num Moment env v) h (
          restored_date Num Moment env l f (normalize_date env v)
            (normalize_date-DateShape Num Moment env v))
    normalize-Restored (date_range_kind f) v t h i =
        range-Restored f (normalize_range env v) (normalize_range-DateShape Num Moment env v) h i (
          restored_range Num Moment env l f (normalize_range env v)
            (normalize_range-DateShape Num Moment env v) i)

    -- Let the conversions be lawful, and let a text, number, date, date range or enum parameter be set
    -- to a value that does not make it empty, nor one that the table of dynamic ranges inherits. Then reading any URL that has for the
    -- parameter's key what the parameter puts there gives a parameter of the same class, name and
    -- prefix the value that the first one shows.
    pub from_url_params-to_url_params :
        (q : List (String × String)) (v : Value Num Moment) (p : Parameter Num Moment)
        (ls : Locals Num Moment)
        → restores p.kind ≡ true
        → is_null (normalize env p.kind v) ≡ false
        → is_inherited (normalize env p.kind v) ≡ false
        → lookup (url_key p) q ≡ shown (to_url_params env json (assign env v p)).1
        → (root (from_url_params env json q (node p ls))).value ≡ (assign env v p).value
    unfolding from_url_params to_url_params set_value Restored
    from_url_params-to_url_params q v p ls t h i e =
        let (u, f, g) =
          normalize-Restored p.kind v t h i (lookup (String.◌++◌ (url_key p) ".start") q)
            (lookup (String.◌++◌ (url_key p) ".end") q) in
        rw (e, f) g
