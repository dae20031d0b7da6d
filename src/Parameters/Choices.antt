-- ===== src/Parameters/Choices.antt =====
-- EnumParameter.js and QueryBasedDropdownParameter.js: normalizing a normalized choice keeps it.
use mxzz_bi.Prelude.{
  String, ◌≡◌, refl, ap, true, false, not, ◌&&◌, Option, none, some, List, [], ◌∷◌, eq_iff, arith,
  Bool-cases, inl, inr,
}
use mxzz_bi.Parameters.Normalize.{
  nr, str, Value, undefined, null, num, text, list, dynamic, moment, moments, dates, inherited,
  Multi, member, options_of, intersection, intersection_from, strings, items, as_list, list_or_null,
  first_of, pick, normalize_enum, normalize_query,
}

strings-items : (Num : Type 0) (xs : List String) → strings (items {Num = Num} xs) ≡ xs
unfolding strings items
strings-items Num [] = refl
strings-items Num (x ∷ xs) = rw (strings-items Num xs)

-- Every member of the first list is one of the second, and no member is met twice.
abbrev AllIn : List String → List String → List String → Type 0
AllIn seen [] ys = Unit {0}
AllIn seen (x ∷ xs) ys = (member x ys ≡ true) × (member x seen ≡ false) × AllIn (x ∷ seen) xs ys

intersection_from-AllIn : (seen xs ys : List String) → AllIn seen (intersection_from seen xs ys) ys
unfolding intersection_from
intersection_from-AllIn seen [] ys = tt
intersection_from-AllIn seen (x ∷ xs) ys = elim (Bool-cases (member x ys && not (member x seen))) [
  | inl e ↦ rw e (ground arith, ground arith, intersection_from-AllIn (x ∷ seen) xs ys)
  | inr e ↦ rw e (intersection_from-AllIn seen xs ys)
]

intersection_from_self :
    (seen xs ys : List String) → AllIn seen xs ys → intersection_from seen xs ys ≡ xs
unfolding intersection_from
intersection_from_self seen [] ys h = refl
intersection_from_self seen (x ∷ xs) ys (a, b, h) =
    rw (a, b) (ap (x ∷◌) (intersection_from_self (x ∷ seen) xs ys h))

intersection-intersection :
    (xs ys : List String) → intersection (intersection xs ys) ys ≡ intersection xs ys
unfolding intersection
intersection-intersection xs ys =
    intersection_from_self [] (intersection xs ys) ys (intersection_from-AllIn [] xs ys)

as_list-list_or_null :
    (Num Moment : Type 0) (xs : List String)
    → as_list {Num = Num} {Moment = Moment} (list_or_null xs) ≡ xs
unfolding as_list list_or_null
as_list-list_or_null Num Moment [] = refl
as_list-list_or_null Num Moment (x ∷ xs) = rw (strings-items Num xs)

module _ {Num Moment : Type 0} where
  pick_first :
      (x : String) (xs : List String)
      → pick {Num = Num} {Moment = Moment} (x ∷ xs) (text x) ≡ text x
  unfolding pick
  pick_first String.[] xs = refl
  pick_first (String.◌∷◌ c s) xs = ground (arith, eq_iff (String.◌∷◌ c s) (String.◌∷◌ c s))

  pick-first_of :
      (options : List String)
      → pick {Num = Num} {Moment = Moment} options (first_of options) ≡ first_of options
  pick-first_of [] = unfold pick in refl
  pick-first_of (x ∷ xs) = pick_first x xs

  pick-pick :
      (options : List String) (v : Value Num Moment)
      → pick options (pick options v) ≡ pick options v
  unfolding pick
  pick-pick options (text String.[]) = pick-first_of options
  pick-pick options (text (String.◌∷◌ c s)) = elim (Bool-cases (member (String.◌∷◌ c s) options)) [
    | inl e ↦ rw e (rw e)
    | inr e ↦ rw e (pick-first_of options)
  ]
  pick-pick options (list xs) = pick-first_of options
  pick-pick options _ = pick-first_of options

  pub normalize_enum-normalize_enum :
      (o : Option String) (m : Option Multi) (v : Value Num Moment)
      → normalize_enum o m (normalize_enum o m v) ≡ normalize_enum o m v
  unfolding normalize_enum
  normalize_enum-normalize_enum none m v = refl
  normalize_enum-normalize_enum (some String.[]) m v = refl
  normalize_enum-normalize_enum (some (String.◌∷◌ c s)) none v =
      pick-pick (options_of (String.◌∷◌ c s)) v
  normalize_enum-normalize_enum (some (String.◌∷◌ c s)) (some m) v =
      rw (as_list-list_or_null Num Moment, intersection-intersection)

  pub normalize_query-normalize_query :
      (m : Option Multi) (v : Value Num Moment)
      → normalize_query m (normalize_query m v) ≡ normalize_query m v
  unfolding normalize_query
  normalize_query-normalize_query none undefined = refl
  normalize_query-normalize_query none null = refl
  normalize_query-normalize_query none (list []) = refl
  normalize_query-normalize_query none (list (str s ∷ xs)) = refl
  normalize_query-normalize_query none (list (nr n ∷ xs)) = refl
  normalize_query-normalize_query none (text s) = refl
  normalize_query-normalize_query none (num n) = refl
  normalize_query-normalize_query none (dynamic k) = refl
  normalize_query-normalize_query none (moment x) = refl
  normalize_query-normalize_query none (moments a b) = refl
  normalize_query-normalize_query none (dates a b) = refl
  normalize_query-normalize_query none (inherited k) = refl
  normalize_query-normalize_query (some m) undefined = refl
  normalize_query-normalize_query (some m) null = refl
  normalize_query-normalize_query (some m) (list []) = refl
  normalize_query-normalize_query (some m) (list (x ∷ xs)) = refl
  normalize_query-normalize_query (some m) (text s) = refl
  normalize_query-normalize_query (some m) (num n) = refl
  normalize_query-normalize_query (some m) (dynamic k) = refl
  normalize_query-normalize_query (some m) (moment x) = refl
  normalize_query-normalize_query (some m) (moments a b) = refl
  normalize_query-normalize_query (some m) (dates a b) = refl
  normalize_query-normalize_query (some m) (inherited k) = refl
