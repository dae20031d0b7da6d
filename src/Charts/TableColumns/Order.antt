-- ===== src/Charts/TableColumns/Order.antt =====
-- table/getOptions.js: the order of a table's columns.
use mxzz_bi.Prelude.{
  ℕ, suc, ◌+◌, ◌≤◌, String, ◌≡◌, refl, sym, ap, ap₂, ◌∙◌, ◌⊎◌, inl, inr, Bool, true, false, ◌||◌,
  filter, str_eq, eq_iff, eq_refl, Bool-cases, Option, none, some, List, [], ◌∷◌, map, arith,
}
use mxzz_bi.Parameters.Normalize.{member}
use mxzz_bi.Charts.TableColumns.{
  QueryColumn, Column, Saved, differ, were_columns_reordered, default_columns_options, saved_named,
  extended, get_columns_options,
}

module _ {A : Type 0} where
  abbrev pub Ascending : (f : A → ℕ) → List A → Type 0
  Ascending f [] = Unit {0}
  Ascending f (x ∷ []) = Unit {0}
  Ascending f (x ∷ y ∷ xs) = (f x ≤ f y) × Ascending f (y ∷ xs)

-- `sortBy` is stable: what is in order stays as it is.
pub record KeepsOrder {A : Type 0} (sort_by : (A → ℕ) → List A → List A) : Type 0 where
  pub same : (f : A → ℕ) (xs : List A) → Ascending f xs → sort_by f xs ≡ xs

-- The names `xs` are the names `common`, in that order, with names put in that are not in `other`.
abbrev pub Extends : (other xs common : List String) → Type 0
Extends other [] [] = Unit {0}
Extends other [] (c ∷ common) = ⊥
Extends other (x ∷ xs) [] = (member x other ≡ false) × Extends other xs []
Extends other (x ∷ xs) (c ∷ common) =
    ((x ≡ c) × (member x other ≡ true) × Extends other xs common)
    ⊎ ((member x other ≡ false) × Extends other xs (c ∷ common))

Extends-member :
    (other xs common : List String) (x : String)
    → Extends other xs common
    → member x common ≡ true
    → member x other ≡ true
Extends-member other xs [] x h m = cc
Extends-member other [] (c ∷ common) x h m = absurd h
Extends-member other (y ∷ xs) (c ∷ common) x (inl (e, here, h)) m = elim (Bool-cases (str_eq x c)) [
  | inl f ↦ ap (λ z. member z other) ((eq_iff x c).0 f ∙ sym e) ∙ here
  | inr f ↦ Extends-member other xs common x h (rw f at m)
]
Extends-member other (y ∷ xs) (c ∷ common) x (inr (gone, h)) m =
    Extends-member other xs (c ∷ common) x h m

first_member : (c : String) (cs : List String) → (str_eq c c || member c cs) ≡ true
first_member c cs = rw (eq_refl c) refl

later_member :
    (z c : String) (cs : List String) → member z cs ≡ true → (str_eq z c || member z cs) ≡ true
later_member z c cs m = elim (Bool-cases (str_eq z c)) [ inl e ↦ rw e refl | inr e ↦ rw e m ]

-- A filter that tells the names in `other` apart picks the common ones.
filter-Extends :
    (p : String → Bool) (other xs common : List String)
    → ((x : String) → member x other ≡ false → p x ≡ false)
    → ((x : String) → member x common ≡ true → p x ≡ true)
    → Extends other xs common
    → filter p xs ≡ common
filter-Extends p other [] [] out into h = refl
filter-Extends p other [] (c ∷ common) out into h = absurd h
filter-Extends p other (x ∷ xs) [] out into (gone, h) =
    rw (out x gone) (filter-Extends p other xs [] out into h)
filter-Extends p other (x ∷ xs) (c ∷ common) out into (inl (e, here, h)) =
    let k : p x ≡ true =
      into x (ap (λ z. str_eq z c || member z common) e ∙ first_member c common) in
    rw k (
      ap₂ (◌∷◌) e
        (filter-Extends p other xs common out (λ z m. into z (later_member z c common m)) h))
filter-Extends p other (x ∷ xs) (c ∷ common) out into (inr (gone, h)) =
    rw (out x gone) (filter-Extends p other xs (c ∷ common) out into h)

differ-differ : (xs : List String) → differ xs xs ≡ false
differ-differ [] = refl
differ-differ (x ∷ xs) = rw (eq_refl x) (differ-differ xs)

not_common :
    (common queried saved : List String)
    → Extends saved queried common
    → (x : String) → member x saved ≡ false
    → member x common ≡ false
not_common common queried saved h x n = elim (Bool-cases (member x common)) [
  | inl e ↦ let m = Extends-member saved queried common x h e in cc
  | inr e ↦ e
]

-- Columns that stand in the same order, new ones and removed ones aside, were not reordered.
were_columns_reordered_same :
    (common queried saved : List String)
    → Extends saved queried common
    → Extends queried saved common
    → were_columns_reordered queried saved ≡ false
unfolding were_columns_reordered
were_columns_reordered_same common queried saved h k =
    let v : filter (λ v. member v queried) saved ≡ common =
      filter-Extends (λ v. member v queried) queried saved common (λ x n. n)
        (λ x m. Extends-member queried saved common x k m) k in
    let q : filter (λ q. member q common) queried ≡ common =
      filter-Extends (λ q. member q common) saved queried common (not_common common queried saved h)
        (λ x m. m) h in
    rw (v, q) (differ-differ common)

module _ {Settings Change : Type 0} (default_settings : QueryColumn → Settings)
    (extend : Settings → Change → Settings) where
  abbrev with_saved : List (Saved Change) → List (Column Settings) → List (Column Settings)
  with_saved saved cs = map (λ c. extended extend false (saved_named c.name 0 saved) c) cs

  kept :
      (o : Option (ℕ × Change)) (c : Column Settings)
      → ((extended extend false o c).order ≡ c.order) × ((extended extend false o c).name ≡ c.name)
  kept none c = (refl, refl)
  kept (some (i, change)) c = (refl, refl)

  Ascending-defaults :
      (saved : List (Saved Change)) (index : ℕ) (cs : List QueryColumn)
      → Ascending
          (λ c. c.order)
          (with_saved saved (default_columns_options default_settings extend index cs))
  unfolding default_columns_options
  Ascending-defaults saved index [] = tt
  Ascending-defaults saved index (c ∷ []) = tt
  Ascending-defaults saved index (c ∷ d ∷ cs) =
      let first : Column Settings = record {
        name = c.name;
        order = 100000 + index;
        settings = default_settings c;
      } in
      let second : Column Settings = record {
        name = d.name;
        order = 100000 + suc index;
        settings = default_settings d;
      } in
      let e = (kept (saved_named c.name 0 saved) first).0 in
      let f = (kept (saved_named d.name 0 saved) second).0 in
      (omega arith, Ascending-defaults saved (suc index) (d ∷ cs))

  names-defaults :
      (saved : List (Saved Change)) (index : ℕ) (cs : List QueryColumn)
      → map
          (λ c. c.name)
          (with_saved saved (default_columns_options default_settings extend index cs))
        ≡ map (λ c. c.name) cs
  unfolding default_columns_options
  names-defaults saved index [] = refl
  names-defaults saved index (c ∷ cs) =
      ap₂ (◌∷◌)
        (kept (saved_named c.name 0 saved)
          (record { name = c.name; order = 100000 + index; settings = default_settings c })).1
        (names-defaults saved (suc index) cs)

  -- When the names that are both the query's and saved stand in the same order in both, whatever columns
  -- are new in the query and whatever saved ones it has no more, the table has the query's columns, all of
  -- them and in the query's order, whatever was saved with them.
  pub names-get_columns_options :
      (sort_by : (Column Settings → ℕ) → List (Column Settings) → List (Column Settings))
      (law : KeepsOrder sort_by) (columns : List QueryColumn) (saved : List (Saved Change))
      (common : List String)
      → Extends (map (λ s. s.name) saved) (map (λ c. c.name) columns) common
      → Extends (map (λ c. c.name) columns) (map (λ s. s.name) saved) common
      → map (λ c. c.name) (get_columns_options default_settings extend sort_by columns saved)
        ≡ map (λ c. c.name) columns
  unfolding get_columns_options
  names-get_columns_options sort_by law columns saved common q v =
      let h =
        were_columns_reordered_same common (map (λ c. c.name) columns) (map (λ s. s.name) saved) q
          v in
      let cs = with_saved saved (default_columns_options default_settings extend 0 columns) in
      rw h (
        ap (map (λ (c : Column Settings). c.name))
          (law.same (λ c. c.order) cs (Ascending-defaults saved 0 columns))
        ∙ names-defaults saved 0 columns)
