-- ===== src/Charts/TableTests.antt =====
-- The theorem of a table's columns at concrete columns, sorted by insertion.
use mxzz_bi.Prelude.{
  ℕ, ◌≡◌, refl, ap, ◌∙◌, true, inl, inr, List, [], ◌∷◌, map, leb, if◌then◌else◌, arith,
}
use mxzz_bi.Charts.TableColumns.{QueryColumn, Saved, get_columns_options}
use mxzz_bi.Charts.TableColumns.Order.{Ascending, KeepsOrder, names-get_columns_options}

module _ {A : Type 0} where
  insert : (A → ℕ) → A → List A → List A
  insert f x [] = x ∷ []
  insert f x (y ∷ ys) = let rest = insert f x ys in if leb (f x) (f y) then x ∷ y ∷ ys else y ∷ rest

  insert_sort : (A → ℕ) → List A → List A
  unfolding insert
  insert_sort f [] = []
  insert_sort f (x ∷ xs) = insert f x (insert_sort f xs)

  insert_first : (f : A → ℕ) (x : A) (xs : List A) → Ascending f (x ∷ xs) → insert f x xs ≡ x ∷ xs
  unfolding insert
  insert_first f x [] h = refl
  insert_first f x (y ∷ xs) h = let e : leb (f x) (f y) ≡ true = ground (arith, h.0) in rw e refl

  rest-Ascending : (f : A → ℕ) (x : A) (xs : List A) → Ascending f (x ∷ xs) → Ascending f xs
  rest-Ascending f x [] h = tt
  rest-Ascending f x (y ∷ xs) h = h.1

  insert_sort_same : (f : A → ℕ) (xs : List A) → Ascending f xs → insert_sort f xs ≡ xs
  unfolding insert_sort
  insert_sort_same f [] h = refl
  insert_sort_same f (x ∷ xs) h =
      ap (insert f x) (insert_sort_same f xs (rest-Ascending f x xs h)) ∙ insert_first f x xs h

  insert_sort-KeepsOrder : KeepsOrder insert_sort
  insert_sort-KeepsOrder = record { same = insert_sort_same }

abbrev columns : List QueryColumn
columns =
    record { name = "a"; type = "integer" }
    ∷ record { name = "new"; type = "date" }
    ∷ record { name = "b"; type = "float" }
    ∷ []

-- One that is gone, between two that are still there.
abbrev saved : List (Saved ℕ)
saved =
    record { name = "a"; change = 1 }
    ∷ record { name = "gone"; change = 2 }
    ∷ record { name = "b"; change = 3 }
    ∷ []

abbrev no_settings : QueryColumn → ℕ
no_settings c = 0

abbrev change_to : ℕ → ℕ → ℕ
change_to old new = new

names-get_columns_options_example :
    map (λ c. c.name) (get_columns_options no_settings change_to insert_sort columns saved)
    ≡ map (λ c. c.name) columns
names-get_columns_options_example =
    names-get_columns_options no_settings change_to insert_sort insert_sort-KeepsOrder columns saved
      ("a" ∷ "b" ∷ []) (inl (refl, refl, inr (refl, inl (refl, refl, tt))))
      (inl (refl, refl, inr (refl, inl (refl, refl, tt))))
