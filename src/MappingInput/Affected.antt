-- ===== src/MappingInput/Affected.antt =====
-- ParameterMappingInput.jsx: the widgets that `synchronizeWidgetTitles` reports as affected.
use mxzz_bi.Prelude.{
  ℕ, zero, suc, length, get_elem?, Option, none, some, String, ◌≡◌, refl, ap, ap₂, ◌∙◌, Bool, true,
  false, ◌||◌, List, [], ◌∷◌, ◌++◌, any, ◌==◌, if◌then◌else◌, Bool-cases, inl, inr, arith,
}
use mxzz_bi.Widget.Mappings.{Mapping, Mappings}
use mxzz_bi.MappingInput.Titles.{
  Widget, is_dashboard_level, is_dirty, each_mapping, each_widget, each_entry, mappings_of,
  synchronize, synchronize_widget_titles,
}

abbrev pub reported : ℕ → List ℕ → Bool
reported n = any (n ==◌)

eq_refl_ℕ : (n : ℕ) → (n == n) ≡ true
eq_refl_ℕ n = ground arith

reported_last : (n : ℕ) (xs : List ℕ) → reported n (xs ++ (n ∷ [])) ≡ true
reported_last n [] = rw (eq_refl_ℕ n) refl
reported_last n (x ∷ xs) = elim (Bool-cases (n == x)) [
  | inl e ↦ rw e refl
  | inr e ↦ rw e (reported_last n xs)
]

or_before : (b p q : Bool) → (p ≡ true → q ≡ true) → (b || p) ≡ true → (b || q) ≡ true
or_before true p q f h = refl
or_before false p q f h = f h

reported_before :
    (n k : ℕ) (xs : List ℕ) → reported n xs ≡ true → reported n (xs ++ (k ∷ [])) ≡ true
reported_before n k [] h = cc
reported_before n k (x ∷ xs) h =
    or_before (n == x) (reported n xs) (reported n (xs ++ (k ∷ []))) (reported_before n k xs) h

-- What is not reported in the end was not before.
abbrev Grows : (before after : List ℕ) → Type 0
Grows before after = (n : ℕ) → reported n before ≡ true → reported n after ≡ true

not_before :
    (n : ℕ) (before after : List ℕ)
    → Grows before after
    → reported n after ≡ false
    → reported n before ≡ false
not_before n before after g h = elim (Bool-cases (reported n before)) [
  | inl e ↦ let k = g n e in cc
  | inr e ↦ e
]

pushed-Grows : (b : Bool) (id : ℕ) (xs : List ℕ) → Grows xs (if b then xs ++ (id ∷ []) else xs)
pushed-Grows true id xs n h = reported_before n id xs h
pushed-Grows false id xs n h = h

module _ {Num Moment : Type 0} where
  each_mapping-Grows :
      (s : Mapping Num Moment) (id : ℕ) (ms : Mappings Num Moment) (xs : List ℕ)
      → Grows xs (each_mapping s id ms xs).1
  unfolding each_mapping
  each_mapping-Grows s id [] xs n h = h
  each_mapping-Grows s id ((k, m) ∷ ms) xs n h =
      each_mapping-Grows s id ms _ n (pushed-Grows (is_dirty s m) id xs n h)

  each_widget-Grows :
      (s : Mapping Num Moment) (ws : List (Widget Num Moment)) (xs : List ℕ)
      → Grows xs (each_widget s ws xs).1
  unfolding each_widget
  each_widget-Grows s [] xs n h = h
  each_widget-Grows s (w ∷ ws) xs n h =
      each_widget-Grows s ws (each_mapping s w.id w.parameter_mappings xs).1 n
        (each_mapping-Grows s w.id w.parameter_mappings xs n h)

  each_mapping_kept :
      (s : Mapping Num Moment) (id : ℕ) (ms : Mappings Num Moment) (xs : List ℕ)
      → reported id (each_mapping s id ms xs).1 ≡ false
      → (each_mapping s id ms xs).0 ≡ ms
  unfolding each_mapping
  each_mapping_kept s id [] xs h = refl
  each_mapping_kept s id ((k, m) ∷ ms) xs h =
      ap₂ (λ n rest. (k, n) ∷ rest)
        (go (is_dirty s m) (
          not_before id _ _
            (each_mapping-Grows s id ms (if is_dirty s m then xs ++ (id ∷ []) else xs)) h))
        (each_mapping_kept s id ms (if is_dirty s m then xs ++ (id ∷ []) else xs) h)
    where
      go :
          (b : Bool)
          → reported id (if b then xs ++ (id ∷ []) else xs) ≡ false
          → (if b then record m { title = s.title } else m) ≡ m
      go true h = let k = reported_last id xs in cc
      go false h = refl

  -- The entries of the result are the widgets in their order, each the one it was unless its id is
  -- reported.
  abbrev pub Kept : (affected : List ℕ) (before after : List (Widget Num Moment)) → Type 0
  Kept affected [] [] = Unit {0}
  Kept affected [] (v ∷ vs) = ⊥
  Kept affected (w ∷ ws) [] = ⊥
  Kept affected (w ∷ ws) (v ∷ vs) =
      (v.id ≡ w.id) × (reported w.id affected ≡ false → v ≡ w) × Kept affected ws vs

  refl-Kept : (affected : List ℕ) (ws : List (Widget Num Moment)) → Kept affected ws ws
  refl-Kept affected [] = tt
  refl-Kept affected (w ∷ ws) = (refl, (λ h. refl), refl-Kept affected ws)

  each_widget-Kept :
      (s : Mapping Num Moment) (ws : List (Widget Num Moment)) (xs : List ℕ)
      → Kept (each_widget s ws xs).1 ws (each_widget s ws xs).0
  unfolding each_widget
  each_widget-Kept s [] xs = tt
  each_widget-Kept s (w ∷ ws) xs =
      let own = each_mapping s w.id w.parameter_mappings xs in
      (
        refl,
        (λ h.
            ap (λ ms. record w { parameter_mappings = ms })
              (each_mapping_kept s w.id w.parameter_mappings xs
                (not_before w.id own.1 _ (each_widget-Grows s ws own.1) h))),
        each_widget-Kept s ws own.1,
      )

  trans-Kept :
      (xs ys : List ℕ) (us vs ws : List (Widget Num Moment))
      → Grows xs ys
      → Kept xs us vs
      → Kept ys vs ws
      → Kept ys us ws
  trans-Kept xs ys [] [] [] g h k = tt
  trans-Kept xs ys [] [] (w ∷ ws) g h k = absurd k
  trans-Kept xs ys [] (v ∷ vs) ws g h k = absurd h
  trans-Kept xs ys (u ∷ us) [] ws g h k = absurd h
  trans-Kept xs ys (u ∷ us) (v ∷ vs) [] g h k = absurd k
  trans-Kept xs ys (u ∷ us) (v ∷ vs) (w ∷ ws) g (i, e, h) (j, f, k) =
      (j ∙ i, (λ n. f (rw i n) ∙ e (not_before u.id xs ys g n)), trans-Kept xs ys us vs ws g h k)

  abbrev AllKept : (id index left : ℕ) → (before st : List (Widget Num Moment) × List ℕ) → Type 0
  AllKept id i n before st =
      Grows before.1 (synchronize id i n st).1
      × Kept (synchronize id i n st).1 before.0 (synchronize id i n st).0

  each_source-AllKept :
      (id i n : ℕ) (s : Mapping Num Moment) (ws : List (Widget Num Moment)) (xs : List ℕ) (b : Bool)
      → ((st : List (Widget Num Moment) × List ℕ) → AllKept id i n st st)
      → AllKept id i n (ws, xs) (if b then each_widget s ws xs else (ws, xs))
  each_source-AllKept id i n s ws xs true ih =
      let st = each_widget s ws xs in
      let (g, k) = ih st in
      (
        (λ n h. g n (each_widget-Grows s ws xs n h)),
        trans-Kept st.1 _ ws st.0 _ g (each_widget-Kept s ws xs) k,
      )
  each_source-AllKept id i n s ws xs false ih = ih (ws, xs)

  each_entry-AllKept :
      (id i n : ℕ) (o : Option (String × Mapping Num Moment))
      (st : List (Widget Num Moment) × List ℕ)
      → ((st : List (Widget Num Moment) × List ℕ) → AllKept id i n st st)
      → AllKept id i n st (each_entry o st)
  each_entry-AllKept id i n none st ih = ih st
  each_entry-AllKept id i n (some e) (ws, xs) ih =
      each_source-AllKept id i n e.1 ws xs (is_dashboard_level e.1) ih

  synchronize-AllKept : (id i n : ℕ) (st : List (Widget Num Moment) × List ℕ) → AllKept id i n st st
  unfolding synchronize
  synchronize-AllKept id i zero st = ((λ n h. h), refl-Kept st.1 st.0)
  synchronize-AllKept id i (suc n) st =
      each_entry-AllKept id (suc i) n (get_elem? (mappings_of id st.0) i) st
        (synchronize-AllKept id (suc i) n)

  -- A widget that is not reported as affected is as it was, so that the widgets to save are among
  -- those reported.
  synchronize_widget_titles-Kept :
      (id : ℕ) (ws : List (Widget Num Moment))
      → Kept (synchronize_widget_titles id ws).1 ws (synchronize_widget_titles id ws).0
  unfolding synchronize_widget_titles
  synchronize_widget_titles-Kept id ws =
      (synchronize-AllKept id 0 (length (mappings_of id ws)) (ws, [])).1
