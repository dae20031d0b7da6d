-- ===== src/FilterInput/AllValues.antt =====
-- Filters.jsx: all values, and none.
use mxzz_bi.Prelude.{
  ℕ, String, ◌≡◌, refl, ap, ap₂, ◌∙◌, Bool, true, false, ◌&&◌, ◌||◌, some, List, [], ◌∷◌, map, any,
  get_elem?,
}
use mxzz_bi.FilterInput.{
  Key, index, cell, key, many, Filter, is_all, is_clear, cell_at, or_key, chosen_many, matches,
  chosen_list, filter_data,
}

and_none : (b : Bool) → (b && false) ≡ false
and_none true = refl
and_none false = refl

module _ {Cell : Type 0} where
  no_clear : (cs : List Cell) → any is_clear (map cell cs) ≡ false
  no_clear [] = refl
  no_clear (c ∷ cs) = no_clear cs

  -- In a multiple filter, all values are chosen by their option whatever else is chosen with it.
  choose_all :
      (truthy : Cell → Bool) (f : Filter Cell) (keys : List Key)
      → f.multiple ≡ true
      → any is_all (map (λ k. or_key truthy k (cell_at k f.values)) keys) ≡ true
      → chosen_many truthy f keys ≡ map cell f.values
  unfolding chosen_many
  choose_all truthy f keys m a = rw a (rw m (rw (no_clear f.values) refl))

  -- A value that is falsy, such as 0 or an empty text, is not chosen in a multiple filter: its index is,
  -- in its place.
  chosen_many_falsy :
      (truthy : Cell → Bool) (f : Filter Cell) (i : ℕ) (c : Cell)
      → get_elem? f.values i ≡ some c
      → truthy c ≡ false
      → chosen_many truthy f (index i ∷ []) ≡ key (index i) ∷ []
  unfolding chosen_many
  chosen_many_falsy truthy f i c g t =
      let e : or_key truthy (index i) (get_elem? f.values i) ≡ key (index i) = rw (g, t) refl in
      rw e (rw (and_none f.multiple) (rw (and_none f.multiple) refl))

module _ {Row Cell : Type 0} (cell_of : Row → String → Cell) (equal : Cell → Cell → Bool)
    (is_text_of : Key → Cell → Bool) where
  -- Every row's cell in the filter's column is one of the values.
  abbrev pub Covers : List Row → Filter Cell → Type 0
  Covers [] f = Unit {0}
  Covers (r ∷ rs) f = (any (λ d. equal d (cell_of r f.name)) f.values ≡ true) × Covers rs f

  any_cells :
      (c : Cell) (ds : List Cell)
      → any (matches cell_of equal is_text_of c) (map cell ds) ≡ any (λ d. equal d c) ds
  any_cells c [] = refl
  any_cells c (d ∷ ds) = ap (equal d c ||◌) (any_cells c ds)

  all_rows :
      (rows : List Row) (f g : Filter Cell)
      → g.name ≡ f.name
      → g.current ≡ many (map cell f.values)
      → Covers rows f
      → filter_data cell_of equal is_text_of rows (g ∷ []) ≡ rows
  unfolding filter_data
  all_rows [] f g n h c = refl
  all_rows (r ∷ rs) f g n h (p, c) =
      let m : any (matches cell_of equal is_text_of (cell_of r g.name))
            (chosen_list cell_of equal is_text_of g.current)
          ≡ true =
        ap₂
          (λ name current.
            any (matches cell_of equal is_text_of (cell_of r name))
              (chosen_list cell_of equal is_text_of current))
          n h
        ∙ any_cells (cell_of r f.name) f.values
        ∙ p in
      rw m (ap (r ∷◌) (all_rows rs f g n h c))

  -- When the values of a multiple filter cover the rows, choosing all of them leaves every row.
  filter_data-choose_all :
      (truthy : Cell → Bool) (rows : List Row) (f : Filter Cell) (keys : List Key)
      → f.multiple ≡ true
      → any is_all (map (λ k. or_key truthy k (cell_at k f.values)) keys) ≡ true
      → Covers rows f
      → filter_data cell_of equal is_text_of rows
          (record f { current = many (chosen_many truthy f keys) } ∷ [])
        ≡ rows
  filter_data-choose_all truthy rows f keys m a c =
      all_rows rows f (record f { current = many (chosen_many truthy f keys) }) refl
        (ap many (choose_all truthy f keys m a)) c
