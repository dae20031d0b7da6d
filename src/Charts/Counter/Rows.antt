-- ===== src/Charts/Counter/Rows.antt =====
-- counter/utils.js: a row number is that of a row.
use native.Mathlib.Omega.{arith, mod_fact}
use mxzz_bi.Prelude.{
  ℕ, zero, suc, ◌-◌, ◌%◌, ◌<◌, ◌≡◌, refl, ap, String, true, Option, none, some, List, [], ◌∷◌,
  length, get_elem?, ltb, ℤ, pos, negsuc, Bool-cases, inl, inr,
}
use mxzz_bi.Js.{Arg, parse_int, or_default}
use mxzz_bi.Charts.Counter.{
  remainder, from_end, row_number, get_row_number, Options, Cells, Counter, shown, thrown,
  non_empty, row_at, cell_of, counter_value_of, target_value_of, counter_of, get_counter_data,
}

remainder_below : (i n : ℕ) → 0 < n → (k : ℕ) × (remainder i n ≡ some k) × (k < n)
remainder_below i zero h = absurd (omega arith)
remainder_below i (suc n) h = (i % suc n, refl, mod_fact i n)

row_number_below : (i : ℤ) (n : ℕ) → 0 < n → (k : ℕ) × (row_number i n ≡ some k) × (k < n)
row_number_below (pos zero) n h = (0, refl, h)
row_number_below (pos (suc i)) n h = remainder_below i n h
row_number_below (negsuc i) n h =
    let (k, e, l) = remainder_below i n h in (n - k - 1, ap (from_end n) e, omega arith)

-- Whatever the option holds, when there are rows its row number is that of one of them.
get_row_number_below :
    (index : Arg) (n : ℕ) → 0 < n → (k : ℕ) × (get_row_number index n ≡ some k) × (k < n)
unfolding get_row_number
get_row_number_below index n h = row_number_below (or_default (parse_int index) 0) n h

get_elem?_below {ℓ} :
    {A : Type ℓ} (xs : List A) (i : ℕ) → i < length xs → (x : A) × (get_elem? xs i ≡ some x)
get_elem?_below [] i h = absurd (omega arith)
get_elem?_below (x ∷ xs) zero h = (x, refl)
get_elem?_below (x ∷ xs) (suc i) h = get_elem?_below xs i (omega arith)

module _ {Row Cell Num : Type 0} (cells : Cells Row Cell Num) (options : Options) where
  cell_at :
      (index : Arg) (col : String) (rows : List Row)
      → 0 < length rows
      → (c : Cell) × (cell_of cells (row_at rows (get_row_number index (length rows))) col ≡ some c)
  cell_at index col rows h =
      let (k, e, l) = get_row_number_below index (length rows) h in
      let (r, f) = get_elem?_below rows k l in (cells.cell r col, rw (e, f) refl)

  counter_value-some :
      (rows : List Row)
      → 0 < length rows
      → (c : Cell) × (counter_value_of cells options rows ≡ some c)
  unfolding counter_value_of cell_at
  counter_value-some rows h = elim (Bool-cases options.count_row) [
    | inl e ↦ (cells.of_count (length rows), rw e refl)
    | inr e ↦ elim (Bool-cases (non_empty options.counter_col_name)) [
      | inl f ↦
          let (c, g) = cell_at options.row_number options.counter_col_name rows h in
          (c, rw (e, f, g) refl)
      | inr f ↦ (cells.nothing, rw (e, f) refl)
    ]
  ]

  target_value-some :
      (rows : List Row)
      → 0 < length rows
      → (c : Cell) × (target_value_of cells options rows ≡ some c)
  unfolding target_value_of cell_at
  target_value-some rows h = elim (Bool-cases (non_empty options.target_col_name)) [
    | inl f ↦
        let (c, g) = cell_at options.target_row_number options.target_col_name rows h in
        (c, rw (f, g) refl)
    | inr f ↦ (cells.nothing, rw f refl)
  ]

  -- With rows, a counter is always shown: no row number, whatever the options hold, is past the rows.
  pub get_counter_data_shown :
      (rows : List Row) (name : String)
      → 0 < length rows
      → (c : Counter Cell) × (get_counter_data cells options rows name ≡ shown c)
  unfolding get_counter_data
  get_counter_data_shown rows name h =
      let (c, e) = counter_value-some rows h in
      let (t, f) = target_value-some rows h in
      let g : ltb 0 (length rows) ≡ true = ground arith in
      (counter_of cells options name c t, rw (g, e, f) refl)

  no_cell : (o : Option ℕ) (col : String) → cell_of cells (row_at [] o) col ≡ none
  no_cell none col = refl
  no_cell (some i) col = refl

  -- Without rows, a counter of the rows that has a target column throws.
  get_counter_data_thrown :
      (name : String)
      → options.count_row ≡ true
      → non_empty options.target_col_name ≡ true
      → get_counter_data cells options [] name ≡ thrown
  unfolding get_counter_data
  get_counter_data_thrown name e f =
      let c : counter_value_of cells options [] ≡ some (cells.of_count 0) =
        unfold counter_value_of in rw e refl in
      let t : target_value_of cells options [] ≡ none =
        unfold target_value_of in
        rw f (no_cell (get_row_number options.target_row_number 0) options.target_col_name) in
      rw (c, t, e) refl
