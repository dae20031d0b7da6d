-- ===== src/ItemsList/Paginator/Pages.antt =====
-- The pages of a list that the client pages itself.
use mxzz_bi.Prelude.{
  some, true, ℕ, zero, suc, ◌+◌, ◌-◌, ◌*◌, ◌/◌, ◌≤◌, ◌<◌, ◌≡◌, refl, sym, ap, ◌∙◌, List, [], ◌∷◌,
  ◌++◌, arith, pos, length, take, drop, min, drop_all, take_all, length-take, length-drop,
}
use mxzz_bi.Js.{int, or_default}
use mxzz_bi.ItemsList.Paginator.{
  Paginator, page_within, set_total_count, total_pages, get_items_for_page,
}

module _ {ℓ} {A : Type ℓ} where
  pub take-nil : (k : ℕ) → take {A = A} k [] ≡ []
  take-nil zero = refl
  take-nil (suc k) = refl

  pub take-add : (m n : ℕ) (xs : List A) → take (m + n) xs ≡ take m xs ++ take n (drop m xs)
  take-add zero n xs = let e : zero + n ≡ n = omega arith in rw e
  take-add (suc m) n [] = let e : suc m + n ≡ suc (m + n) = omega arith in rw e (sym (take-nil n))
  take-add (suc m) n (x ∷ xs) =
      let e : suc m + n ≡ suc (m + n) = omega arith in rw e (ap (x ∷◌) (take-add m n xs))

  get_items_for_page-take :
      (p : Paginator) (xs : List A)
      → get_items_for_page p xs ≡ take p.items_per_page (drop (p.items_per_page * (p.page - 1)) xs)
  unfolding get_items_for_page
  get_items_for_page-take p xs =
      let first : ℕ = p.items_per_page * (p.page - 1) in
      let e : first + p.items_per_page - first ≡ p.items_per_page = omega arith in
      ap (λ (n : ℕ). take n (drop first xs)) e

  -- Pages 1 to n, one after the other.
  abbrev pub first_pages : ℕ → Paginator → List A → List A
  first_pages zero p xs = []
  first_pages (suc n) p xs = first_pages n p xs ++ get_items_for_page (record p { page = suc n }) xs

  first_pages-take :
      (n : ℕ) (p : Paginator) (xs : List A) → first_pages n p xs ≡ take (p.items_per_page * n) xs
  first_pages-take zero p xs = let e : p.items_per_page * zero ≡ zero = grind arith in rw e
  first_pages-take (suc n) p xs =
      let e : p.items_per_page * suc n ≡ p.items_per_page * n + p.items_per_page = grind arith in
      let f : suc n - 1 ≡ n = omega arith in
      rw (
        e,
        first_pages-take n p xs,
        get_items_for_page-take,
        f,
        take-add (p.items_per_page * n) p.items_per_page xs,
      )

  -- A page shows as many items as are left, `itemsPerPage` at most.
  length-get_items_for_page :
      (p : Paginator) (xs : List A)
      → length (get_items_for_page p xs)
        ≡ min p.items_per_page (length xs - p.items_per_page * (p.page - 1))
  length-get_items_for_page p xs = rw (get_items_for_page-take, length-take, length-drop)

ceil_bound : (n k : ℕ) → 1 ≤ k → n ≤ k * ((n + k - 1) / k)
ceil_bound n k h = grind arith

le_times : (n k a b : ℕ) → n ≤ k * a → a ≤ b → n ≤ k * b
le_times n k a b h m = grind arith

pos_inj : (a b : ℕ) → pos a ≡ pos b → a ≡ b
pos_inj a b h = cc

pub total_pages-eq :
    (p : Paginator) (m : ℕ)
    → p.total_count ≡ pos m
    → total_pages p ≡ pos ((m + p.items_per_page - 1) / p.items_per_page)
unfolding total_pages
total_pages-eq p m e = rw (e, total_pages)

module _ {ℓ} {A : Type ℓ} where
  -- When the total count is the number of items, the pages 1 to `totalPages`, put together, are the
  -- items: no item is lost, shown twice or moved.
  pub first_pages-total_pages :
      (p : Paginator) (n : ℕ) (xs : List A)
      → 1 ≤ p.items_per_page
      → p.total_count ≡ pos (length xs)
      → total_pages p ≡ pos n
      → first_pages n p xs ≡ xs
  first_pages-total_pages p n xs h e t =
      let k = p.items_per_page in
      let c = pos_inj _ _ (sym t ∙ total_pages-eq p (length xs) e) in
      rw (first_pages-take n p xs) (take_all (k * n) xs (rw c (ceil_bound (length xs) k h)))

  -- A page past the last one shows nothing.
  pub get_items_for_page-past :
      (p : Paginator) (xs : List A)
      → 1 ≤ p.items_per_page
      → (length xs + p.items_per_page - 1) / p.items_per_page < p.page
      → get_items_for_page p xs ≡ []
  get_items_for_page-past p xs h past =
      let k = p.items_per_page in
      let last = (length xs + k - 1) / k in
      let b : length xs ≤ k * (p.page - 1) =
        le_times (length xs) k last (p.page - 1) (ceil_bound (length xs) k h) (omega arith) in
      rw (get_items_for_page-take p xs, drop_all (k * (p.page - 1)) xs b) (take-nil k)

or_default_zero : (n : ℕ) → or_default (some (pos n)) 0 ≡ pos n
or_default_zero zero = refl
or_default_zero (suc n) = refl

-- `setTotalCount` of a count.
pub set_total_count-eq :
    (n : ℕ) (p : Paginator)
    → set_total_count (int (pos n)) true p ≡ record p {
      page = page_within (pos p.page) (pos ((n + p.items_per_page - 1) / p.items_per_page));
      total_count = pos n;
    }
unfolding set_total_count total_pages
set_total_count-eq n p = rw or_default_zero

module _ (n : ℕ) (p : Paginator) where
  pub set_total_count_within :
      1 ≤ p.page
      → p.page ≤ (n + p.items_per_page - 1) / p.items_per_page
      → set_total_count (int (pos n)) true p ≡ record p { total_count = pos n }
  set_total_count_within h k =
      let e : page_within (pos p.page) (pos ((n + p.items_per_page - 1) / p.items_per_page))
          ≡ p.page =
        ground arith in
      rw (set_total_count-eq n p, e)

  pub set_total_count_past :
      (n + p.items_per_page - 1) / p.items_per_page < p.page
      → set_total_count (int (pos n)) true p ≡ record p { page = 1; total_count = pos n }
  set_total_count_past k =
      let e : page_within (pos p.page) (pos ((n + p.items_per_page - 1) / p.items_per_page)) ≡ 1 =
        ground arith in
      rw (set_total_count-eq n p, e)
