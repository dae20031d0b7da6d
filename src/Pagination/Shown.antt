-- ===== src/Pagination/Shown.antt =====
-- paginator.js: the rows on the pages, and the order after a column is chosen.
use Prim.Native.Char.{Char}
use mxzz_bi.Prelude.{
  ℕ, zero, suc, ◌+◌, ◌-◌, ◌*◌, ◌≤◌, String, ◌≡◌, refl, ap, ◌∙◌, true, false, some, List, [], ◌++◌,
  reverse, length, take, drop, take_all, drop_all, arith, eq_iff,
}
use mxzz_bi.ItemsList.Paginator.Pages.{take-add, take-nil}
use mxzz_bi.Pagination.{Paginator, same_field, page_rows, sort_rows, order_by}

same_field_self : (s : String) → same_field (some s) (some s) ≡ true
same_field_self s = (eq_iff s s).1 refl

module _ {Row : Type 0} where
  -- Pages 1 to n, one after the other.
  abbrev pub pages : ℕ → (items_per_page : ℕ) → List Row → List Row
  pages zero k rows = []
  pages (suc n) k rows = pages n k rows ++ page_rows (suc n) k rows

  page_rows-take :
      (n k : ℕ) (rows : List Row) → page_rows (suc n) k rows ≡ take k (drop (k * n) rows)
  unfolding page_rows
  page_rows-take n k rows =
      let e : k * suc n - k * n ≡ k = grind arith in ap (λ (m : ℕ). take m (drop (k * n) rows)) e

  pages-take : (n k : ℕ) (rows : List Row) → pages n k rows ≡ take (k * n) rows
  pages-take zero k rows = let e : k * zero ≡ zero = grind arith in rw e
  pages-take (suc n) k rows =
      let e : k * suc n ≡ k * n + k = grind arith in
      rw (e, pages-take n k rows, page_rows-take, take-add (k * n) k rows)

  -- When the first n pages have room for all rows, they show each row once, in order, and the page
  -- behind them shows none.
  pages_all :
      (n k : ℕ) (rows : List Row)
      → length rows ≤ k * n
      → (pages n k rows ≡ rows) × (page_rows (suc n) k rows ≡ [])
  pages_all n k rows h = (
    pages-take n k rows ∙ take_all (k * n) rows h,
    page_rows-take n k rows ∙ rw (drop_all (k * n) rows h) (take-nil k),
  )

  -- With a sort that leaves sorted rows as they are: ordering by a column, not the empty text, that the rows are not
  -- ordered by sorts them, and ordering by it a second time shows them in the reverse order.
  order_by-order_by :
      (sort_by : String → List Row → List Row)
      → ((f : String) (rows : List Row) → sort_by f (sort_by f rows) ≡ sort_by f rows)
      → (p : Paginator Row) (rows : List Row) (a : Char) (s : String) → p.rows ≡ some rows
      → same_field (some (String.◌∷◌ a s)) p.order_by_field ≡ false
      → let c = String.◌∷◌ a s in
        ((order_by sort_by (some c) p).rows ≡ some (sort_by c rows))
        × ((order_by sort_by (some c) (order_by sort_by (some c) p)).rows
            ≡ some (reverse (sort_by c rows)))
  unfolding order_by sort_rows
  order_by-order_by sort_by h p rows a s e f =
      let c = String.◌∷◌ a s in (rw (f, e) refl, rw (f, e, same_field_self c, h c rows) refl)
