-- ===== src/Pagination.antt =====
-- client/app/lib/pagination/paginator.js: rows shown a page at a time; `sort_by` is lodash's.
pub mod Shown
mod Tests
use Prim.Native.String
use mxzz_bi.Prelude.{
  ℕ, zero, suc, ◌+◌, ◌-◌, ◌*◌, ◌≤◌, String, Bool, true, false, not, Option, none, some, List, [],
  ◌∷◌, reverse, length, slice, str_eq, if◌then◌else◌,
}

pub record Paginator (Row : Type 0) : Type 0 where
  pub page : ℕ
  pub items_per_page : ℕ
  -- `undefined` for no rows
  pub rows : Option (List Row)
  pub total_count : ℕ
  pub order_by_field : Option String
  pub order_by_reverse : Bool

abbrev pub same_field : Option String → Option String → Bool
same_field none none = true
same_field (some a) (some b) = str_eq a b
same_field _ _ = false

-- `totalCount || n`
abbrev pub count_or : Option ℕ → ℕ → ℕ
count_or none n = n
count_or (some zero) n = n
count_or (some (suc m)) n = suc m

module _ {Row : Type 0} where
  unfoldable pub update_rows :
      Option (List Row) → (total_count : Option ℕ) → Paginator Row → Paginator Row
  update_rows none total_count p = record p { rows = none; total_count = 0 }
  update_rows (some rows) total_count p = record p {
    rows = some rows;
    total_count = count_or total_count (length rows);
  }

  unfoldable pub new :
      Option (List Row) → (page items_per_page : ℕ) → (total_count : Option ℕ) → Paginator Row
  unfolding update_rows
  new rows page items_per_page total_count = update_rows rows total_count (record {
    page = page;
    items_per_page = items_per_page;
    rows = none;
    total_count = 0;
    order_by_field = none;
    order_by_reverse = false;
  })

  abbrev pub set_page : ℕ → Paginator Row → Paginator Row
  set_page page p = record p { page = page }

  -- Page 0 would slice up to index 0, which gives no rows.
  unfoldable pub page_rows : (page items_per_page : ℕ) → List Row → List Row
  page_rows zero n rows = []
  page_rows (suc page) n rows = slice (n * page) (n * suc page) rows

  -- `none` where the slice of no rows throws
  unfoldable pub get_page_rows : Paginator Row → Option (List Row)
  unfolding page_rows
  get_page_rows p = elim p.rows [
    | none ↦ none
    | some rows ↦ some (page_rows p.page p.items_per_page rows)
  ]

  abbrev pub or_none : Option (List Row) → List Row
  or_none none = []
  or_none (some rows) = rows

  -- By a truthy field; `sortBy` of no rows gives none, as an array.
  unfoldable pub sort_rows :
      (sort_by : String → List Row → List Row)
      → Option String
      → (reversed : Bool) → Option (List Row)
      → Option (List Row)
  sort_rows sort_by (some (String.◌∷◌ c s)) reversed rows =
      let sorted = sort_by (String.◌∷◌ c s) (or_none rows) in
      some (if reversed then reverse sorted else sorted)
  sort_rows sort_by _ reversed rows = rows

  unfoldable pub order_by :
      (sort_by : String → List Row → List Row) → Option String → Paginator Row → Paginator Row
  unfolding sort_rows
  order_by sort_by column p =
      let reversed = if same_field column p.order_by_field then not p.order_by_reverse else false in
      record p {
        order_by_field = column;
        order_by_reverse = reversed;
        rows = sort_rows sort_by column reversed p.rows;
      }
