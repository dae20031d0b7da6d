-- ===== src/ItemsList/Paginator.antt =====
-- client/app/components/items-list/classes/Paginator.js
pub mod Validity
pub mod Pages
use mxzz_bi.Prelude.{
  ℕ, suc, ◌+◌, ◌-◌, ◌*◌, ◌/◌, Bool, true, false, ◌&&◌, Option, none, some, List, if◌then◌else◌, leb,
  ℤ, pos, negsuc, neg, slice,
}
use mxzz_bi.Js.{Arg, undefined, parse_int, or_default}

-- `page` and `itemsPerPage` are never below 1; `totalCount` is what the server said.
pub record Paginator : Type 0 where
  pub page : ℕ
  pub items_per_page : ℕ
  pub total_count : ℤ

-- `Math.ceil(totalCount / itemsPerPage)`. A negative quotient is rounded towards 0.
unfoldable pub total_pages : Paginator → ℤ
total_pages p = elim p.total_count [
  | pos n ↦ pos ((n + p.items_per_page - 1) / p.items_per_page)
  | negsuc n ↦ neg (suc n / p.items_per_page)
]

-- `value >= 1 && value <= limit ? value : 1`
abbrev pub page_within : ℤ → ℤ → ℕ
page_within (pos n) (pos limit) = if leb 1 n && leb n limit then n else 1
page_within (pos n) (negsuc limit) = 1
page_within (negsuc n) limit = 1

-- `value >= 1 ? value : 1`
abbrev pub at_least_one : ℤ → ℕ
at_least_one (pos n) = if leb 1 n then n else 1
at_least_one (negsuc n) = 1

put_page : ℤ → Bool → Paginator → Paginator
unfolding total_pages
put_page value true p = record p { page = page_within value (total_pages p) }
put_page value false p = record p { page = at_least_one value }

unfoldable pub set_page : Arg → Bool → Paginator → Paginator
unfolding put_page parse_int
set_page undefined validate p = p
set_page value validate p = put_page (or_default (parse_int value) 1) validate p

-- `if (validate) this.setPage(this.page, validate)`
revalidate : Bool → Paginator → Paginator
unfolding put_page
revalidate true p = put_page (pos p.page) true p
revalidate false p = p

unfoldable pub set_items_per_page : Arg → Bool → Paginator → Paginator
unfolding revalidate parse_int
set_items_per_page undefined validate p = p
set_items_per_page value validate p =
    revalidate validate
      (record p { items_per_page = at_least_one (or_default (parse_int value) 20) })

unfoldable pub set_total_count : Arg → Bool → Paginator → Paginator
unfolding revalidate parse_int
set_total_count undefined validate p = p
set_total_count value validate p =
    revalidate validate (record p { total_count = or_default (parse_int value) 0 })

-- The field initialisers.
abbrev pub fresh : Paginator
fresh = record { page = 1; items_per_page = 20; total_count = pos 0 }

-- The constructor.
unfoldable pub new : (page items_per_page total_count : Arg) (validate : Bool) → Paginator
unfolding set_page set_items_per_page set_total_count
new page items_per_page total_count validate =
    set_page page validate
      (set_total_count total_count validate (set_items_per_page items_per_page validate fresh))

unfoldable pub get_items_for_page {ℓ} : {A : Type ℓ} → Paginator → List A → List A
get_items_for_page p items =
    let first = p.items_per_page * (p.page - 1) in slice first (first + p.items_per_page) items
