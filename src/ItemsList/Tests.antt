-- ===== src/ItemsList/Tests.antt =====
-- The theorems of the list pages at concrete inputs, and runs of the code.
use mathlib.Core.List.{Perm, Pairwise, Pairwise-cons, Mem, mem-cons, not-mem-nil}
use mathlib.Core.List.Perm
use mathlib.Core.Logic.Or
use native.Mathlib.Bridge.{le_prop}
use mxzz_bi.Prelude.{
  ℕ, ◌≤◌, String, ◌≡◌, refl, true, false, List, [], ◌∷◌, arith, pos, leb, if◌then◌else◌, Bool-cases,
  inl, inr,
}
use mxzz_bi.Js.{int, str, parse_int}
use mxzz_bi.ItemsList.Paginator.{Paginator, total_pages, get_items_for_page, set_total_count}
use mxzz_bi.ItemsList.Paginator
use mxzz_bi.ItemsList.Paginator.Pages.{first_pages, first_pages-total_pages}
use mxzz_bi.ItemsList.Sorter.Order.{SortsBy}

-- `sortBy` for items that are numbers and whose every field is the number itself.
insert_asc : ℕ → List ℕ → List ℕ
insert_asc x [] = x ∷ []
insert_asc x (y ∷ ys) = if leb x y then x ∷ y ∷ ys else y ∷ insert_asc x ys

sort_asc : String → List ℕ → List ℕ
unfolding insert_asc
sort_asc f [] = []
sort_asc f (x ∷ xs) = insert_asc x (sort_asc f xs)

abbrev AtMost : String → ℕ → ℕ → Type 0
AtMost f a b = a ≤ b

insert_asc-perm : (x : ℕ) (xs : List ℕ) → Perm (insert_asc x xs) (x ∷ xs)
unfolding insert_asc
insert_asc-perm x [] = Perm.refl _
insert_asc-perm x (y ∷ ys) = elim (Bool-cases (leb x y)) [
  | inl e ↦ rw e (Perm.refl _)
  | inr e ↦ rw e (Perm.trans (Perm.cons y (insert_asc-perm x ys)) (Perm.swap x y ys))
]

sort_asc-perm : (f : String) (xs : List ℕ) → Perm (sort_asc f xs) xs
unfolding sort_asc
sort_asc-perm f [] = Perm.refl _
sort_asc-perm f (x ∷ xs) =
    Perm.trans (insert_asc-perm x (sort_asc f xs)) (Perm.cons x (sort_asc-perm f xs))

leb-false : (a b : ℕ) → leb a b ≡ false → b ≤ a
leb-false a b h = ground arith

leb-true : (a b : ℕ) → leb a b ≡ true → a ≤ b
leb-true a b h = ground arith

below_all :
    (x y : ℕ) (ys : List ℕ)
    → x ≤ y
    → ((b : ℕ) → Mem b ys → x ≤ b)
    → (a : ℕ) → Mem a (y ∷ ys)
    → x ≤ a
below_all x y ys h k a m = Or.elim le_prop (mem-cons.0 m) (λ e. rw e h) (λ n. k a n)

insert_asc-sorted :
    (f : String) (x : ℕ) (xs : List ℕ)
    → Pairwise (AtMost f) xs
    → Pairwise (AtMost f) (insert_asc x xs)
unfolding insert_asc
insert_asc-sorted f x [] h = Pairwise-cons.1 ((λ a m. absurd (not-mem-nil m)), h)
insert_asc-sorted f x (y ∷ ys) h =
    let after = (Pairwise-cons.0 h).0 in
    elim (Bool-cases (leb x y)) [
      | inl e ↦
          let first = leb-true x y e in
          rw e
            (Pairwise-cons.1 (below_all x y ys first (λ b n. let l = after b n in omega arith), h))
      | inr e ↦ rw e (
          Pairwise-cons.1 (
            (λ a m.
                below_all y x ys (leb-false x y e) after a
                  ((Perm.mem_iff (insert_asc-perm x ys)).0 m)),
            insert_asc-sorted f x ys (Pairwise-cons.0 h).1,
          ))
    ]

sort_asc-sorted : (f : String) (xs : List ℕ) → Pairwise (AtMost f) (sort_asc f xs)
unfolding sort_asc
sort_asc-sorted f [] = Pairwise.nil
sort_asc-sorted f (x ∷ xs) = insert_asc-sorted f x (sort_asc f xs) (sort_asc-sorted f xs)

sort_asc-SortsBy : SortsBy AtMost sort_asc
sort_asc-SortsBy = record {
  below_prop = λ f a b. le_prop;
  same_items = sort_asc-perm;
  ascending = sort_asc-sorted;
}

-- The paginator.
abbrev two_a_page : Paginator
two_a_page = record { page = 3; items_per_page = 2; total_count = pos 5 }

abbrev letters : List ℕ
letters = 1 ∷ 2 ∷ 3 ∷ 4 ∷ 5 ∷ []

pages : Unit {0}
unfolding total_pages get_items_for_page set_total_count Paginator.new parse_int
pages = tt

last_page : get_items_for_page two_a_page letters ≡ 5 ∷ []
unfolding pages
last_page = refl

first_pages-total_pages_example : first_pages 3 two_a_page letters ≡ letters
unfolding pages
first_pages-total_pages_example =
    first_pages-total_pages two_a_page 3 letters (omega arith) refl refl

-- Texts from a URL are read by `parseInt`; a page that does not exist is the first one.
from_url :
    Paginator.new (str "2 ") (str "10x") (int (pos 15)) true
    ≡ record { page = 2; items_per_page = 10; total_count = pos 15 }
unfolding pages
from_url = refl
