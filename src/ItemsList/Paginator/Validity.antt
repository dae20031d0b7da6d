-- ===== src/ItemsList/Paginator/Validity.antt =====
-- The range that the setters keep `page` and `itemsPerPage` in.
use mxzz_bi.Prelude.{
  some, ◌≤◌, ◌≡◌, refl, List, [], ◌∷◌, ◌⊎◌, inl, Bool, true, false, arith, ℤ, pos, negsuc, ◌≤ℤ◌,
}
use mxzz_bi.Js.{Arg, undefined, int, parse_int, or_default}
use mxzz_bi.ItemsList.Paginator.{
  Paginator, total_pages, page_within, at_least_one, put_page, set_page, revalidate,
  set_items_per_page, set_total_count, fresh, new,
}

-- What holds whatever `validate` was.
pub record IsWellFormed (p : Paginator) : Type 0 where
  pub page_pos : 1 ≤ p.page
  pub items_pos : 1 ≤ p.items_per_page

-- The page exists, or is the first one.
abbrev pub InRange : Paginator → Type 0
InRange p = (p.page ≡ 1) ⊎ (pos p.page ≤ℤ total_pages p)

page_within_pos : (v l : ℤ) → 1 ≤ page_within v l
page_within_pos (pos n) (pos l) = ground arith
page_within_pos (pos n) (negsuc l) = omega arith
page_within_pos (negsuc n) l = omega arith

page_within_le : (v l : ℤ) → (page_within v l ≡ 1) ⊎ (pos (page_within v l) ≤ℤ l)
page_within_le (pos n) (pos l) = ground arith
page_within_le (pos n) (negsuc l) = inl refl
page_within_le (negsuc n) l = inl refl

at_least_one_pos : (v : ℤ) → 1 ≤ at_least_one v
at_least_one_pos (pos n) = ground arith
at_least_one_pos (negsuc n) = omega arith

put_page-IsWellFormed :
    (v : ℤ) (b : Bool) (p : Paginator) → IsWellFormed p → IsWellFormed (put_page v b p)
unfolding put_page
put_page-IsWellFormed v true p w = record {
  page_pos = page_within_pos v (total_pages p);
  items_pos = w.items_pos;
}
put_page-IsWellFormed v false p w = record {
  page_pos = at_least_one_pos v;
  items_pos = w.items_pos;
}

put_page-InRange : (v : ℤ) (p : Paginator) → InRange (put_page v true p)
unfolding put_page total_pages
put_page-InRange v p = page_within_le v (total_pages p)

revalidate-IsWellFormed :
    (b : Bool) (p : Paginator) → IsWellFormed p → IsWellFormed (revalidate b p)
unfolding revalidate
revalidate-IsWellFormed true p w = put_page-IsWellFormed (pos p.page) true p w
revalidate-IsWellFormed false p w = w

pub set_page-IsWellFormed :
    (v : Arg) (b : Bool) (p : Paginator) → IsWellFormed p → IsWellFormed (set_page v b p)
unfolding set_page
set_page-IsWellFormed undefined b p w = w
set_page-IsWellFormed v b p w = put_page-IsWellFormed (or_default (parse_int v) 1) b p w

pub set_items_per_page-IsWellFormed :
    (v : Arg) (b : Bool) (p : Paginator) → IsWellFormed p → IsWellFormed (set_items_per_page v b p)
unfolding set_items_per_page
set_items_per_page-IsWellFormed undefined b p w = w
set_items_per_page-IsWellFormed v b p w =
    revalidate-IsWellFormed b _
      (record { page_pos = w.page_pos; items_pos = at_least_one_pos (or_default (parse_int v) 20) })

pub set_total_count-IsWellFormed :
    (v : Arg) (b : Bool) (p : Paginator) → IsWellFormed p → IsWellFormed (set_total_count v b p)
unfolding set_total_count
set_total_count-IsWellFormed undefined b p w = w
set_total_count-IsWellFormed v b p w =
    revalidate-IsWellFormed b _ (record { page_pos = w.page_pos; items_pos = w.items_pos })

fresh-IsWellFormed : IsWellFormed fresh
fresh-IsWellFormed = omega arith

-- The constructor gives a page and a page size of at least 1 for all arguments, checked or not.
pub new-IsWellFormed :
    (page items total : Arg) (validate : Bool) → IsWellFormed (new page items total validate)
unfolding new
new-IsWellFormed page items total validate = set_page-IsWellFormed page validate _ (
    set_total_count-IsWellFormed total validate _
      (set_items_per_page-IsWellFormed items validate fresh fresh-IsWellFormed))

-- With `validate`, each setter keeps the page in range; a setter that is given a value puts it there.
pub set_page-InRange : (v : Arg) (p : Paginator) → InRange p → InRange (set_page v true p)
unfolding set_page
set_page-InRange undefined p h = h
set_page-InRange v p h = put_page-InRange (or_default (parse_int v) 1) p

pub set_items_per_page-InRange :
    (v : Arg) (p : Paginator) → InRange p → InRange (set_items_per_page v true p)
unfolding set_items_per_page revalidate
set_items_per_page-InRange undefined p h = h
set_items_per_page-InRange v p h =
    put_page-InRange (pos p.page)
      (record p { items_per_page = at_least_one (or_default (parse_int v) 20) })

pub set_total_count-InRange :
    (v : Arg) (p : Paginator) → InRange p → InRange (set_total_count v true p)
unfolding set_total_count revalidate
set_total_count-InRange undefined p h = h
set_total_count-InRange v p h =
    put_page-InRange (pos p.page) (record p { total_count = or_default (parse_int v) 0 })

-- Whatever the state was, a total count from the server brings the page back into range.
pub set_total_count-InRange_of_int :
    (n : ℤ) (p : Paginator) → InRange (set_total_count (int n) true p)
unfolding set_total_count revalidate parse_int
set_total_count-InRange_of_int n p =
    put_page-InRange (pos p.page) (record p { total_count = or_default (some n) 0 })

pub new-InRange : (page items total : Arg) → InRange (new page items total true)
unfolding new
new-InRange page items total =
    set_page-InRange page _
      (set_total_count-InRange total _ (set_items_per_page-InRange items fresh (inl refl)))

-- The setters as values, to speak of a history of calls.
pub data Call : Type 0 where
  sets_page sets_items_per_page sets_total_count : Arg → Call

abbrev pub call : Paginator → Call → Paginator
call p (sets_page v) = set_page v true p
call p (sets_items_per_page v) = set_items_per_page v true p
call p (sets_total_count v) = set_total_count v true p

abbrev pub calls : Paginator → List Call → Paginator
calls p [] = p
calls p (c ∷ cs) = calls (call p c) cs

call_lem :
    (p : Paginator) (c : Call)
    → IsWellFormed p × InRange p
    → IsWellFormed (call p c) × InRange (call p c)
call_lem p (sets_page v) (w, r) = (set_page-IsWellFormed v true p w, set_page-InRange v p r)
call_lem p (sets_items_per_page v) (w, r) =
    (set_items_per_page-IsWellFormed v true p w, set_items_per_page-InRange v p r)
call_lem p (sets_total_count v) (w, r) =
    (set_total_count-IsWellFormed v true p w, set_total_count-InRange v p r)

calls_lem :
    (p : Paginator) (cs : List Call)
    → IsWellFormed p × InRange p
    → IsWellFormed (calls p cs) × InRange (calls p cs)
calls_lem p [] h = h
calls_lem p (c ∷ cs) h = calls_lem (call p c) cs (call_lem p c h)

-- After any history of validated calls on a validated paginator, whatever values the calls were
-- given, the page and the page size are at least 1 and the page is 1 or one that exists.
calls-new :
    (page items total : Arg) (cs : List Call)
    → IsWellFormed (calls (new page items total true) cs)
      × InRange (calls (new page items total true) cs)
calls-new page items total cs =
    calls_lem _ cs (new-IsWellFormed page items total true, new-InRange page items total)
