-- ===== src/ItemsList/Source/Validity.antt =====
-- Every history of user actions, replies and failures, in any order of the fetches.
use mxzz_bi.Prelude.{
  ℕ, String, true, Option, none, some, List, [], ◌∷◌, Bool-cases, inl, inr, pos, get_elem?,
}
use mxzz_bi.Js.{Arg, int}
use mxzz_bi.ItemsList.Paginator.Validity.{
  IsWellFormed, set_page-IsWellFormed, set_items_per_page-IsWellFormed,
  set_total_count-IsWellFormed, new-IsWellFormed,
}
use mxzz_bi.ItemsList.Sorter.{sort}
use mxzz_bi.ItemsList.Sorter.Order.{IsValid, set_field-IsValid, new-IsValid, toggle_field-IsValid}
use mxzz_bi.ItemsList.Source.{
  Kind, plain, paginated, Request, Reply, Fetched, Task, queued, in_flight, Source, Effect, Given,
  Changes, set_state, new, changed, update_pagination, toggle_sorting, update_search,
  update_selected_tags, update, remove,
}
use mxzz_bi.ItemsList.Source.Fetch.{
  asks_server, from_cache, sorted_reply, begin_task, begin, process_reply, reply_task, reply,
  fail_task, fail, land, page_of,
}

pub data Event (Raw : Type 0) : Type 0 where
  paginates : (page items_per_page : Arg) → Event Raw
  sorts : Arg → Event Raw
  searches : String → Event Raw
  selects : List String → Event Raw
  refreshes : Event Raw
  begins : ℕ → Event Raw
  replies : ℕ → Reply Raw → List (String × Arg) → Event Raw
  fails : ℕ → Event Raw

pub record IsSound {Req A : Type 0} (s : Source Req A) : Type 0 where
  pub pages : IsWellFormed s.paginator
  pub order : IsValid s.sorter

module _ {Req A : Type 0} where
  abbrev SoundAfter : Source Req A × Effect → Type 0
  SoundAfter r = IsSound r.0

  pub new-IsSound : (k : Kind) (g : Given) → IsSound (new {Req = Req} {A = A} k g)
  unfolding new set_state
  new-IsSound k g = record {
    pages = new-IsWellFormed g.page g.items_per_page g.total_count g.validate;
    order = new-IsValid g.order_by_field g.order_by_reverse;
  }

  changed-IsSound : (c : Option Changes) (s : Source Req A) → IsSound s → IsSound (changed c s)
  unfolding changed
  changed-IsSound c s h = record { pages = h.pages; order = h.order }

  update_pagination-IsSound :
      (page items : Arg) (s : Source Req A) → IsSound s → IsSound (update_pagination page items s)
  unfolding update_pagination
  update_pagination-IsSound page items s h = record {
    pages =
        set_page-IsWellFormed page true _
          (set_items_per_page-IsWellFormed items true s.paginator h.pages);
    order = h.order;
  }

  toggle_sorting-IsSound : (f : Arg) (s : Source Req A) → IsSound s → IsSound (toggle_sorting f s)
  unfolding toggle_sorting
  toggle_sorting-IsSound f s h = record {
    pages = h.pages;
    order = toggle_field-IsValid f s.sorter h.order;
  }

  update_search-IsSound : (t : String) (s : Source Req A) → IsSound s → IsSound (update_search t s)
  unfolding update_search
  update_search-IsSound t s h = record {
    pages = set_page-IsWellFormed (int (pos 1)) true s.paginator h.pages;
    order = set_field-IsValid _ s.sorter;
  }

  update_selected_tags-IsSound :
      (ts : List String) (s : Source Req A) → IsSound s → IsSound (update_selected_tags ts s)
  unfolding update_selected_tags
  update_selected_tags-IsSound ts s h = record {
    pages = set_page-IsWellFormed (int (pos 1)) true s.paginator h.pages;
    order = h.order;
  }

  land-IsSound :
      (f : Fetched A) (custom : List (String × Arg)) (s : Source Req A)
      → IsSound s
      → IsSound (land f custom s)
  unfolding land
  land-IsSound f custom s h = record {
    pages = set_total_count-IsWellFormed f.count true s.paginator h.pages;
    order = h.order;
  }

  from_cache-IsSound :
      (c : Option (List A)) (s : Source Req A) → IsSound s → SoundAfter (from_cache c s)
  unfolding from_cache
  from_cache-IsSound none s h = h
  from_cache-IsSound (some items) s h = land-IsSound (page_of s items) [] s h

  begin_task-IsSound :
      (g : Request → Req) (i : ℕ) (t : Option (Task Req)) (s : Source Req A)
      → IsSound s
      → SoundAfter (begin_task g i t s)
  unfolding begin_task
  begin_task-IsSound g i none s h = h
  begin_task-IsSound g i (some (in_flight r)) s h = h
  begin_task-IsSound g i (some (queued c term tags)) s h =
      elim (Bool-cases (asks_server s.kind c)) [
        | inl e ↦ rw e (record { pages = h.pages; order = h.order })
        | inr e ↦ rw e (
            from_cache-IsSound s.cache (record s { tasks = remove i s.tasks })
              (record { pages = h.pages; order = h.order }))
      ]

  fail_task-IsSound :
      (i : ℕ) (t : Option (Task Req)) (s : Source Req A) → IsSound s → SoundAfter (fail_task i t s)
  unfolding fail_task
  fail_task-IsSound i none s h = h
  fail_task-IsSound i (some (queued c term tags)) s h = h
  fail_task-IsSound i (some (in_flight q)) s h = record { pages = h.pages; order = h.order }

  sorted_reply-IsSound :
      (items : Option (List A)) (custom : List (String × Arg)) (s : Source Req A)
      → IsSound s
      → SoundAfter (sorted_reply items custom s)
  unfolding sorted_reply
  sorted_reply-IsSound none custom s h = record { pages = h.pages; order = h.order }
  sorted_reply-IsSound (some items) custom s h =
      land-IsSound (page_of s items) custom (record s { cache = some items })
        (record { pages = h.pages; order = h.order })

module _ {Req Raw A : Type 0} (get_request : Request → Req) (process : List Raw → List A)
    (sort_by : String → List A → List A) where
  process_reply-IsSound :
      (k : Kind) (r : Reply Raw) (custom : List (String × Arg)) (s : Source Req A)
      → IsSound s
      → IsSound (process_reply process sort_by k r custom s).0
  unfolding process_reply
  process_reply-IsSound plain r custom s h =
      sorted_reply-IsSound (sort sort_by s.sorter (process r.rows)) custom s h
  process_reply-IsSound paginated r custom s h = land-IsSound _ custom s h

  reply_task-IsSound :
      (i : ℕ) (t : Option (Task Req)) (r : Reply Raw) (custom : List (String × Arg))
      (s : Source Req A)
      → IsSound s
      → IsSound (reply_task process sort_by i t r custom s).0
  unfolding reply_task
  reply_task-IsSound i none r custom s h = h
  reply_task-IsSound i (some (queued c term tags)) r custom s h = h
  reply_task-IsSound i (some (in_flight q)) r custom s h =
      process_reply-IsSound s.kind r custom (record s { tasks = remove i s.tasks })
        (record { pages = h.pages; order = h.order })

  abbrev pub step : Source Req A → Event Raw → Source Req A × Effect
  step s (paginates page items) = (update_pagination page items s, Effect.quiet)
  step s (sorts f) = (toggle_sorting f s, Effect.quiet)
  step s (searches term) = (update_search term s, Effect.quiet)
  step s (selects tags) = (update_selected_tags tags s, Effect.quiet)
  step s refreshes = (update s, Effect.quiet)
  step s (begins i) = begin get_request i s
  step s (replies i r custom) = reply process sort_by i r custom s
  step s (fails i) = fail i s

  abbrev pub run : Source Req A → List (Event Raw) → Source Req A
  run s [] = s
  run s (e ∷ es) = run (step s e).0 es

  step-IsSound : (s : Source Req A) (e : Event Raw) → IsSound s → IsSound (step s e).0
  unfolding update begin reply fail
  step-IsSound s (paginates page items) h = update_pagination-IsSound page items s h
  step-IsSound s (sorts f) h = toggle_sorting-IsSound f s h
  step-IsSound s (searches term) h = update_search-IsSound term s h
  step-IsSound s (selects tags) h = update_selected_tags-IsSound tags s h
  step-IsSound s refreshes h = changed-IsSound none s h
  step-IsSound s (begins i) h = begin_task-IsSound get_request i (get_elem? s.tasks i) s h
  step-IsSound s (replies i r custom) h = reply_task-IsSound i (get_elem? s.tasks i) r custom s h
  step-IsSound s (fails i) h = fail_task-IsSound i (get_elem? s.tasks i) s h

  run-IsSound : (es : List (Event Raw)) (s : Source Req A) → IsSound s → IsSound (run s es)
  run-IsSound [] s h = h
  run-IsSound (e ∷ es) s h = run-IsSound es (step s e).0 (step-IsSound s e h)

  -- After every history of actions, replies and failures, in any order, page and page size are at
  -- least 1 and the sorter's field is null or a text that is not empty.
  pub run-new-IsSound : (k : Kind) (g : Given) (es : List (Event Raw)) → IsSound (run (new k g) es)
  run-new-IsSound k g es = run-IsSound es (new k g) (new-IsSound k g)
