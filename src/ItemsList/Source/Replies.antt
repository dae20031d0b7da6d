-- ===== src/ItemsList/Source/Replies.antt =====
-- What the page shows after a fetch of a list that the client sorts and pages itself.
use mxzz_bi.Prelude.{
  ℕ, ◌+◌, ◌-◌, ◌/◌, ◌≤◌, ◌<◌, String, ◌≡◌, refl, ap, ◌∙◌, ◌≢◌, Bool, true, false, Option, none,
  some, List, [], ◌∷◌, arith, pos, get_elem?, length,
}
use mxzz_bi.Js.{text_or_null, Arg}
use mxzz_bi.ItemsList.Paginator.{Paginator, get_items_for_page}
use mxzz_bi.ItemsList.Paginator.Pages.{
  set_total_count_within, set_total_count_past, get_items_for_page-past,
}
use mxzz_bi.ItemsList.Sorter.{sort, set_field}
use mxzz_bi.ItemsList.Sorter.Order.{IsValid}
use mxzz_bi.ItemsList.Source.{
  plain, Changes, Request, Reply, queued, in_flight, Source, updated, error_handled, update_search,
  update_pagination, changed, remove, nullable, turned,
}
use mxzz_bi.ItemsList.Source.Fetch.{
  reply, begin, page_of, land, reply_task, process_reply, sorted_reply, begin_task, from_cache,
}

-- The number of pages of n items.
abbrev pub pages_of : ℕ → Paginator → ℕ
pages_of n p = (n + p.items_per_page - 1) / p.items_per_page

module _ {Req A : Type 0} (s : Source Req A) (items : List A) (custom : List (String × Arg)) where
  land_within :
      1 ≤ s.paginator.page
      → s.paginator.page ≤ pages_of (length items) s.paginator
      → (land (page_of s items) custom s).page_items
        ≡ get_items_for_page (land (page_of s items) custom s).paginator items
  unfolding land get_items_for_page
  land_within h k = rw (set_total_count_within (length items) s.paginator h k)

  land_past :
      1 ≤ s.paginator.items_per_page
      → pages_of (length items) s.paginator < s.paginator.page
      → ((land (page_of s items) custom s).page_items ≡ [])
        × ((land (page_of s items) custom s).paginator.page ≡ 1)
  unfolding land
  land_past h k = (
    get_items_for_page-past s.paginator items h k,
    ap (λ (p : Paginator). p.page) (set_total_count_past (length items) s.paginator k),
  )

module _ {Req Raw A : Type 0} (process : List Raw → List A) (sort_by : String → List A → List A)
    (s : Source Req A) (i : ℕ) (q : Req) (r : Reply Raw) (custom : List (String × Arg))
    (plain_list : s.kind ≡ plain) (flying : get_elem? s.tasks i ≡ some (in_flight q)) where
  reply-eq :
      reply process sort_by i r custom s
      ≡ sorted_reply
          (sort sort_by s.sorter (process r.rows))
          custom
          (record s { tasks = remove i s.tasks })
  unfolding reply reply_task process_reply
  reply-eq = rw (flying, plain_list)

  module _ (items : List A) (sorted : sort sort_by s.sorter (process r.rows) ≡ some items) where
    abbrev landed : Source Req A
    landed =
        land (page_of s items) custom (record s { tasks = remove i s.tasks; cache = some items })

    reply-landed : reply process sort_by i r custom s ≡ (landed, updated)
    unfolding sorted_reply
    reply-landed =
        reply-eq ∙ ap (λ o. sorted_reply o custom (record s { tasks = remove i s.tasks })) sorted

    -- When a request of a plain list is answered, and the page that is open exists in the sorted
    -- items: this page of them is what is shown, and it stays open.
    reply_within :
        1 ≤ s.paginator.page
        → s.paginator.page ≤ pages_of (length items) s.paginator
        → (s' : Source Req A) × (reply process sort_by i r custom s ≡ (s', updated))
          × (s'.page_items ≡ get_items_for_page s'.paginator items)
          × (s'.all_items ≡ some items)
          × (s'.paginator ≡ record s.paginator { total_count = pos (length items) })
    unfolding land
    reply_within h k = (
      landed,
      reply-landed,
      land_within (record s { tasks = remove i s.tasks; cache = some items }) items custom h k,
      refl,
      set_total_count_within (length items) s.paginator h k,
    )

    -- If a plain list's sorted reply has too few items for the page that is open, and a page holds at
    -- least one, the page becomes 1 and nothing is shown, whatever the list holds.
    pub reply_past :
        1 ≤ s.paginator.items_per_page
        → pages_of (length items) s.paginator < s.paginator.page
        → (s' : Source Req A) × (reply process sort_by i r custom s ≡ (s', updated))
          × (s'.page_items ≡ [])
          × (s'.paginator.page ≡ 1)
          × (s'.all_items ≡ some items)
    unfolding land
    reply_past h k =
        let (shown, page) =
          land_past (record s { tasks = remove i s.tasks; cache = some items }) items custom h k in
        (landed, reply-landed, shown, page, refl)

  -- With no field to sort on, a reply to a plain list ends in the error handler, and the fetcher's
  -- items are lost.
  reply_unsorted :
      s.sorter.field ≡ none
      → reply process sort_by i r custom s
        ≡ (record s { tasks = remove i s.tasks; cache = none }, error_handled)
  unfolding sorted_reply sort
  reply_unsorted e =
      reply-eq ∙ ap (λ o. sorted_reply o custom (record s { tasks = remove i s.tasks })) unsorted
    where
      no_field :
          (f : Option String) (d : Bool) (xs : List A)
          → f ≡ none
          → sort sort_by (record { field = f; reverse = d }) xs ≡ none
      no_field none d xs e = refl
      no_field (some f) d xs e = cc

      unsorted : sort sort_by s.sorter (process r.rows) ≡ none
      unsorted = no_field s.sorter.field s.sorter.reverse (process r.rows) e

module _ {Req A : Type 0} (get_request : Request → Req) (s : Source Req A) (items : List A)
    (plain_list : s.kind ≡ plain) (cached : s.cache ≡ some items) (idle : s.tasks ≡ []) where
  -- A fetch of a plain list for changes in neither tags nor sorting is served from the cache.
  begin-cached :
      (c : Changes) (t : Source Req A)
      → c.tags ≡ false
      → c.sorting ≡ false
      → t.kind ≡ plain
      → t.cache ≡ some items
      → t.tasks ≡ queued (some c) t.search_term t.selected_tags ∷ []
      → begin get_request 0 t ≡ (land (page_of t items) [] (record t { tasks = [] }), updated)
  unfolding begin begin_task from_cache
  begin-cached c t tags sorting kind cache tasks = ground arith

  -- Turning the pages of a plain list asks the server for nothing: the new page is cut from the
  -- items of the last reply.
  begin-update_pagination :
      (page items_per_page : Arg)
      → let t = update_pagination page items_per_page s in
        begin get_request 0 t ≡ (land (page_of t items) [] (record t { tasks = [] }), updated)
  unfolding update_pagination changed
  begin-update_pagination page items_per_page =
      let t = update_pagination page items_per_page s in
      begin-cached (turned s.paginator t.paginator) t refl refl plain_list cached (rw idle)

  -- A plain list with items in its cache and nothing under way shows a page of these items when
  -- the search term has changed, and asks the server nothing: the list is not searched.
  begin-update_search :
      (term : String)
      → let t = update_search term s in
        begin get_request 0 t ≡ (land (page_of t items) [] (record t { tasks = [] }), updated)
  unfolding update_search changed
  begin-update_search term =
      begin-cached
        (record { tags = false; sorting = false; search = true; pagination = some (true, false) })
        (update_search term s) refl refl plain_list cached (rw idle)

text_or_null-nullable :
    (f : Option String) → ◌≢◌ {A = Option String} f (some "") → text_or_null (nullable f) ≡ f
unfolding text_or_null
text_or_null-nullable none h = refl
text_or_null-nullable (some String.[]) h = absurd (h refl)
text_or_null-nullable (some (String.◌∷◌ c f)) h = refl

-- Searching and clearing the search gives the order back that the list had before.
update_search_clear :
    {Req A : Type 0} (s : Source Req A) (term : String)
    → IsValid s.sorter
    → s.saved_field ≡ s.sorter.field
    → (update_search "" (update_search term s)).sorter ≡ s.sorter
unfolding update_search set_field
update_search_clear s term v same =
    rw same (ap (λ (f : Option String). record s.sorter { field = f }) (text_or_null-nullable _ v))
