-- ===== src/ItemsList/Source/Fetch.antt =====
-- ItemsFetcher.js, and how `_changed` of ItemsSource.js goes on when a fetch does.
use mxzz_bi.Prelude.{
  ℕ, String, Bool, true, ◌||◌, Option, none, some, List, [], ◌++◌, if◌then◌else◌, pos, length,
  get_elem?,
}
use mxzz_bi.Js.{Arg, int, str, text_or_null}
use mxzz_bi.ItemsList.Paginator.{Paginator, get_items_for_page}
use mxzz_bi.ItemsList.Paginator
use mxzz_bi.ItemsList.Sorter.{Sorter}
use mxzz_bi.ItemsList.Sorter
use mxzz_bi.ItemsList.Source.{
  Kind, plain, paginated, Changes, Request, plain_request, page_request, Reply, Fetched, Task,
  queued, in_flight, Source, Effect, quiet, updated, error_handled, rejected, remove, replace,
}

-- `isNil(changes) || changes.tags || changes.sorting`
abbrev pub reloads : Option Changes → Bool
reloads none = true
reloads (some c) = c.tags || c.sorting

abbrev pub asks_server : Kind → Option Changes → Bool
asks_server paginated c = true
asks_server plain c = reloads c

module _ {Req A : Type 0} where
  -- `_getRequest` of the two fetchers.
  unfoldable pub request_of : Kind → Source Req A → String → List String → Request
  request_of plain s term tags = plain_request (text_or_null (str term)) tags
  request_of paginated s term tags =
      page_request s.paginator.page s.paginator.items_per_page (Sorter.compiled s.sorter)
        (text_or_null (str term)) tags

  -- `{ results: paginator.getItemsForPage(items), count: items.length, allResults: items }`
  abbrev pub page_of : Source Req A → List A → Fetched A
  page_of s items = record {
    results = get_items_for_page s.paginator items;
    count = int (pos (length items));
    all_results = some items;
  }

  -- The success handler of `_changed`; `custom` is what the callbacks gave `setCustomParams`.
  unfoldable pub land : Fetched A → List (String × Arg) → Source Req A → Source Req A
  land f custom s = record s {
    page_items = f.results;
    all_items = f.all_results;
    paginator = Paginator.set_total_count f.count true s.paginator;
    params = custom ++ s.params;
  }

  -- A plain list that is not asked for again is paged from the cache. With no cache the method
  -- throws before `_changed` has a handler on its promise.
  unfoldable pub from_cache : Option (List A) → Source Req A → Source Req A × Effect
  unfolding land
  from_cache none s = (s, rejected)
  from_cache (some items) s = (land (page_of s items) [] s, updated)

  -- `PlainListFetcher._processResults` and the handlers of `_changed`. With no field `sort` gives
  -- `undefined`, which is stored before `getItemsForPage` throws on it.
  unfoldable pub sorted_reply :
      Option (List A) → List (String × Arg) → Source Req A → Source Req A × Effect
  unfolding land
  sorted_reply none custom s = (record s { cache = none }, error_handled)
  sorted_reply (some items) custom s =
      (land (page_of s items) custom (record s { cache = some items }), updated)

  unfoldable pub begin_task :
      (Request → Req) → ℕ → Option (Task Req) → Source Req A → Source Req A × Effect
  unfolding request_of from_cache
  begin_task get_request i none s = (s, quiet)
  begin_task get_request i (some (in_flight r)) s = (s, quiet)
  begin_task get_request i (some (queued c term tags)) s =
      if asks_server s.kind c
      then (
        record s {
          tasks = replace i (in_flight (get_request (request_of s.kind s term tags))) s.tasks;
        },
        quiet,
      )
      else from_cache s.cache (record s { tasks = remove i s.tasks })

  -- The i-th fetch goes on after `onBeforeUpdate`.
  unfoldable pub begin : (Request → Req) → ℕ → Source Req A → Source Req A × Effect
  unfolding begin_task
  begin get_request i s = begin_task get_request i (get_elem? s.tasks i) s

  unfoldable pub fail_task : ℕ → Option (Task Req) → Source Req A → Source Req A × Effect
  fail_task i none s = (s, quiet)
  fail_task i (some (queued c term tags)) s = (s, quiet)
  fail_task i (some (in_flight q)) s = (record s { tasks = remove i s.tasks }, error_handled)

  -- The i-th request fails: `handleError`.
  unfoldable pub fail : ℕ → Source Req A → Source Req A × Effect
  unfolding fail_task
  fail i s = fail_task i (get_elem? s.tasks i) s

module _ {Req Raw A : Type 0} where
  unfoldable pub process_reply :
      (List Raw → List A)
      → (String → List A → List A)
      → Kind
      → Reply Raw
      → List (String × Arg)
      → Source Req A
      → Source Req A × Effect
  unfolding sorted_reply land
  process_reply process sort_by plain r custom s =
      sorted_reply (Sorter.sort sort_by s.sorter (process r.rows)) custom s
  process_reply process sort_by paginated r custom s = (
    land (record { results = process r.rows; count = r.count; all_results = none }) custom s,
    updated,
  )

  unfoldable pub reply_task :
      (List Raw → List A)
      → (String → List A → List A)
      → ℕ
      → Option (Task Req)
      → Reply Raw
      → List (String × Arg)
      → Source Req A
      → Source Req A × Effect
  unfolding process_reply
  reply_task process sort_by i none r custom s = (s, quiet)
  reply_task process sort_by i (some (queued c term tags)) r custom s = (s, quiet)
  reply_task process sort_by i (some (in_flight q)) r custom s =
      process_reply process sort_by s.kind r custom (record s { tasks = remove i s.tasks })

  -- The reply to the i-th fetch arrives.
  unfoldable pub reply :
      (List Raw → List A)
      → (String → List A → List A)
      → ℕ
      → Reply Raw
      → List (String × Arg)
      → Source Req A
      → Source Req A × Effect
  unfolding reply_task
  reply process sort_by i r custom s = reply_task process sort_by i (get_elem? s.tasks i) r custom s
