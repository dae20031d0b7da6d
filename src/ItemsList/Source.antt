-- ===== src/ItemsList/Source.antt =====
-- client/app/components/items-list/classes/ItemsSource.js and ItemsFetcher.js
-- A source of items with the fetches that it has under way. The promises of `_changed` are explicit:
-- a fetch waits in `tasks` until `onBeforeUpdate` is done (`begin`), then for its reply. Everything
-- that a fetch reads of the paginator and the sorter it reads when it goes on, since the code hands
-- over the objects themselves.
pub mod Fetch
pub mod Validity
pub mod Replies
mod Tests
use mxzz_bi.Prelude.{
  ℕ, zero, suc, ◌+◌, String, Bool, true, false, ◌||◌, ◌&&◌, not, Option, none, some, List, [], ◌∷◌,
  ◌++◌, map, ◌==◌, str_eq, if◌then◌else◌, ℤ, pos, length, get_elem?,
}
use mxzz_bi.Js.{Arg, undefined, null, nan, int, bool, str, text_or_null}
use mxzz_bi.ItemsList.Paginator.{Paginator, get_items_for_page}
use mxzz_bi.ItemsList.Paginator
use mxzz_bi.ItemsList.Sorter.{Sorter}
use mxzz_bi.ItemsList.Sorter

-- `PlainListFetcher` and `PaginatedListFetcher`.
pub data Kind : Type 0 where
  plain paginated : Kind

-- The `changes` of a fetch; `null` (a full refresh) is `none`.
pub record Changes : Type 0 where
  pub tags : Bool
  pub sorting : Bool
  pub search : Bool
  pub pagination : Option (Bool × Bool)

-- What `getRequest` is called with.
pub data Request : Type 0 where
  plain_request : (q : Option String) (tags : List String) → Request
  page_request : (page page_size : ℕ) (order q : Option String) (tags : List String) → Request

-- What the server answers: its rows, and the count of a paginated endpoint.
pub record Reply (Raw : Type 0) : Type 0 where
  pub rows : List Raw
  pub count : Arg

-- What a fetch hands to `_changed`.
pub record Fetched (A : Type 0) : Type 0 where
  pub results : List A
  pub count : Arg
  pub all_results : Option (List A)

pub data Task (Req : Type 0) : Type 0 where
  queued : Option Changes → String → List String → Task Req
  in_flight : Req → Task Req

pub record Source (Req A : Type 0) : Type 0 where
  pub kind : Kind
  -- `_allItems` of the fetcher; `none` is `undefined`
  pub cache : Option (List A)
  pub paginator : Paginator
  pub sorter : Sorter
  pub saved_field : Option String
  pub search_term : String
  pub selected_tags : List String
  pub page_items : List A
  pub all_items : Option (List A)
  pub params : List (String × Arg)
  pub tasks : List (Task Req)

-- What the page sees of a step.
pub data Effect : Type 0 where
  quiet updated error_handled rejected : Effect

abbrev pub remove {ℓ} : {T : Type ℓ} → ℕ → List T → List T
remove i [] = []
remove zero (x ∷ xs) = xs
remove (suc i) (x ∷ xs) = x ∷ remove i xs

abbrev pub replace {ℓ} : {T : Type ℓ} → ℕ → T → List T → List T
replace i y [] = []
replace zero y (x ∷ xs) = y ∷ xs
replace (suc i) y (x ∷ xs) = x ∷ replace i y xs

-- The arguments of the constructor and of `setState`; what is left out is `undefined`.
pub record Given : Type 0 where
  pub page : Arg
  pub items_per_page : Arg
  pub total_count : Arg
  pub validate : Bool
  pub order_by_field : Arg
  pub order_by_reverse : Arg
  pub search_term : String
  pub selected_tags : List String

abbrev nullable : Option String → Arg
nullable none = null
nullable (some s) = str s

-- The flags of a change in the pagination.
abbrev pub turned : Paginator → Paginator → Changes
turned prev p = record {
  tags = false;
  sorting = false;
  search = false;
  pagination = some (not (prev.page == p.page), not (prev.items_per_page == p.items_per_page));
}

module _ {Req A : Type 0} where
  -- `setState`. It is called before the first fetch.
  pub set_state : Given → Source Req A → Source Req A
  set_state g s =
      let sorter = Sorter.new g.order_by_field g.order_by_reverse in
      record s {
        paginator = Paginator.new g.page g.items_per_page g.total_count g.validate;
        sorter = sorter;
        search_term = g.search_term;
        selected_tags = g.selected_tags;
        saved_field = sorter.field;
      }

  -- The constructor.
  pub new : Kind → Given → Source Req A
  unfolding set_state
  new kind g = set_state g (record {
    kind = kind;
    cache = some [];
    paginator = Paginator.fresh;
    sorter = record { field = none; reverse = false };
    saved_field = none;
    search_term = "";
    selected_tags = [];
    page_items = [];
    all_items = none;
    params = [];
    tasks = [];
  })

  -- `_changed`, up to `_beforeUpdate`: the terms of the search are read now.
  pub changed : Option Changes → Source Req A → Source Req A
  changed c s = record s { tasks = s.tasks ++ queued c s.search_term s.selected_tags ∷ [] }

  pub update_pagination : (page items_per_page : Arg) → Source Req A → Source Req A
  unfolding changed
  update_pagination page items_per_page s =
      let p =
        Paginator.set_page page true
          (Paginator.set_items_per_page items_per_page true s.paginator) in
      changed (some (turned s.paginator p)) (record s { paginator = p })

  pub toggle_sorting : Arg → Source Req A → Source Req A
  unfolding changed
  toggle_sorting field s =
      let sorter = Sorter.toggle_field field s.sorter in
      let c : Changes = record {
        tags = false;
        sorting = true;
        search = false;
        pagination = none;
      } in
      changed (some c) (record s { sorter = sorter; saved_field = sorter.field })

  pub update_search : String → Source Req A → Source Req A
  unfolding changed
  update_search term s =
      let c : Changes = record {
        tags = false;
        sorting = false;
        search = true;
        pagination = some (true, false);
      } in
      changed (some c) (record s {
        search_term = term;
        sorter =
            Sorter.set_field (if str_eq term "" then nullable s.saved_field else null) s.sorter;
        paginator = Paginator.set_page (int (pos 1)) true s.paginator;
      })

  pub update_selected_tags : List String → Source Req A → Source Req A
  unfolding changed
  update_selected_tags tags s =
      let c : Changes = record {
        tags = true;
        sorting = false;
        search = false;
        pagination = some (true, false);
      } in
      changed (some c) (record s {
        selected_tags = tags;
        paginator = Paginator.set_page (int (pos 1)) true s.paginator;
      })

  pub update : Source Req A → Source Req A
  unfolding changed
  update s = changed none s
