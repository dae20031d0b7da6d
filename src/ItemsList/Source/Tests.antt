-- ===== src/ItemsList/Source/Tests.antt =====
-- The theorems of the items source at concrete inputs.
use mxzz_bi.Prelude.{ℕ, ◌≡◌, refl, String, false, none, some, List, [], ◌∷◌, arith, pos}
use mxzz_bi.Js.{undefined, int, str, bool, parse_int}
use mxzz_bi.ItemsList.Paginator.{Paginator}
use mxzz_bi.ItemsList.Paginator
use mxzz_bi.ItemsList.Sorter.{sort}
use mxzz_bi.ItemsList.Source.{
  plain, Request, Reply, in_flight, Source, updated, Given, new, set_state,
}
use mxzz_bi.ItemsList.Source.Fetch.{reply}
use mxzz_bi.ItemsList.Source.Validity.{
  searches, refreshes, begins, replies, IsSound, run, run-new-IsSound,
}
use mxzz_bi.ItemsList.Source.Replies.{reply_past}

abbrev keep : String → List ℕ → List ℕ
keep f xs = xs

abbrev ask : Request → Request
ask r = r

abbrev same : List ℕ → List ℕ
same xs = xs

abbrev given : Given
given = record {
  page = int (pos 2);
  items_per_page = str "2";
  total_count = undefined;
  validate = false;
  order_by_field = str "name";
  order_by_reverse = bool false;
  search_term = "";
  selected_tags = [];
}

-- Page 2 of a plain list by two, sorted by name, with a request under way.
abbrev waiting : Source Request ℕ
waiting = record {
  kind = plain;
  cache = some (9 ∷ 8 ∷ 7 ∷ []);
  paginator = record { page = 2; items_per_page = 2; total_count = pos 3 };
  sorter = record { field = some "name"; reverse = false };
  saved_field = some "name";
  search_term = "";
  selected_tags = [];
  page_items = 7 ∷ [];
  all_items = some (9 ∷ 8 ∷ 7 ∷ []);
  params = [];
  tasks = in_flight (Request.plain_request none []) ∷ [];
}

abbrev answer : List ℕ → Reply ℕ
answer rows = record { rows = rows; count = undefined }

run-new-IsSound_example : IsSound (
    run ask same keep
      (new plain given)
      (refreshes ∷ begins 0 ∷ searches "x" ∷ replies 0 (answer (1 ∷ 2 ∷ [])) [] ∷ begins 0 ∷ []))
run-new-IsSound_example =
    run-new-IsSound ask same keep plain given
      (refreshes ∷ begins 0 ∷ searches "x" ∷ replies 0 (answer (1 ∷ 2 ∷ [])) [] ∷ begins 0 ∷ [])

reply_past_example :
    (s' : Source Request ℕ) × (reply same keep 0 (answer (1 ∷ 2 ∷ [])) [] waiting ≡ (s', updated))
    × (s'.page_items ≡ [])
    × (s'.paginator.page ≡ 1)
    × (s'.all_items ≡ some (1 ∷ 2 ∷ []))
unfolding sort
reply_past_example =
    reply_past same keep waiting 0 (Request.plain_request none []) (answer (1 ∷ 2 ∷ [])) [] refl
      refl (1 ∷ 2 ∷ []) refl (omega arith) (omega arith)

-- A page of a URL is kept by a source that does not validate.
page_of_url : (new {Req = Request} {A = ℕ} plain given).paginator.page ≡ 2
unfolding new set_state Paginator.new parse_int
page_of_url = refl
