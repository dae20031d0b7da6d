-- ===== src/ItemsList/Storage/Restored.antt =====
-- StateStorage.js: the state that is read back from the URL.
use Prim.Native.Char.{Char, code}
use mxzz_bi.Prelude.{ℕ, suc, String, ◌≡◌, ◌≢◌, refl, Bool, true, false, Option, some, ℤ, pos}
use mxzz_bi.Js.{str, parse_int}
use mxzz_bi.ItemsList.Sorter.{compile, parse}
use mxzz_bi.ItemsList.Sorter.Compiled.{parse-compile}
use mxzz_bi.Location.{SearchValue, text, flag, Search, merge_search}
use mxzz_bi.Location.Updated.{value_at-merge_search}
use mxzz_bi.ItemsList.Storage.{
  Defaults, State, get_state, set_state, order_of, text_or_empty, term_or_nil, text_or_nil,
}

text_or_empty-term_or_nil : (t : SearchValue) → text_or_empty (term_or_nil t) ≡ t
text_or_empty-term_or_nil (text String.[]) = refl
text_or_empty-term_or_nil (text (String.◌∷◌ c s)) = refl
text_or_empty-term_or_nil flag = refl

order_of-compile :
    (c : Char) (f : String) (r : Bool) (d : Option String)
    → order_of (text_or_nil (compile (some (String.◌∷◌ c f)) r)) d
      ≡ parse (compile (some (String.◌∷◌ c f)) r)
unfolding order_of compile
order_of-compile c f true d = refl
order_of-compile c f false d = refl

-- For numbers whose text reads back, none of them 0, and a field that is not empty and that, in
-- ascending order, does not begin with a dash: the state that is set in any search is the
-- state that is read from it, whatever the defaults are.
pub get_state-set_state :
    (show : ℤ → String) (page_size : ℕ) (d : Defaults) (params : Search) (page items : ℕ) (c : Char)
    (f : String) (r : Bool) (term : SearchValue)
    → parse_int (str (show (pos (suc page)))) ≡ some (pos (suc page))
    → parse_int (str (show (pos (suc items)))) ≡ some (pos (suc items))
    → (r ≡ false → code c ≢ b'-')
    → let s : State = record {
      page = pos (suc page);
      items_per_page = pos (suc items);
      order_by_field = some (String.◌∷◌ c f);
      order_by_reverse = r;
      search_term = term;
    } in
      get_state page_size d (merge_search (set_state show s) params) ≡ s
unfolding get_state set_state
get_state-set_state show page_size d params page items c f r term h k dash =
    let s : State = record {
      page = pos (suc page);
      items_per_page = pos (suc items);
      order_by_field = some (String.◌∷◌ c f);
      order_by_reverse = r;
      search_term = term;
    } in
    let at = λ (key : String). value_at-merge_search key (set_state show s) params in
    rw
      (
        at "page",
        at "page_size",
        at "order",
        at "q",
        h,
        k,
        order_of-compile,
        parse-compile c f r dash,
        text_or_empty-term_or_nil,
      )
      refl
