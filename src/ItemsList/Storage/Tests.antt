-- ===== src/ItemsList/Storage/Tests.antt =====
-- The theorem of the stored state at a concrete input.
use mxzz_bi.Prelude.{zero, suc, String, ◌≡◌, refl, true, none, some, [], ◌∷◌, ℤ, pos}
use mxzz_bi.Js.{parse_int}
use mxzz_bi.Location.{text, flag, merge_search}
use mxzz_bi.ItemsList.Storage.{Defaults, State, get_state, set_state}
use mxzz_bi.ItemsList.Storage.Restored.{get_state-set_state}

-- The texts of one-digit numbers up to 3.
abbrev digit : ℤ → String
digit (pos (suc zero)) = "1"
digit (pos (suc (suc zero))) = "2"
digit (pos (suc (suc (suc zero)))) = "3"
digit z = "0"

abbrev third_page : State
third_page = record {
  page = pos 3;
  items_per_page = pos 2;
  order_by_field = some "name";
  order_by_reverse = true;
  search_term = text "x";
}

abbrev plain : Defaults
plain = record {
  page = none;
  items_per_page = none;
  order_by_field = none;
  order_by_reverse = none;
}

get_state-set_state_example :
    get_state 20 plain (merge_search (set_state digit third_page) (("tab", flag) ∷ [])) ≡ third_page
unfolding parse_int
get_state-set_state_example =
    get_state-set_state digit 20 plain (("tab", flag) ∷ []) 2 1 "n" "ame" true (text "x") refl refl
      (λ h. cc)
