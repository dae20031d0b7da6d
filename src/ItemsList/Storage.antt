-- ===== src/ItemsList/Storage.antt =====
-- client/app/components/items-list/classes/StateStorage.js: the state of a list page that is kept in
-- the URL. `show` is the text of a number.
pub mod Restored
mod Tests
use Prim.Native.String
use mxzz_bi.Prelude.{
  ℕ, String, Bool, true, false, Option, none, some, List, [], ◌∷◌, ℤ, pos, if◌then◌else◌,
}
use mxzz_bi.Js.{Arg, bool, str, undefined, parse_int, or_default}
use mxzz_bi.ItemsList.Sorter.{Sorter, compile, parse}
use mxzz_bi.Location.{SearchValue, text, flag, Search, value_at}

-- The state that a page gives, where a field may be undefined.
pub record Defaults : Type 0 where
  pub page : Option ℕ
  pub items_per_page : Option ℕ
  pub order_by_field : Option (Option String)
  pub order_by_reverse : Option Bool

pub record State : Type 0 where
  pub page : ℤ
  pub items_per_page : ℤ
  pub order_by_field : Option String
  pub order_by_reverse : Bool
  pub search_term : SearchValue

abbrev pub or_value {ℓ} : {A : Type ℓ} → Option A → A → A
or_value none a = a
or_value (some b) a = b

-- `StateStorage.getState`, but for the search term and the tags.
abbrev pub default_page : Defaults → ℕ
default_page d = or_value d.page 1

abbrev pub default_items : ℕ → Defaults → ℕ
default_items page_size d = or_value d.items_per_page page_size

unfoldable pub default_order : Defaults → Option String
default_order d =
    compile (or_value d.order_by_field (some "created_at")) (or_value d.order_by_reverse false)

abbrev pub as_arg : Option SearchValue → Arg
as_arg none = undefined
as_arg (some (text s)) = str s
as_arg (some flag) = bool true

-- `params.q || ""`; a key without a value gives `true`.
abbrev pub text_or_empty : Option SearchValue → SearchValue
text_or_empty none = text ""
text_or_empty (some v) = v

-- `parseOrderBy(params.order || defaultOrderBy)`; `true` is no string
unfoldable pub order_of : Option SearchValue → (default : Option String) → Sorter
order_of none d = parse d
order_of (some (text String.[])) d = parse d
order_of (some (text (String.◌∷◌ c s))) d = parse (some (String.◌∷◌ c s))
order_of (some flag) d = parse none

-- `searchTerm === ""`
abbrev pub is_empty_text : SearchValue → Bool
is_empty_text (text String.[]) = true
is_empty_text _ = false

-- `UrlStateStorage.getState`
unfoldable pub get_state : (page_size : ℕ) → Defaults → Search → State
unfolding order_of default_order
get_state page_size d params =
    let term = text_or_empty (value_at "q" params) in
    let order =
      order_of (value_at "order" params)
        (if is_empty_text term then default_order d else some "") in
    record {
      page = or_default (parse_int (as_arg (value_at "page" params))) (default_page d);
      items_per_page =
          or_default (parse_int (as_arg (value_at "page_size" params))) (default_items page_size d);
      order_by_field = order.field;
      order_by_reverse = order.reverse;
      search_term = term;
    }

abbrev pub text_or_nil : Option String → Option SearchValue
text_or_nil none = none
text_or_nil (some s) = some (text s)

abbrev pub term_or_nil : SearchValue → Option SearchValue
term_or_nil (text String.[]) = none
term_or_nil v = some v

-- The search that `UrlStateStorage.setState` sets.
unfoldable pub set_state : (show : ℤ → String) → State → List (String × Option SearchValue)
set_state show s =
    ("page", some (text (show s.page)))
    ∷ ("page_size", some (text (show s.items_per_page)))
    ∷ ("order", text_or_nil (compile s.order_by_field s.order_by_reverse))
    ∷ ("q", term_or_nil s.search_term)
    ∷ []
