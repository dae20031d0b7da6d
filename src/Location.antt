-- ===== src/Location.antt =====
-- client/app/services/location.js: the location, and what `update` makes of it. The search is an
-- object by its entries; `Qs` is the library query-string, and the browser keeps what is pushed.
pub mod Updated
use Prim.Native.Char.{code}
use Prim.Native.String
use mxzz_bi.Prelude.{
  String, Bool, true, false, not, Option, none, some, List, [], ◌∷◌, ◌==◌, filter, str_eq,
  if◌then◌else◌,
}

-- A value of the search: a text, or `true` for a key without one.
pub data SearchValue : Type 0 where
  text : String → SearchValue
  flag : SearchValue

abbrev pub Search : Type 0
Search = List (String × SearchValue)

-- `parse` with `null` read as `true`, and `stringify` of `true` as `null`.
pub record Qs : Type 0 where
  pub parse : String → Search
  pub stringify : Search → String

pub record Location : Type 0 where
  pub path : String
  pub search : Search
  pub hash : String

-- A search to set: an object, where `none` is null or undefined, or a text as it is.
pub data NewSearch : Type 0 where
  entries : List (String × Option SearchValue) → NewSearch
  raw : String → NewSearch

-- Fields that are undefined are `none`.
pub record NewLocation : Type 0 where
  pub path : Option String
  pub search : Option NewSearch
  pub hash : Option String

abbrev pub value_at : String → Search → Option SearchValue
value_at key [] = none
value_at key ((k, v) ∷ s) = if str_eq key k then some v else value_at key s

-- An entry of `extend`, with `omitBy(isNil)`: nil deletes the key, and a value keeps its place.
unfoldable pub set_entry : String → Option SearchValue → Search → Search
set_entry key none s = filter (λ e. not (str_eq e.0 key)) s
set_entry key (some v) [] = (key, v) ∷ []
set_entry key (some v) ((k, w) ∷ s) =
    let rest = set_entry key (some v) s in if str_eq key k then (k, v) ∷ s else (k, w) ∷ rest

unfoldable pub merge_search : List (String × Option SearchValue) → Search → Search
unfolding set_entry
merge_search [] s = s
merge_search ((k, v) ∷ es) s = merge_search es (set_entry k v s)

abbrev pub or_old : Option String → String → String
or_old none old = old
or_old (some s) old = s

-- `trimStart(hash, "#")`
unfoldable pub trim_hash : String → String
trim_hash String.[] = ""
trim_hash (String.◌∷◌ c s) = elim (code c == b'#') [ true ↦ trim_hash s | false ↦ String.◌∷◌ c s ]

-- The text of the search that `update` pushes.
unfoldable pub search_text : Qs → Option NewSearch → Search → String
unfolding merge_search
search_text qs none old = qs.stringify old
search_text qs (some (entries es)) old = qs.stringify (merge_search es old)
search_text qs (some (raw s)) old = s

-- `update` with `locationChanged`, as the history calls it.
unfoldable pub update : Qs → NewLocation → Location → Location
unfolding search_text trim_hash
update qs new l = record {
  path = or_old new.path l.path;
  search = qs.parse (search_text qs new.search l.search);
  hash = trim_hash (or_old new.hash l.hash);
}

abbrev pub set_search : Qs → NewSearch → Location → Location
set_search qs s = update qs (record { path = none; search = some s; hash = none })

abbrev pub set_path : Qs → String → Location → Location
set_path qs path = update qs (record { path = some path; search = none; hash = none })
