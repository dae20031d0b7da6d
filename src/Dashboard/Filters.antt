-- ===== src/Dashboard/Filters.antt =====
-- dashboard.js: `collectDashboardFilters`, on the filters of the query results that have some; and the
-- tests of a dashboard in useDashboard.js. `union` is lodash's.
use mxzz_bi.Prelude.{
  ℕ, String, Bool, true, false, not, ◌&&◌, ◌||◌, Option, none, some, List, [], ◌∷◌, filter, any,
  str_eq, ◌==◌, if◌then◌else◌,
}
use mxzz_bi.Parameters.Normalize.{member}
use mxzz_bi.Widget.Mappings.{Mapping, Mappings, dashboard_level}

pub record Filter (Cell : Type 0) : Type 0 where
  pub name : String
  pub values : List Cell
  -- `current`, a value of the result or a text of the URL
  pub current : Option Cell

abbrev pub lookup {ℓ} : {A : Type ℓ} → String → List (String × A) → Option A
lookup key [] = none
lookup key ((k, a) ∷ xs) = if str_eq key k then some a else lookup key xs

module _ {Cell : Type 0} (union : List Cell → List Cell → List Cell) where
  -- Into `filters`, by the name.
  unfoldable pub add_filter : Filter Cell → List (Filter Cell) → List (Filter Cell)
  add_filter f [] = f ∷ []
  add_filter f (g ∷ gs) =
      if str_eq f.name g.name
      then record g { values = union g.values f.values } ∷ gs
      else g ∷ add_filter f gs

  -- The filter as it is linked, with the value of the URL if that has one.
  abbrev pub linked : (enabled : Bool) → Option Cell → Filter Cell → Option (Filter Cell)
  linked enabled (some v) f = some (record f { current = some v })
  linked true none f = some f
  linked false none f = none

  abbrev pub add_some : Option (Filter Cell) → List (Filter Cell) → List (Filter Cell)
  add_some none gs = gs
  add_some (some f) gs = add_filter f gs

  unfoldable pub collect_filters :
      (dashboard_filters_enabled : Bool)
      → (url_params : List (String × Cell)) → List (Filter Cell)
      → List (Filter Cell)
      → List (Filter Cell)
  unfolding add_filter
  collect_filters enabled url [] gs = gs
  collect_filters enabled url (f ∷ fs) gs =
      collect_filters enabled url fs (add_some (linked enabled (lookup f.name url) f) gs)

  -- The filters of one query result after another.
  abbrev pub each_result :
      (dashboard_filters_enabled : Bool)
      → (url_params : List (String × Cell)) → List (List (Filter Cell))
      → List (Filter Cell)
      → List (Filter Cell)
  each_result enabled url [] gs = gs
  each_result enabled url (fs ∷ rest) gs =
      each_result enabled url rest (collect_filters enabled url fs gs)

  unfoldable pub collect_dashboard_filters :
      (dashboard_filters_enabled : Bool)
      → (query_results : List (List (Filter Cell))) → (url_params : List (String × Cell))
      → List (Filter Cell)
  unfolding collect_filters
  collect_dashboard_filters enabled results url = each_result enabled url results []

module _ {Num Moment : Type 0} where
  abbrev pub is_affected : (updated : List String) → Mapping Num Moment → Bool
  is_affected updated m = elim m.type [ dashboard_level ↦ member m.map_to updated | _ ↦ false ]

  -- The widgets by their parameter mappings; no names stand for all parameters.
  unfoldable pub get_affected_widgets :
      {W : Type 0} (mappings_of : W → Mappings Num Moment)
      → (widgets : List W) → (updated_parameters : List String) → List W
  get_affected_widgets mappings_of ws [] = ws
  get_affected_widgets mappings_of ws (n ∷ ns) =
      filter (λ w. any (λ e. is_affected (n ∷ ns) e.1) (mappings_of w)) ws

abbrev pub same_user : (current_user : Option ℕ) → (dashboard_user : Option ℕ) → Bool
same_user (some c) (some d) = c == d
same_user none d = false
same_user (some c) none = false

abbrev pub has_user : Option ℕ → Bool
has_user none = false
has_user (some u) = true

abbrev pub can_edit_dashboard : (is_archived can_edit : Bool) → Bool
can_edit_dashboard is_archived can_edit = not is_archived && can_edit

unfoldable pub is_dashboard_owner_or_admin :
    (is_archived : Bool) → (dashboard_user current_user : Option ℕ) → (has_admin : Bool) → Bool
is_dashboard_owner_or_admin is_archived dashboard_user current_user has_admin =
    not is_archived
    && has_user dashboard_user
    && (same_user current_user dashboard_user || has_admin)

-- `removeWidget`, which also removes widgets that have no id yet.
unfoldable pub remove_widget : {W : Type 0} (id_of : W → Option ℕ) → ℕ → List W → List W
remove_widget id_of id ws =
    filter (λ w. has_user (id_of w) && not (same_user (id_of w) (some id))) ws
