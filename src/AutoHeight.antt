-- ===== src/AutoHeight.antt =====
-- client/app/components/dashboards/AutoHeightController.js: the widgets whose height is measured on a
-- timer. The document's heights are a parameter, undefined for a widget that is not there.
pub mod Watched
mod Tests
use mxzz_bi.Prelude.{
  ℕ, zero, suc, String, Bool, true, false, not, Option, none, some, List, [], ◌∷◌, ◌++◌, ◌==◌, map,
  filter, any, str_eq, if◌then◌else◌,
}
use mxzz_bi.Parameters.Normalize.{member}

-- `false`, or an array with the last height, if there is one.
pub data Slot : Type 0 where
  removed : Slot
  watched : Option ℕ → Slot

pub record Controller : Type 0 where
  pub widgets : List (String × Slot)
  -- whether the interval is set
  pub running : Bool

abbrev pub new : Controller
new = record { widgets = []; running = false }

abbrev pub is_watched : Slot → Bool
is_watched removed = false
is_watched (watched h) = true

-- `exists`
abbrev pub exists_in : String → List (String × Slot) → Bool
exists_in id [] = false
exists_in id ((k, s) ∷ ws) = if str_eq id k then is_watched s else exists_in id ws

abbrev pub any_watched : List (String × Slot) → Bool
any_watched ws = any (λ w. is_watched w.1) ws

-- `isEmpty`
abbrev pub is_empty : Controller → Bool
is_empty c = not (any_watched c.widgets)

-- `this.widgets[id] = slot`
unfoldable pub put_slot : String → Slot → List (String × Slot) → List (String × Slot)
put_slot id slot [] = (id, slot) ∷ []
put_slot id slot ((k, s) ∷ ws) =
    let rest = put_slot id slot ws in if str_eq id k then (k, slot) ∷ ws else (k, s) ∷ rest

unfoldable pub add : String → Controller → Controller
unfolding put_slot
add id c = record {
  widgets = put_slot id (watched none) c.widgets;
  running = if is_empty c then true else c.running;
}

unfoldable pub remove : String → Controller → Controller
unfolding put_slot
remove id c =
    if exists_in id c.widgets
    then (let ws = put_slot id removed c.widgets in
        record { widgets = ws; running = if not (any_watched ws) then false else c.running })
    else c

unfoldable pub add_all : List String → Controller → Controller
unfolding add
add_all [] c = c
add_all (id ∷ ids) c = add_all ids (add id c)

unfoldable pub remove_all : List String → Controller → Controller
unfolding remove
remove_all [] c = c
remove_all (id ∷ ids) c = remove_all ids (remove id c)

abbrev pub keys : Controller → List String
keys c = map (λ w. w.0) c.widgets

-- `update`, for the ids of the widgets of automatic height
unfoldable pub update : (new_widget_ids : List String) → Controller → Controller
unfolding add_all remove_all
update ids c =
    let added = add_all (filter (λ id. not (member id (keys c))) ids) c in
    remove_all (filter (λ id. not (member id ids)) (keys added)) added

abbrev pub same_height : ℕ → Option ℕ → Bool
same_height h none = false
same_height h (some p) = h == p

-- What a check saves of a widget, and the height that it dispatches; 0 is falsy.
unfoldable pub check_slot : Option ℕ → Slot → Slot × Option ℕ
check_slot height removed = (removed, none)
check_slot none (watched p) = (watched p, none)
check_slot (some zero) (watched p) = (watched p, none)
check_slot (some (suc h)) (watched p) =
    if same_height (suc h) p then (watched p, none) else (watched (some (suc h)), some (suc h))

abbrev pub dispatch : String → Option ℕ → List (String × ℕ) → List (String × ℕ)
dispatch id none ds = ds
dispatch id (some h) ds = (id, h) ∷ ds

-- `checkHeightChanges`: the widgets after it, and the calls of `onHeightChange`.
unfoldable pub check_height_changes :
    (height : String → Option ℕ) → List (String × Slot) → List (String × Slot) × List (String × ℕ)
unfolding check_slot
check_height_changes height [] = ([], [])
check_height_changes height ((k, s) ∷ ws) =
    let r = check_slot (height k) s in
    let rest = check_height_changes height ws in ((k, r.0) ∷ rest.0, dispatch k r.1 rest.1)

abbrev pub start : Controller → Controller
start c = record c { running = true }

abbrev pub stop : Controller → Controller
stop c = record c { running = false }

unfoldable pub resume : Controller → Controller
resume c = if is_empty c then c else start c
