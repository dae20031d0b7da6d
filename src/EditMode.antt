-- ===== src/EditMode.antt =====
-- client/app/pages/dashboards/hooks/useEditModeHandler.js: the editing of a dashboard's layout and the
-- saving of its changes. A layout is a list of widget ids with their positions.
use mathlib.Core.Option
pub mod Leaving
pub mod Overlap
mod Tests
use mxzz_bi.Prelude.{
  ℕ, zero, suc, Bool, true, false, not, ◌&&◌, Option, none, some, List, [], ◌∷◌, ◌++◌, get_elem?,
  ◌==◌, if◌then◌else◌,
}

-- `DashboardStatusEnum`
pub data Status : Type 0 where
  saved saving saving_failed : Status

abbrev pub Layout : (Position : Type 0) → Type 0
Layout Position = List (ℕ × Position)

pub record Handler (Position : Type 0) : Type 0 where
  -- the dashboard's widgets with the positions that they have
  pub widgets : Layout Position
  pub editing_layout : Bool
  pub dashboard_status : Status
  pub recent_positions : Layout Position
  pub done_btn_clicked_while_saving : Bool
  -- the timers of `debounce` that run, with the layouts and the widgets of their calls
  pub timers : List (Layout Position × Layout Position)
  -- the saves that wait for their answers, with the positions that each sends
  pub in_flight : List (Layout Position)
  -- an exception of a call that nothing catches
  pub thrown : Bool

-- What happens to the page.
pub data Event (Position : Type 0) : Type 0 where
  change : Layout Position → Event Position
  -- the timer at an index; the answers to the save at an index
  fire save_done save_failed : ℕ → Event Position
  retry : Event Position
  set_editing : Bool → Event Position
  new_widgets : Layout Position → Event Position

abbrev pub is_saved : Status → Bool
is_saved saved = true
is_saved saving = false
is_saved saving_failed = false

abbrev pub remove_at {ℓ} : {A : Type ℓ} → ℕ → List A → List A
remove_at i [] = []
remove_at zero (x ∷ xs) = xs
remove_at (suc i) (x ∷ xs) = x ∷ remove_at i xs

module _ {Position : Type 0} (is_match : Position → Position → Bool) where
  abbrev pub position_of : ℕ → Layout Position → Option Position
  position_of id [] = none
  position_of id ((i, p) ∷ ps) = if id == i then some p else position_of id ps

  -- `is_match` is lodash's `isMatch`; `none` is an exception: a position of no widget.
  unfoldable pub get_changed_positions :
      (widgets : Layout Position) → (next_positions : Layout Position) → Option (Layout Position)
  get_changed_positions ws [] = some []
  get_changed_positions ws ((id, next) ∷ ps) =
      let rest = get_changed_positions ws ps in
      elim (position_of id ws) [
        | none ↦ none
        | some prev ↦ if is_match prev next then rest else Option.map ((id, next) ∷◌) rest
      ]

  module _ (can_edit_dashboard : Bool) where
    -- With the widgets that the callback closes over.
    unfoldable pub save_dashboard_layout :
        (widgets positions : Layout Position) → Handler Position → Handler Position
    unfolding get_changed_positions
    save_dashboard_layout ws ps h =
        if can_edit_dashboard
        then elim (get_changed_positions ws ps) [
          | none ↦ record h { thrown = true }
          | some changed ↦ record h {
            dashboard_status = saving;
            recent_positions = ps;
            in_flight = h.in_flight ++ (changed ∷ []);
          }
        ]
        else record h { dashboard_status = saved }

    -- Each call has a debounced function of its own, which is called once.
    unfoldable pub save_dashboard_layout_debounced :
        Layout Position → Handler Position → Handler Position
    save_dashboard_layout_debounced ps h = record h {
      dashboard_status = saving;
      timers = h.timers ++ ((ps, h.widgets) ∷ []);
    }

    unfoldable pub fire_timer : ℕ → Handler Position → Handler Position
    unfolding save_dashboard_layout
    fire_timer i h = elim (get_elem? h.timers i) [
      | none ↦ h
      | some (ps, ws) ↦ save_dashboard_layout ws ps (record h { timers = remove_at i h.timers })
    ]

    abbrev pub answered : Status → ℕ → Handler Position → Handler Position
    answered s i h = elim (get_elem? h.in_flight i) [
      | none ↦ h
      | some ps ↦ record h { dashboard_status = s; in_flight = remove_at i h.in_flight }
    ]

    abbrev pub change_editing : Bool → Handler Position → Handler Position
    change_editing editing h =
        if not editing && not (is_saved h.dashboard_status)
        then record h { done_btn_clicked_while_saving = true }
        else record h { editing_layout = can_edit_dashboard && editing }

    -- The effect on the status and the button.
    unfoldable pub finish : Handler Position → Handler Position
    finish h =
        if h.done_btn_clicked_while_saving && is_saved h.dashboard_status
        then record h { done_btn_clicked_while_saving = false; editing_layout = false }
        else h

    unfoldable pub handle : Event Position → Handler Position → Handler Position
    unfolding save_dashboard_layout save_dashboard_layout_debounced fire_timer
    handle (change ps) h =
        if h.editing_layout
        then save_dashboard_layout_debounced ps h
        else save_dashboard_layout h.widgets ps h
    handle (fire i) h = fire_timer i h
    handle (save_done i) h = answered saved i h
    handle (save_failed i) h = answered saving_failed i h
    handle retry h = save_dashboard_layout h.widgets h.recent_positions h
    handle (set_editing b) h = change_editing b h
    handle (new_widgets ws) h = record h { widgets = ws }

    unfoldable pub step : Event Position → Handler Position → Handler Position
    unfolding handle finish
    step e h = finish (handle e h)

    unfoldable pub run : List (Event Position) → Handler Position → Handler Position
    unfolding step
    run [] h = h
    run (e ∷ es) h = run es (step e h)

    -- `editing` is whether the URL asks for it.
    unfoldable pub start : (editing : Bool) → Layout Position → Handler Position
    start editing ws = record {
      widgets = ws;
      editing_layout = can_edit_dashboard && editing;
      dashboard_status = saved;
      recent_positions = [];
      done_btn_clicked_while_saving = false;
      timers = [];
      in_flight = [];
      thrown = false;
    }
