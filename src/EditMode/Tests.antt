-- ===== src/EditMode/Tests.antt =====
-- The editing of a layout at concrete pages, with numbers for positions.
use mxzz_bi.Prelude.{ℕ, ◌≡◌, refl, true, false, List, [], ◌∷◌, map, ◌==◌}
use mxzz_bi.EditMode.{
  Layout, Handler, Event, change, fire, save_done, set_editing, is_saved, get_changed_positions,
  save_dashboard_layout, save_dashboard_layout_debounced, fire_timer, finish, handle, step, run,
  start,
}
use mxzz_bi.EditMode.Leaving.{step_leaves}
use mxzz_bi.EditMode.Overlap.{fires, in_flight-changes}

abbrev one_widget : Layout ℕ
one_widget = (1, 10) ∷ []

abbrev moved : Layout ℕ
moved = (1, 11) ∷ []

abbrev editing : Handler ℕ
editing = start ◌==◌ true true one_widget

abbrev events : List (Event ℕ)
events =
    change moved ∷ change ((1, 12) ∷ []) ∷ fire 0 ∷ fire 0 ∷ set_editing false ∷ save_done 0 ∷ []

-- The second save is still in flight.
done_too_early :
    (is_saved (run ◌==◌ true events editing).dashboard_status ≡ true)
    × ((run ◌==◌ true events editing).in_flight ≡ ((1, 12) ∷ []) ∷ [])
unfolding run step handle finish start save_dashboard_layout save_dashboard_layout_debounced
    fire_timer get_changed_positions
done_too_early = (refl, refl)

step_leaves_example : is_saved (step ◌==◌ true (set_editing false) editing).dashboard_status ≡ true
unfolding step handle finish start
step_leaves_example = step_leaves ◌==◌ (set_editing false) editing refl refl

in_flight-changes_example :
    (run ◌==◌ true
      (fires ◌==◌ (moved ∷ ((1, 12) ∷ []) ∷ []))
      (run ◌==◌ true (map change (moved ∷ ((1, 12) ∷ []) ∷ [])) editing)).in_flight
    ≡ moved ∷ ((1, 12) ∷ []) ∷ []
unfolding start get_changed_positions
in_flight-changes_example =
    in_flight-changes ◌==◌ (moved ∷ ((1, 12) ∷ []) ∷ []) (moved ∷ ((1, 12) ∷ []) ∷ []) editing refl
      refl refl (refl, (refl, tt))
