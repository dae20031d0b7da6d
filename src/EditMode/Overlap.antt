-- ===== src/EditMode/Overlap.antt =====
-- useEditModeHandler.js: changes and saves that overlap, and positions of widgets that are gone.
use mathlib.Core.Option
use mxzz_bi.Prelude.{
  ℕ, ◌≡◌, refl, sym, ap, ◌∙◌, Bool, true, false, none, some, List, [], ◌∷◌, ◌++◌, map, append_assoc,
  append-nil, Bool-cases, Option-cases, inl, inr,
}
use mxzz_bi.EditMode.{
  Layout, Handler, Event, saving, change, fire, fire_timer, retry, position_of,
  get_changed_positions, save_dashboard_layout, save_dashboard_layout_debounced, finish, handle,
  step, run,
}

module _ {Position : Type 0} (is_match : Position → Position → Bool) where
  step_change :
      (can_edit : Bool) (ps : Layout Position) (h : Handler Position)
      → h.editing_layout ≡ true
      → h.done_btn_clicked_while_saving ≡ false
      → step is_match can_edit (change ps) h
        ≡ save_dashboard_layout_debounced is_match can_edit ps h
  unfolding step handle finish save_dashboard_layout_debounced
  step_change can_edit ps h e d = rw e (rw d refl)

  -- The calls of `saveDashboardLayout` that the timers make, all with the same widgets.
  abbrev timers_of :
      (ws : Layout Position) → List (Layout Position) → List (Layout Position × Layout Position)
  timers_of ws layouts = map (λ ps. (ps, ws)) layouts

  -- Each change while the layout is edited starts a timer of its own, and stops none.
  after_changes :
      (can_edit : Bool) (layouts : List (Layout Position)) (h : Handler Position)
      → h.editing_layout ≡ true
      → h.done_btn_clicked_while_saving ≡ false
      → let x = run is_match can_edit (map change layouts) h in
        (x.timers ≡ h.timers ++ timers_of h.widgets layouts)
        × (x.in_flight ≡ h.in_flight)
        × (x.done_btn_clicked_while_saving ≡ false)
  unfolding run save_dashboard_layout_debounced
  after_changes can_edit [] h e d = (sym (append-nil h.timers), refl, d)
  after_changes can_edit (ps ∷ layouts) h e d =
      let h' = save_dashboard_layout_debounced is_match can_edit ps h in
      let (t, i, b) = after_changes can_edit layouts h' e d in
      rw (run, step_change can_edit ps h e d)
        (t ∙ append_assoc h.timers ((ps, h.widgets) ∷ []) (timers_of h.widgets layouts), i, b)

  -- The positions of each layout that differ from those of the widgets.
  abbrev pub AllChanged : (ws : Layout Position) (layouts changes : List (Layout Position)) → Type 0
  AllChanged ws [] [] = Unit {0}
  AllChanged ws [] (c ∷ cs) = ⊥
  AllChanged ws (ps ∷ layouts) [] = ⊥
  AllChanged ws (ps ∷ layouts) (c ∷ cs) =
      (get_changed_positions is_match ws ps ≡ some c) × AllChanged ws layouts cs

  -- The first timer that is left fires, once for each layout.
  abbrev pub fires : List (Layout Position) → List (Event Position)
  fires layouts = map (λ ps. fire 0) layouts

  step_fire :
      (ps c : Layout Position) (h : Handler Position) (ws : Layout Position)
      (rest : List (Layout Position × Layout Position))
      → get_changed_positions is_match ws ps ≡ some c
      → h.timers ≡ (ps, ws) ∷ rest
      → h.done_btn_clicked_while_saving ≡ false
      → step is_match true (fire 0) h ≡ record h {
        timers = rest;
        dashboard_status = saving;
        recent_positions = ps;
        in_flight = h.in_flight ++ (c ∷ []);
      }
  unfolding step handle fire_timer save_dashboard_layout finish
  step_fire ps c h ws rest e t d = rw (t, e, d) refl

  in_flight-fires :
      (ws : Layout Position) (layouts changes : List (Layout Position)) (h : Handler Position)
      → AllChanged ws layouts changes
      → h.timers ≡ timers_of ws layouts
      → h.done_btn_clicked_while_saving ≡ false
      → (run is_match true (fires layouts) h).in_flight ≡ h.in_flight ++ changes
  unfolding run
  in_flight-fires ws [] [] h a t d = sym (append-nil h.in_flight)
  in_flight-fires ws [] (c ∷ cs) h a t d = absurd a
  in_flight-fires ws (ps ∷ layouts) [] h a t d = absurd a
  in_flight-fires ws (ps ∷ layouts) (c ∷ cs) h (e, a) t d =
      let h' = record h {
        timers = timers_of ws layouts;
        dashboard_status = saving;
        recent_positions = ps;
        in_flight = h.in_flight ++ (c ∷ []);
      } in
      let s = step_fire ps c h ws (timers_of ws layouts) e t d in
      ap (λ (x : Handler Position). (run is_match true (fires layouts) x).in_flight) s
      ∙ in_flight-fires ws layouts cs h' a refl d
      ∙ append_assoc h.in_flight (c ∷ []) cs

  -- For someone who may edit the dashboard, and whose click is not waited for: when a layout is changed
  -- several times while no timer runs, and the timers then fire, each change is sent to be saved by a
  -- request of its own, not the last one alone, with what differs from the widgets' positions.
  pub in_flight-changes :
      (layouts changes : List (Layout Position)) (h : Handler Position)
      → h.editing_layout ≡ true
      → h.done_btn_clicked_while_saving ≡ false
      → h.timers ≡ []
      → AllChanged h.widgets layouts changes
      → (run is_match true (fires layouts) (run is_match true (map change layouts) h)).in_flight
        ≡ h.in_flight ++ changes
  in_flight-changes layouts changes h e d n a =
      let x = run is_match true (map change layouts) h in
      let (t, i, b) = after_changes true layouts h e d in
      in_flight-fires h.widgets layouts changes x a (t ∙ ap (◌++ timers_of h.widgets layouts) n) b
      ∙ ap (◌++ changes) i

  changed_positions_gone :
      (ws : Layout Position) (before after : Layout Position) (id : ℕ) (p : Position)
      → position_of is_match id ws ≡ none
      → get_changed_positions is_match ws (before ++ ((id, p) ∷ after)) ≡ none
  unfolding get_changed_positions
  changed_positions_gone ws [] after id p e = rw (get_changed_positions, e) refl
  changed_positions_gone ws ((i, q) ∷ before) after id p e =
      let rest = changed_positions_gone ws before after id p e in
      elim (Option-cases (position_of is_match i ws)) [
        | inl f ↦ rw (get_changed_positions, f) refl
        | inr (prev, f) ↦ elim (Bool-cases (is_match prev q)) [
          | inl g ↦ rw (get_changed_positions, f, g) rest
          | inr g ↦ rw (get_changed_positions, f, g) (ap (Option.map ((i, q) ∷◌)) rest)
        ]
      ]

  -- A retry throws when a widget of the layout that failed to be saved has been removed since: the
  -- positions are compared before widgets that are gone are skipped.
  retry_gone :
      (h : Handler Position) (before after : Layout Position) (id : ℕ) (p : Position)
      → h.recent_positions ≡ before ++ ((id, p) ∷ after)
      → position_of is_match id h.widgets ≡ none
      → handle is_match true retry h ≡ record h { thrown = true }
  unfolding handle save_dashboard_layout
  retry_gone h before after id p e f =
      let g : get_changed_positions is_match h.widgets h.recent_positions ≡ none =
        ap (get_changed_positions is_match h.widgets) e
        ∙ changed_positions_gone h.widgets before after id p f in
      rw g refl
