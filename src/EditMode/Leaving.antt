-- ===== src/EditMode/Leaving.antt =====
-- useEditModeHandler.js: when the editing of a layout ends.
use mxzz_bi.Prelude.{
  ℕ, ◌≡◌, refl, sym, ap, ◌∙◌, ◌⊎◌, Bool, true, false, ◌&&◌, some, List, [], ◌∷◌, get_elem?,
  if◌then◌else◌, Bool-cases, Option-cases, inl, inr,
}
use mxzz_bi.EditMode.{
  Layout, Handler, Status, saved, saving_failed, Event, change, fire, save_done, save_failed, retry,
  set_editing, new_widgets, is_saved, remove_at, get_changed_positions, save_dashboard_layout,
  save_dashboard_layout_debounced, fire_timer, answered, change_editing, finish, handle, step, run,
  start,
}

module _ {Position : Type 0} (is_match : Position → Position → Bool) (can_edit : Bool) where
  -- A click on the button waits only while something is not saved.
  abbrev pub Waits : Handler Position → Type 0
  Waits h = h.done_btn_clicked_while_saving ≡ true → is_saved h.dashboard_status ≡ false

  finish-Waits : (h : Handler Position) → Waits (finish is_match can_edit h)
  unfolding finish
  finish-Waits h = go h.done_btn_clicked_while_saving (is_saved h.dashboard_status) refl refl
    where
      go :
          (b s : Bool)
          → h.done_btn_clicked_while_saving ≡ b
          → is_saved h.dashboard_status ≡ s
          → Waits (
              if b && s
              then record h { done_btn_clicked_while_saving = false; editing_layout = false }
              else h)
      go true true e f = λ k. cc
      go true false e f = λ k. f
      go false s e f = λ k. cc

  run-Waits :
      (es : List (Event Position)) (h : Handler Position)
      → Waits h
      → Waits (run is_match can_edit es h)
  unfolding run step
  run-Waits [] h w = w
  run-Waits (e ∷ es) h w =
      run-Waits es (step is_match can_edit e h) (finish-Waits (handle is_match can_edit e h))

  -- Whatever happens to the page, a click on the button is pending only while the layout is not saved.
  run-start-Waits :
      (es : List (Event Position)) (editing : Bool) (ws : Layout Position)
      → Waits (run is_match can_edit es (start is_match can_edit editing ws))
  unfolding start
  run-start-Waits es editing ws = run-Waits es (start is_match can_edit editing ws) (λ k. cc)

module _ {Position : Type 0} (is_match : Position → Position → Bool) where
  -- Goes on, or everything is saved.
  abbrev Stays : (before after : Handler Position) → Type 0
  Stays h h' = (h'.editing_layout ≡ h.editing_layout) ⊎ (is_saved h'.dashboard_status ≡ true)

  save-Stays :
      (can_edit : Bool) (ws ps : Layout Position) (h : Handler Position)
      → (save_dashboard_layout is_match can_edit ws ps h).editing_layout ≡ h.editing_layout
  unfolding save_dashboard_layout
  save-Stays false ws ps h = refl
  save-Stays true ws ps h = elim (Option-cases (get_changed_positions is_match ws ps)) [
    | inl e ↦ rw e refl
    | inr (changed, e) ↦ rw e refl
  ]

  fire-Stays :
      (can_edit : Bool) (i : ℕ) (h : Handler Position)
      → (fire_timer is_match can_edit i h).editing_layout ≡ h.editing_layout
  unfolding fire_timer
  fire-Stays can_edit i h = elim (Option-cases (get_elem? h.timers i)) [
    | inl e ↦ rw (fire_timer, e) refl
    | inr ((ps, ws), e) ↦
        rw (fire_timer, e) (save-Stays can_edit ws ps (record h { timers = remove_at i h.timers }))
  ]

  answered-Stays :
      (s : Status) (i : ℕ) (h : Handler Position)
      → (answered is_match true s i h).editing_layout ≡ h.editing_layout
  answered-Stays s i h = elim (Option-cases (get_elem? h.in_flight i)) [
    | inl e ↦ rw (answered, e) refl
    | inr (ps, e) ↦ rw (answered, e) refl
  ]

  change_editing-Stays :
      (b : Bool) (h : Handler Position)
      → h.editing_layout ≡ true
      → Stays h (change_editing is_match true b h)
  change_editing-Stays true h e = inl (sym e)
  change_editing-Stays false h e = elim (Bool-cases (is_saved h.dashboard_status)) [
    | inl f ↦ inr (rw f f)
    | inr f ↦ inl (rw f refl)
  ]

  handle-Stays :
      (e : Event Position) (h : Handler Position)
      → h.editing_layout ≡ true
      → Stays h (handle is_match true e h)
  unfolding handle save_dashboard_layout_debounced
  handle-Stays (change ps) h t = inl (rw t refl)
  handle-Stays (fire i) h t = inl (fire-Stays true i h)
  handle-Stays (save_done i) h t = inl (answered-Stays saved i h)
  handle-Stays (save_failed i) h t = inl (answered-Stays saving_failed i h)
  handle-Stays retry h t = inl (save-Stays true h.widgets h.recent_positions h)
  handle-Stays (set_editing b) h t = change_editing-Stays b h t
  handle-Stays (new_widgets ws) h t = inl refl

  finish-Stays : (h h' : Handler Position) → Stays h h' → Stays h (finish is_match true h')
  unfolding finish
  finish-Stays h h' s = go h'.done_btn_clicked_while_saving (is_saved h'.dashboard_status) refl
    where
      go :
          (b d : Bool)
          → is_saved h'.dashboard_status ≡ d
          → Stays h (
              if b && d
              then record h' { done_btn_clicked_while_saving = false; editing_layout = false }
              else h')
      go true true e = inr e
      go true false e = s
      go false d e = s

  -- For someone who may edit the dashboard, the editing ends only when the status is saved.
  pub step_leaves :
      (e : Event Position) (h : Handler Position)
      → h.editing_layout ≡ true
      → (step is_match true e h).editing_layout ≡ false
      → is_saved (step is_match true e h).dashboard_status ≡ true
  unfolding step
  step_leaves e h t f = elim (finish-Stays h (handle is_match true e h) (handle-Stays e h t)) [
    | inl g ↦ let k : true ≡ false = sym t ∙ sym g ∙ f in cc
    | inr g ↦ g
  ]

  -- A click while something is saved is not lost: the editing ends with the answer to a save.
  click_then_saved :
      (h : Handler Position) (i : ℕ) (ps : Layout Position)
      → is_saved h.dashboard_status ≡ false
      → get_elem? h.in_flight i ≡ some ps
      → (run is_match true (set_editing false ∷ save_done i ∷ []) h).editing_layout ≡ false
  unfolding run step handle finish
  click_then_saved h i ps n e =
      ap (λ x. (step is_match true (save_done i) x).editing_layout) (click h n)
      ∙ rw (answered, e) refl
    where
      click :
          (h : Handler Position)
          → is_saved h.dashboard_status ≡ false
          → step is_match true (set_editing false) h
            ≡ record h { done_btn_clicked_while_saving = true }
      click h n = rw n (rw n refl)
