-- ===== src/Dialog/Closing.antt =====
-- DialogWrapper.jsx: one handler at a time.
use mathlib.Core.Path.{subst}
use mxzz_bi.Prelude.{
  ℕ, suc, ◌+◌, ◌≤◌, ◌≡◌, refl, sym, ap, ap₂, ◌∙◌, true, false, Option, none, some, List, [], ◌∷◌,
  length, arith,
}
use mxzz_bi.Dialog.{
  Way, close, dismiss, no_props, Task, waiting, settled, Dialog, Event, ask, settle, reset,
  after_close, process_dialog_close, ask_to_close, settle_task, reset_task, step_by, step, run,
  open_dialog,
}

abbrev is_pending : Option Task → ℕ
is_pending none = 0
is_pending (some t) = 1

is_pending_one : (t : Option Task) → is_pending t ≤ 1
is_pending_one none = omega arith
is_pending_one (some t) = omega arith

module _ {Argument : Type 0} where
  -- The buttons are blocked, or as they were at first.
  abbrev pub Blocked : Dialog Argument → Type 0
  Blocked d = (d.ok_button.disabled ≡ true) × (d.cancel_button.disabled ≡ true)

  abbrev pub Free : Dialog Argument → Type 0
  Free d = (d.ok_button ≡ no_props) × (d.cancel_button ≡ no_props)

  -- By the pending task.
  abbrev pub ButtonsAgree : Option Task → Dialog Argument → Type 0
  ButtonsAgree none d = Free d
  ButtonsAgree (some waiting) d = Blocked d
  ButtonsAgree (some settled) d = Free d

  abbrev pub Agrees : Dialog Argument → Type 0
  Agrees d = ButtonsAgree d.pending_close_task d

  kept :
      (t : Option Task) (d : Dialog Argument)
      → d.pending_close_task ≡ t
      → ButtonsAgree t d
      → Agrees d
  kept t d h a = subst (λ t. ButtonsAgree t d) (sym h) a

  Agrees-step_by :
      (t : Option Task) (e : Event Argument) (d : Dialog Argument)
      → d.pending_close_task ≡ t
      → ButtonsAgree t d
      → Agrees (step_by t e d)
  unfolding ask_to_close settle_task reset_task process_dialog_close
  Agrees-step_by none (ask close x) d h a = (refl, refl)
  Agrees-step_by none (ask dismiss x) d h a = (refl, refl)
  Agrees-step_by none (settle b) d h a = kept none d h a
  Agrees-step_by none reset d h a = kept none d h a
  Agrees-step_by none after_close d h a = kept none (record d { destroyed = true }) h a
  Agrees-step_by (some waiting) (ask way x) d h a = kept (some waiting) d h a
  Agrees-step_by (some waiting) (settle b) d h a = (refl, refl)
  Agrees-step_by (some waiting) reset d h a = kept (some waiting) d h a
  Agrees-step_by (some waiting) after_close d h a =
      kept (some waiting) (record d { destroyed = true }) h a
  Agrees-step_by (some settled) (ask way x) d h a = kept (some settled) d h a
  Agrees-step_by (some settled) (settle b) d h a = kept (some settled) d h a
  Agrees-step_by (some settled) reset d h a = a
  Agrees-step_by (some settled) after_close d h a =
      kept (some settled) (record d { destroyed = true }) h a

  run-Agrees : (es : List (Event Argument)) (d : Dialog Argument) → Agrees d → Agrees (run es d)
  unfolding run step
  run-Agrees [] d a = a
  run-Agrees (e ∷ es) d a =
      run-Agrees es (step e d) (Agrees-step_by d.pending_close_task e d refl a)

  -- However a dialog is used, its buttons are blocked just while the promise of a handler is open, and
  -- without a trace of it at any other time.
  pub run-open_dialog-Agrees : (es : List (Event Argument)) → Agrees (run es open_dialog)
  unfolding open_dialog
  run-open_dialog-Agrees es = run-Agrees es open_dialog (refl, refl)

  abbrev pub resets : List (Event Argument) → ℕ
  resets [] = 0
  resets (reset ∷ es) = suc (resets es)
  resets (ask way a ∷ es) = resets es
  resets (settle b ∷ es) = resets es
  resets (after_close ∷ es) = resets es

  abbrev is_reset : Event Argument → ℕ
  is_reset reset = 1
  is_reset (ask way a) = 0
  is_reset (settle b) = 0
  is_reset after_close = 0

  calls-step_by :
      (t : Option Task) (e : Event Argument) (d : Dialog Argument)
      → d.pending_close_task ≡ t
      → length (step_by t e d).calls + is_pending t
        ≤ length d.calls + is_reset e + is_pending (step_by t e d).pending_close_task
  unfolding ask_to_close settle_task reset_task process_dialog_close
  calls-step_by none (ask close x) d h = omega arith
  calls-step_by none (ask dismiss x) d h = omega arith
  calls-step_by none (settle b) d h = omega arith
  calls-step_by none reset d h = omega arith
  calls-step_by none after_close d h = omega arith
  calls-step_by (some waiting) (ask way x) d h = rw h (omega arith)
  calls-step_by (some waiting) (settle b) d h = omega arith
  calls-step_by (some waiting) reset d h = omega arith
  calls-step_by (some waiting) after_close d h = rw h (omega arith)
  calls-step_by (some settled) (ask way x) d h = rw h (omega arith)
  calls-step_by (some settled) (settle b) d h = rw h (omega arith)
  calls-step_by (some settled) reset d h = omega arith
  calls-step_by (some settled) after_close d h = rw h (omega arith)

  resets-cons :
      (e : Event Argument) (es : List (Event Argument)) → resets (e ∷ es) ≡ is_reset e + resets es
  resets-cons reset es = omega arith
  resets-cons (ask way a) es = omega arith
  resets-cons (settle b) es = omega arith
  resets-cons after_close es = omega arith

  calls-run :
      (es : List (Event Argument)) (d : Dialog Argument)
      → length (run es d).calls + is_pending d.pending_close_task
        ≤ length d.calls + resets es + is_pending (run es d).pending_close_task
  unfolding run step
  calls-run [] d = omega arith
  calls-run (e ∷ es) d = omega (
    arith,
    calls-step_by d.pending_close_task e d refl,
    calls-run es (step e d),
    resets-cons e es,
  )

  -- A handler is called again only after the promise of the one before has been settled and its task
  -- reset: there is at most one call more than there are resets.
  calls-run_bounded :
      (es : List (Event Argument)) → length (run es open_dialog).calls ≤ suc (resets es)
  unfolding open_dialog
  calls-run_bounded es =
      omega
        (arith, calls-run es open_dialog, is_pending_one (run es open_dialog).pending_close_task)

  settle_and_reset :
      (way : Way) (a : Argument) (d : Dialog Argument)
      → step reset (step (settle false) (ask_to_close way a none d)) ≡ record d {
        ok_button = no_props;
        cancel_button = no_props;
        pending_close_task = none;
        calls = (way, a) ∷ d.calls;
      }
  unfolding step ask_to_close process_dialog_close settle_task reset_task
  settle_and_reset close a d = refl
  settle_and_reset dismiss a d = refl

  restored :
      (calls : List (Way × Argument)) (d : Dialog Argument)
      → d.pending_close_task ≡ none
      → Free d
      → record d {
        ok_button = no_props;
        cancel_button = no_props;
        pending_close_task = none;
        calls = calls;
      }
        ≡ record d { calls = calls }
  restored calls d h (e, f) =
      ap₂
        (λ b c. record d {
          ok_button = b;
          cancel_button = c;
          pending_close_task = none;
          calls = calls;
        })
        (sym e) (sym f)
      ∙ ap (λ t. record d { pending_close_task = t; calls = calls }) (sym h)

  -- A promise that is rejected leaves the dialog as it was before, but for the call of the handler, so
  -- that it can be closed again.
  run_rejected :
      (way : Way) (a : Argument) (d : Dialog Argument)
      → d.pending_close_task ≡ none
      → Free d
      → run (ask way a ∷ settle false ∷ reset ∷ []) d ≡ record d { calls = (way, a) ∷ d.calls }
  unfolding run step
  run_rejected way a d h f =
      ap (λ e. step reset (step (settle false) e)) (ap (λ t. ask_to_close way a t d) h)
      ∙ settle_and_reset way a d
      ∙ restored ((way, a) ∷ d.calls) d h f
