-- ===== src/Dialog/Tests.antt =====
-- A dialog at a concrete run: a rejected close, a dismissal while it is open, and a second close.
use mxzz_bi.Prelude.{ℕ, ◌≡◌, refl, true, false, List, [], ◌∷◌}
use mxzz_bi.Dialog.{
  close, dismiss, Event, ask, settle, reset, ask_to_close, process_dialog_close, settle_task,
  reset_task, step, run, open_dialog,
}
use mxzz_bi.Dialog.Closing.{Agrees, run-open_dialog-Agrees}

abbrev events : List (Event ℕ)
events = ask close 1 ∷ ask dismiss 2 ∷ settle false ∷ reset ∷ ask close 3 ∷ settle true ∷ reset ∷ []

closed_once_more : (run events open_dialog).calls ≡ (close, 3) ∷ (close, 1) ∷ []
unfolding run step open_dialog ask_to_close process_dialog_close settle_task reset_task
closed_once_more = refl

run-open_dialog-Agrees_example : Agrees (run events open_dialog)
run-open_dialog-Agrees_example = run-open_dialog-Agrees events
