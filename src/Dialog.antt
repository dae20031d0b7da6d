-- ===== src/Dialog.antt =====
-- client/app/components/DialogWrapper.jsx: `openDialog`, a dialog with handlers that may take time. What
-- a handler returns is settled later, as an event; the tasks after that are one event more.
pub mod Closing
mod Tests
use mxzz_bi.Prelude.{ℕ, Bool, true, false, Option, none, some, List, [], ◌∷◌, if◌then◌else◌}

-- `closeDialog` and `dismissDialog`
pub data Way : Type 0 where
  close dismiss : Way

-- `okButtonProps` and `cancelButtonProps`
pub record Button : Type 0 where
  pub disabled : Bool
  pub loading : Bool

abbrev pub no_props : Button
no_props = record { disabled = false; loading = false }

-- `pendingCloseTask`: the handler's promise is open, or the task waits to be reset.
pub data Task : Type 0 where
  waiting settled : Task

pub record Dialog (Argument : Type 0) : Type 0 where
  pub visible : Bool
  pub ok_button : Button
  pub cancel_button : Button
  pub pending_close_task : Option Task
  pub destroyed : Bool
  -- the calls of the handlers, the last one first
  pub calls : List (Way × Argument)

pub data Event (Argument : Type 0) : Type 0 where
  ask : Way → Argument → Event Argument
  -- the handler's promise, and whether it was fulfilled
  settle : Bool → Event Argument
  reset after_close : Event Argument

module _ {Argument : Type 0} where
  abbrev pub with_loading : Way → Dialog Argument → Dialog Argument
  with_loading close d = record d {
    ok_button = record { disabled = true; loading = true };
    cancel_button = record { disabled = true; loading = false };
  }
  with_loading dismiss d = record d {
    ok_button = record { disabled = true; loading = false };
    cancel_button = record { disabled = true; loading = true };
  }

  unfoldable pub process_dialog_close : Way → Argument → Dialog Argument → Dialog Argument
  process_dialog_close way result d =
      with_loading way
        (record d { calls = (way, result) ∷ d.calls; pending_close_task = some waiting })

  -- `closeDialog` and `dismissDialog`, by the pending task
  unfoldable pub ask_to_close : Way → Argument → Option Task → Dialog Argument → Dialog Argument
  unfolding process_dialog_close
  ask_to_close way result none d = process_dialog_close way result d
  ask_to_close way result (some t) d = d

  -- `then` if it was fulfilled, and `finally`
  unfoldable pub settle_task : (fulfilled : Bool) → Option Task → Dialog Argument → Dialog Argument
  settle_task fulfilled (some waiting) d = record d {
    visible = if fulfilled then false else d.visible;
    ok_button = no_props;
    cancel_button = no_props;
    pending_close_task = some settled;
  }
  settle_task fulfilled (some settled) d = d
  settle_task fulfilled none d = d

  -- The `finally` of the task
  unfoldable pub reset_task : Option Task → Dialog Argument → Dialog Argument
  reset_task (some settled) d = record d { pending_close_task = none }
  reset_task (some waiting) d = d
  reset_task none d = d

  abbrev pub step_by : Option Task → Event Argument → Dialog Argument → Dialog Argument
  step_by t (ask way result) d = ask_to_close way result t d
  step_by t (settle fulfilled) d = settle_task fulfilled t d
  step_by t reset d = reset_task t d
  step_by t after_close d = record d { destroyed = true }

  unfoldable pub step : Event Argument → Dialog Argument → Dialog Argument
  unfolding ask_to_close settle_task reset_task
  step e d = step_by d.pending_close_task e d

  unfoldable pub run : List (Event Argument) → Dialog Argument → Dialog Argument
  unfolding step
  run [] d = d
  run (e ∷ es) d = run es (step e d)

  unfoldable pub open_dialog : Dialog Argument
  open_dialog = record {
    visible = true;
    ok_button = no_props;
    cancel_button = no_props;
    pending_close_task = none;
    destroyed = false;
    calls = [];
  }
