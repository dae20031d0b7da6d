-- ===== src/QueryExecute/Latest.antt =====
-- useQueryExecute.js: only the latest execution is shown.
use mxzz_bi.Prelude.{
  ℕ, String, ◌≡◌, refl, ap₂, ◌∙◌, Bool, true, false, Option, none, some, List, [], ◌∷◌,
  if◌then◌else◌, Bool-cases, Option-cases, inl, inr,
}
use mxzz_bi.QueryExecute.{
  Shown, loaded, failed, Hook, Event, execute, status_changed, resolved, rejected, cancel, unmount,
  is_current, Query, execute_query, on_status_change, on_loaded, on_failed, cancel_execution,
  no_execution, step, run, mount,
}

-- What the page shows, of one execution at a time: whether it runs, the last outcome, the status and the
-- time, and the button that cancels it, with what it was used for.
pub record Page (Moment Status : Type 0) : Type 0 where
  pub running : Bool
  pub outcome : Option Shown
  pub status : Option Status
  pub time : Option Moment
  pub can_cancel : Bool
  pub cancelling : Bool

-- What happens to such a page.
pub data Own (Moment Status : Type 0) : Type 0 where
  started changed : Moment → Status → Own Moment Status
  answered : Shown → Own Moment Status
  cancelled : Own Moment Status

abbrev is_some : {A : Type 0} → Option A → Bool
is_some none = false
is_some (some a) = true

-- The status of a page whose execution has come to an end.
abbrev end_status : {Status : Type 0} → Status → Shown → Option Status
end_status failed_status (loaded r) = none
end_status failed_status (failed m) = some failed_status

-- The button stays used until an answer, also when another execution is started meanwhile.
abbrev pub own_step :
    {Moment Status : Type 0} → Status → Own Moment Status → Page Moment Status → Page Moment Status
own_step f (started t s) p = record p {
  running = true;
  status = some s;
  time = some t;
  can_cancel = true;
}
own_step f (changed t s) p = record p { status = some s; time = some t }
own_step f (answered o) p = record p {
  running = false;
  outcome = some o;
  status = end_status f o;
  cancelling = false;
}
own_step f cancelled p = if p.can_cancel then record p { cancelling = true } else p

abbrev pub replay :
    {Moment Status : Type 0}
    → Status
    → List (Own Moment Status)
    → Page Moment Status
    → Page Moment Status
replay f [] p = p
replay f (e ∷ es) p = replay f es (own_step f e p)

abbrev error_of : Option Shown → Option String
error_of none = none
error_of (some (loaded r)) = none
error_of (some (failed m)) = some m

module _ {Moment Status : Type 0} where
  abbrev pub page : Hook Moment Status → Page Moment Status
  page h = record {
    running = h.state.is_executing;
    outcome = h.state.query_result;
    status = h.state.execution_status;
    time = h.state.updated_at;
    can_cancel = is_some h.state.cancel_callback;
    cancelling = h.state.is_cancelling;
  }

  -- The starts and the cancellations, and of the changes of status and the answers those of the
  -- execution that is then the latest.
  abbrev pub trace : Option ℕ → List (Event Moment Status) → List (Own Moment Status)
  trace current [] = []
  trace current (execute n t s ∷ es) = started t s ∷ trace (some n) es
  trace current (status_changed n t s ∷ es) =
      let rest = trace current es in if is_current current n then changed t s ∷ rest else rest
  trace current (resolved e r ∷ es) =
      let rest = trace current es in
      if is_current current e.number then answered (loaded r) ∷ rest else rest
  trace current (rejected e m ∷ es) =
      let rest = trace current es in
      if is_current current e.number then answered (failed m) ∷ rest else rest
  trace current (cancel ∷ es) = cancelled ∷ trace current es
  trace current (unmount ∷ es) = trace none es

  page-cancel_execution :
      (f : Status) (h : Hook Moment Status)
      → (page (cancel_execution h) ≡ own_step f cancelled (page h))
        × ((cancel_execution h).in_execution ≡ h.in_execution)
  unfolding cancel_execution
  page-cancel_execution f h = elim (Option-cases h.state.cancel_callback) [
    | inl e ↦ rw e (refl, refl)
    | inr (n, e) ↦ rw e (refl, refl)
  ]

  -- Whatever executions overlap and in whatever order their changes of status and their answers come,
  -- the page is that of one execution at a time which is given the changes and the answers of the latest
  -- one alone, and none once it is unmounted: whether it runs, its outcome, its status and time, and
  -- whether it can be cancelled and is being cancelled. A cancellation lasts until the next such answer.
  pub page-run :
      (failed_status : Status) (es : List (Event Moment Status)) (h : Hook Moment Status)
      → page (run failed_status es h) ≡ replay failed_status (trace h.in_execution es) (page h)
  unfolding run step execute_query on_status_change on_loaded on_failed
  page-run f [] h = refl
  page-run f (execute n t s ∷ es) h = page-run f es (execute_query n t s h)
  page-run f (status_changed n t s ∷ es) h = elim (Bool-cases (is_current h.in_execution n)) [
    | inl e ↦ rw (run, step, e) (page-run f es (record h { state = on_status_change t s h.state }))
    | inr e ↦ rw (run, step, e) (page-run f es h)
  ]
  page-run f (resolved e r ∷ es) h = elim (Bool-cases (is_current h.in_execution e.number)) [
    | inl c ↦ rw (run, step, c) (page-run f es (on_loaded e r h))
    | inr c ↦ rw (run, step, c) (page-run f es h)
  ]
  page-run f (rejected e m ∷ es) h = elim (Bool-cases (is_current h.in_execution e.number)) [
    | inl c ↦ rw (run, step, c) (page-run f es (on_failed f e m h))
    | inr c ↦ rw (run, step, c) (page-run f es h)
  ]
  page-run f (cancel ∷ es) h =
      let (p, i) = page-cancel_execution f h in
      page-run f es (cancel_execution h) ∙ ap₂ (λ o q. replay f (trace o es) q) i p
  page-run f (unmount ∷ es) h = page-run f es (record h { in_execution = none })

  -- The error shown is that of the result shown, and a result is shown only as loaded.
  abbrev pub ErrorAgrees : Hook Moment Status → Type 0
  ErrorAgrees h = h.state.error ≡ error_of h.state.query_result

  step-ErrorAgrees :
      (f : Status) (e : Event Moment Status) (h : Hook Moment Status)
      → ErrorAgrees h
      → ErrorAgrees (step f e h)
  unfolding step execute_query on_status_change on_loaded on_failed cancel_execution
  step-ErrorAgrees f (execute n t s) h a = a
  step-ErrorAgrees f (status_changed n t s) h a = elim (Bool-cases (is_current h.in_execution n)) [
    | inl e ↦ rw e a
    | inr e ↦ rw e a
  ]
  step-ErrorAgrees f (resolved x r) h a = elim (Bool-cases (is_current h.in_execution x.number)) [
    | inl e ↦ rw e refl
    | inr e ↦ rw e a
  ]
  step-ErrorAgrees f (rejected x m) h a = elim (Bool-cases (is_current h.in_execution x.number)) [
    | inl e ↦ rw e refl
    | inr e ↦ rw e a
  ]
  step-ErrorAgrees f cancel h a = elim (Option-cases h.state.cancel_callback) [
    | inl e ↦ rw e a
    | inr (n, e) ↦ rw e a
  ]
  step-ErrorAgrees f unmount h a = a

  run_keeps :
      (f : Status) (es : List (Event Moment Status)) (h : Hook Moment Status)
      → ErrorAgrees h
      → ErrorAgrees (run f es h)
  unfolding run
  run_keeps f [] h a = a
  run_keeps f (e ∷ es) h a = run_keeps f es (step f e h) (step-ErrorAgrees f e h a)

  mount-ErrorAgrees :
      (runs : Bool) (n : ℕ) (t : Moment) (s : Status) (q : Query) → ErrorAgrees (mount runs n t s q)
  unfolding mount no_execution execute_query
  mount-ErrorAgrees true n t s q = refl
  mount-ErrorAgrees false n t s q = refl

  -- From the mount of the page on, the error that the state holds is always the one of the result it
  -- holds, and none when that result was loaded or there is none.
  run-mount-ErrorAgrees :
      (failed_status : Status) (es : List (Event Moment Status)) (runs : Bool) (n : ℕ) (t : Moment)
      (s : Status) (q : Query)
      → ErrorAgrees (run failed_status es (mount runs n t s q))
  run-mount-ErrorAgrees f es runs n t s q =
      run_keeps f es (mount runs n t s q) (mount-ErrorAgrees runs n t s q)
