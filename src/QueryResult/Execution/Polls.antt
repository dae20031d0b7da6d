-- ===== src/QueryResult/Execution/Polls.antt =====
-- The polling of a job by `refreshStatus`: how long it waits, and how an execution ends well.
use mxzz_bi.Prelude.{
  ℕ, zero, suc, ◌+◌, ◌-◌, ◌*◌, ◌≤◌, min, ◌≡◌, refl, ◌∙◌, ap, ◌⊎◌, inl, inr, Bool, true, false, ◌&&◌,
  none, some, List, [], ◌∷◌, arith, length,
}
use mxzz_bi.QueryResult.Job.{
  done, Job, Props, Promise, pending, resolved, settle, QueryResult, fresh, HttpError, update,
  get_status,
}
use mxzz_bi.QueryResult.Execution.{
  idle, polling, poll_wait, Execution, Event, replies, timer, load_result, refresh_status, get,
  has_result, status_is_processing, status_is_failed, after_poll, posted, go_on, step, run,
  poll_delay,
}
use mxzz_bi.QueryResult.Execution.Loading.{delay_of, waited, retries, load_result-retries}

-- A job that is waiting, or that runs without a result yet.
abbrev pub Runs : Job → Type 0
Runs j =
    (j.status ≡ some 1)
    ⊎ (((j.status ≡ some 2) ⊎ (j.status ≡ some 3)) × (has_result j.query_result_id ≡ false))

abbrev pub StillRuns : {D : Type 0} → Props D → Type 0
StillRuns p = (p.query_result ≡ none) × ((j : Job) × (p.job ≡ some j) × Runs j)

abbrev pub AllRun : {D : Type 0} → List (Props D) → Type 0
AllRun [] = Unit {0}
AllRun (p ∷ ps) = StillRuns p × AllRun ps

-- Replies to the polls, each followed by the timer.
abbrev pub polls : {D : Type 0} → List (Props D) → List (Event D) → List (Event D)
polls [] last = last
polls (p ∷ ps) last = replies p ∷ timer ∷ polls ps last

abbrev poll_time : ℕ → ℕ → ℕ
poll_time k zero = 0
poll_time k (suc n) = poll_delay k + poll_time (k + 1) n

poll_time-eq : (k n : ℕ) → poll_time k n ≡ 500 * min n (11 - k) + 3000 * (n - (11 - k))
poll_time-eq k zero = omega arith
poll_time-eq k (suc n) = ground (arith, poll_time-eq (k + 1) n)

module _ {D : Type 0} (prepare : D → D) (authenticated : Bool) where
  update-runs :
      (p : Props D) (q : QueryResult D)
      → StillRuns p
      → q.is_loading_result ≡ false
      → ((update prepare p q).promise ≡ q.promise)
        × ((update prepare p q).is_loading_result ≡ false)
  unfolding update
  update-runs p q r h = ground arith

  update-status_runs :
      (p : Props D) (q : QueryResult D)
      → StillRuns p
      → q.is_loading_result ≡ false
      → ((status_is_processing (get_status (update prepare p q))
            && has_result (update prepare p q).job.query_result_id)
          ≡ false)
        × (status_is_failed (get_status (update prepare p q)) ≡ false)
  unfolding update get_status
  update-status_runs p q (empty, (j, here, inl w)) h = (ground arith, ground arith)
  update-status_runs p q (empty, (j, here, inr (running, no_result))) h =
      (ground arith, ground arith)

  after_poll-runs :
      (n : ℕ) (p : Props D) (q : QueryResult D)
      → StillRuns p
      → q.is_loading_result ≡ false
      → after_poll prepare authenticated n (update prepare p q)
        ≡ record { result = update prepare p q; activity = poll_wait (n + 1) (poll_delay n) }
  unfolding after_poll
  after_poll-runs n p q r h = let (a, b) = update-status_runs p q r h in rw (a, b)

  -- Rounds of polls of a job that runs lead to the next poll, with the promise as it was.
  polls_go_on :
      (k : ℕ) (ps : List (Props D)) (last : List (Event D)) (q : QueryResult D)
      → AllRun ps
      → q.is_loading_result ≡ false
      → (r : QueryResult D) × (r.promise ≡ q.promise)
        × (r.is_loading_result ≡ false)
        × (run prepare authenticated (refresh_status k q) (polls ps last)
            ≡ run prepare authenticated (refresh_status (k + length ps) r) last)
        × (waited prepare authenticated (refresh_status k q) (polls ps last)
            ≡ poll_time k (length ps)
              + waited prepare authenticated (refresh_status (k + length ps) r) last)
  unfolding go_on refresh_status
  polls_go_on k [] last q all h =
      let e : k + 0 ≡ k = omega arith in (q, refl, h, rw e, rw e (omega arith))
  polls_go_on k (p ∷ ps) last q (here, all) h =
      let (kept, flag) = update-runs p q here h in
      let (r, same, down, runs, waits) =
        polls_go_on (k + 1) ps last (update prepare p q) all flag in
      let e : k + 1 + length ps ≡ k + suc (length ps) = omega arith in
      let polled = after_poll-runs k p q here h in
      (
        r,
        same ∙ kept,
        down,
        ap
              (λ (x : Execution D).
                run prepare authenticated (step prepare authenticated x timer) (polls ps last))
              polled
            ∙ runs
            ∙ ap (λ (i : ℕ). run prepare authenticated (refresh_status i r) last) e,
        ap
              (λ (x : Execution D).
                0
                + (delay_of {D = D} x.activity timer
                    + waited prepare authenticated (step prepare authenticated x timer)
                        (polls ps last)))
              polled
            ∙ omega (
              arith,
              waits,
              ap (λ (i : ℕ). waited prepare authenticated (refresh_status i r) last) e,
            ),
      )

  -- While the job runs, polling goes on for as many rounds as there are replies, the promise stays as
  -- it was, and the waits are half a second ten times and three seconds from then on.
  pub refresh_status-polls :
      (ps : List (Props D)) (q : QueryResult D)
      → AllRun ps
      → q.is_loading_result ≡ false
      → ((run prepare authenticated (refresh_status 1 q) (polls ps [])).activity
          ≡ polling (1 + length ps))
        × ((run prepare authenticated (refresh_status 1 q) (polls ps [])).result.promise
            ≡ q.promise)
        × (waited prepare authenticated (refresh_status 1 q) (polls ps [])
            ≡ 500 * min (length ps) 10 + 3000 * (length ps - 10))
  unfolding refresh_status
  refresh_status-polls ps q all h =
      let (r, same, down, runs, waits) = polls_go_on 1 ps [] q all h in
      (
        ap (λ (x : Execution D). x.activity) runs,
        ap (λ (x : Execution D). x.result.promise) runs ∙ same,
        waits ∙ omega (arith, poll_time-eq 1 (length ps)),
      )

-- The events of that way.
abbrev pub way :
    {D : Type 0}
    → Props D
    → List (Props D)
    → Props D
    → List (HttpError D)
    → Props D
    → List (Event D)
way answer ps finished es result =
    replies answer ∷ polls ps (replies finished ∷ retries es (replies result ∷ []))

-- The whole way of a query, for an authenticated user: the POST answers with a job, polls find it
-- running, a poll finds its result, and the load of the result fails at most four times.
module _ {D : Type 0} (prepare : D → D) where
  -- A job that has a result.
  abbrev pub HasResult : Props D → Type 0
  HasResult p =
      (p.query_result ≡ none)
      × ((j : Job) × (p.job ≡ some j)
          × ((j.status ≡ some 2) ⊎ (j.status ≡ some 3))
          × (has_result j.query_result_id ≡ true))

  update-status_finished :
      (p : Props D) (q : QueryResult D)
      → HasResult p
      → q.is_loading_result ≡ false
      → (status_is_processing (get_status (update prepare p q))
          && has_result (update prepare p q).job.query_result_id)
        ≡ true
  unfolding update get_status
  update-status_finished p q (empty, (j, here, inl two, has)) h = ground arith
  update-status_finished p q (empty, (j, here, inr three, has)) h = ground arith

  after_poll-finished :
      (n : ℕ) (p : Props D) (q : QueryResult D)
      → HasResult p
      → q.is_loading_result ≡ false
      → after_poll prepare true n (update prepare p q) ≡ load_result 0 (update prepare p q)
  unfolding after_poll
  after_poll-finished n p q r h = rw (update-status_finished p q r h)

  update-finished :
      (p : Props D) (q : QueryResult D) → HasResult p → (update prepare p q).promise ≡ q.promise
  unfolding update
  update-finished p q r = ground arith

  posted-runs :
      (p : Props D) (q : QueryResult D)
      → StillRuns p
      → posted prepare true p q ≡ refresh_status 1 (update prepare p q)
  unfolding posted
  posted-runs p q r = ground arith

  update-result :
      (p : Props D) (q : QueryResult D) (d : D)
      → p.query_result ≡ some d
      → ((update prepare p q).query_result ≡ some (prepare d))
        × ((update prepare p q).status ≡ some done)
        × ((update prepare p q).promise ≡ settle q.promise resolved)
  unfolding update
  update-result p q d h = (ground arith, ground arith, ground arith)

  status_done :
      (q : QueryResult D)
      → q.is_loading_result ≡ false
      → q.status ≡ some done
      → get_status q ≡ some done
  unfolding get_status
  status_done q off h = ground arith

  -- Let a query be posted for an authenticated user, the answer and the replies to the polls have a job
  -- that still runs, the last reply a finished job with a result, and the loading of it fail at most four times before a
  -- reply with the data. Then the execution ends with the data in place, the promise resolved, the
  -- status done and nothing under way.
  pub get_completes :
      (answer : Props D) (ps : List (Props D)) (finished : Props D) (es : List (HttpError D))
      (result : Props D) (d : D)
      → StillRuns answer
      → AllRun ps
      → HasResult finished
      → length es ≤ 4
      → result.query_result ≡ some d
      → let x = run prepare true get (way answer ps finished es result) in
        (x.activity ≡ idle)
        × (x.result.promise ≡ resolved)
        × (x.result.query_result ≡ some (prepare d))
        × (get_status x.result ≡ some done)
  unfolding go_on refresh_status settle
  get_completes answer ps finished es result d started all done_job few has =
      let (kept, flag) = update-runs prepare true answer fresh started refl in
      let last = replies finished ∷ retries es (replies result ∷ []) in
      let (r, same, down, runs, waits) =
        polls_go_on prepare true 1 ps last (update prepare answer fresh) all flag in
      let u = update prepare finished r in
      let events = retries es (replies result ∷ []) in
      let whole =
        ap (λ (x : Execution D). run prepare true x (polls ps last))
          (posted-runs answer fresh started)
        ∙ runs
        ∙ ap (λ (x : Execution D). run prepare true x events)
            (after_poll-finished (1 + length ps) finished r done_job down) in
      let (ended, data_there, promised, status, off) =
        load_result-retries prepare true u es result few in
      let (there, is_done, settled) = update-result result u d has in
      let pend : u.promise ≡ pending = update-finished finished r done_job ∙ same ∙ kept in
      (
        ap (λ (x : Execution D). x.activity) whole ∙ ended,
        ap (λ (x : Execution D). x.result.promise) whole
            ∙ promised
            ∙ settled
            ∙ ap (λ (q : Promise). settle q resolved) pend,
        ap (λ (x : Execution D). x.result.query_result) whole ∙ data_there ∙ there,
        ap (λ (x : Execution D). get_status x.result) whole ∙ status_done _ off (status ∙ is_done),
      )
