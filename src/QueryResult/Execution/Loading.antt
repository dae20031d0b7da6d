-- ===== src/QueryResult/Execution/Loading.antt =====
-- The flag `isLoadingResult`, and the retries of `loadResult`.
use mxzz_bi.Prelude.{
  length, ℕ, ◌+◌, ◌≤◌, ◌≡◌, refl, ◌∙◌, Bool, true, false, Option, some, List, [], ◌∷◌, arith,
}
use mxzz_bi.QueryResult.Job.{
  Status, failed, Props, rejected, settle, QueryResult, HttpError, update, handle_error_response,
  get_status,
}
use mxzz_bi.QueryResult.Execution.{
  Activity, idle, posting, by_id, cached, polling, poll_wait, loading, load_wait, Execution, Event,
  replies, fails, timer, load_result, load_latest_cached_result, refresh_status, lost, after_poll,
  loaded, load_failed, posted, go_on, step, run,
}

-- The fetching of a result by `getById` and by `loadResult`; that of `loadLatestCachedResult` sets no flag.
abbrev pub flags_load : Activity → Bool
flags_load by_id = true
flags_load (loading n) = true
flags_load (load_wait n d) = true
flags_load _ = false

module _ {D : Type 0} (prepare : D → D) where
  update-is_loading :
      (p : Props D) (q : QueryResult D)
      → (update prepare p q).is_loading_result ≡ q.is_loading_result
  unfolding update
  update-is_loading p q = ground arith

  handle_error_response-is_loading :
      (e : HttpError D) (q : QueryResult D)
      → (handle_error_response prepare e q).is_loading_result ≡ q.is_loading_result
  unfolding handle_error_response
  handle_error_response-is_loading e q = grind (arith, update-is_loading)

  module _ (authenticated : Bool) where
    abbrev pub FlagAgrees : Execution D → Type 0
    FlagAgrees x = x.result.is_loading_result ≡ flags_load x.activity

    after_poll-FlagAgrees :
        (n : ℕ) (q : QueryResult D)
        → q.is_loading_result ≡ false
        → FlagAgrees (after_poll prepare authenticated n q)
    unfolding after_poll load_result load_latest_cached_result
    after_poll-FlagAgrees n q h = ground arith

    go_on-FlagAgrees :
        (a : Activity) (q : QueryResult D) (e : Event D)
        → q.is_loading_result ≡ flags_load a
        → FlagAgrees (go_on prepare authenticated a q e)
    unfolding go_on posted loaded load_failed refresh_status load_result
    go_on-FlagAgrees posting q (replies p) h = ground (arith, update-is_loading p q)
    go_on-FlagAgrees posting q (fails e) h = handle_error_response-is_loading e q ∙ h
    go_on-FlagAgrees by_id q (replies p) h =
        update-is_loading p (record q { is_loading_result = false })
    go_on-FlagAgrees by_id q (fails e) h =
        handle_error_response-is_loading e (record q { is_loading_result = false })
    go_on-FlagAgrees cached q (replies p) h = update-is_loading p q ∙ h
    go_on-FlagAgrees cached q (fails e) h = handle_error_response-is_loading e q ∙ h
    go_on-FlagAgrees (polling n) q (replies p) h =
        after_poll-FlagAgrees n (update prepare p q) (update-is_loading p q ∙ h)
    go_on-FlagAgrees (polling n) q (fails e) h = update-is_loading lost q ∙ h
    go_on-FlagAgrees (poll_wait n d) q timer h = h
    go_on-FlagAgrees (loading n) q (replies p) h = refl
    go_on-FlagAgrees (loading n) q (fails e) h = ground arith
    go_on-FlagAgrees (load_wait n d) q timer h = refl
    go_on-FlagAgrees a q e h = h

    -- The flag stays true to the activity, through every sequence of replies, failures and timers: it is
    -- set exactly while `getById` or `loadResult` fetches a result, the waits between two tries included,
    -- and so it is down while `loadLatestCachedResult` fetches one.
    pub run-FlagAgrees :
        (x : Execution D) (es : List (Event D))
        → FlagAgrees x
        → FlagAgrees (run prepare authenticated x es)
    run-FlagAgrees x [] h = h
    run-FlagAgrees x (e ∷ es) h =
        run-FlagAgrees (step prepare authenticated x e) es
          (go_on-FlagAgrees x.activity x.result e h)

-- The time that the timers of a run took, in milliseconds.
abbrev pub delay_of : {D : Type 0} → Activity → Event D → ℕ
delay_of (poll_wait n d) timer = d
delay_of (load_wait n d) timer = d
delay_of a e = 0

-- Each failure is followed by the timer.
abbrev pub retries : {D : Type 0} → List (HttpError D) → List (Event D) → List (Event D)
retries [] last = last
retries (e ∷ es) last = fails e ∷ timer ∷ retries es last

abbrev pub five : {D : Type 0} → (a b c d e : HttpError D) → List (Event D)
five a b c d e = retries (a ∷ b ∷ c ∷ d ∷ []) (fails e ∷ [])

module _ {D : Type 0} (prepare : D → D) (authenticated : Bool) where
  abbrev pub waited : Execution D → List (Event D) → ℕ
  waited x [] = 0
  waited x (e ∷ es) = delay_of x.activity e + waited (step prepare authenticated x e) es

  -- Five failures, whatever they were, end the loading of a result: nothing is under way, the flag is
  -- down, the promise is rejected unless it was settled, and the timers took 15 seconds.
  pub load_result_gives_up :
      (q : QueryResult D) (a b c d e : HttpError D)
      → let x = run prepare authenticated (load_result 0 q) (five a b c d e) in
        (x.activity ≡ idle)
        × (x.result.is_loading_result ≡ false)
        × (get_status x.result ≡ some failed)
        × (x.result.promise
            ≡ settle q.promise (
                rejected (
                  some
                    "failed communicating with server. Please check your Internet connection and try again.")))
        × (waited (load_result 0 q) (five a b c d e) ≡ 15000)
  unfolding go_on load_failed load_result update get_status
  load_result_gives_up q a b c d e = (refl, refl, refl, refl, refl)

  -- `update` does not look at the calls of the status callback nor at the flag.
  finish :
      (q : QueryResult D) (ns : List (Option Status)) (p : Props D)
      → let r = update prepare p (record q { notified = ns; is_loading_result = true }) in
        (◌≡◌ {A = Activity} idle idle)
        × (r.query_result ≡ (update prepare p q).query_result)
        × (r.promise ≡ (update prepare p q).promise)
        × (r.status ≡ (update prepare p q).status)
        × (◌≡◌ {A = Bool} false false)
  unfolding update
  finish q ns p = (refl, ground arith, ground arith, ground arith, refl)

  -- At most four failures before a reply make no difference to the data, the promise and the status
  -- that loading a result ends with, and nothing is under way then.
  pub load_result-retries :
      (q : QueryResult D) (es : List (HttpError D)) (p : Props D)
      → length es ≤ 4
      → let x = run prepare authenticated (load_result 0 q) (retries es (replies p ∷ [])) in
        (x.activity ≡ idle)
        × (x.result.query_result ≡ (update prepare p q).query_result)
        × (x.result.promise ≡ (update prepare p q).promise)
        × (x.result.status ≡ (update prepare p q).status)
        × (x.result.is_loading_result ≡ false)
  unfolding go_on load_failed load_result loaded
  load_result-retries q [] p h = finish q _ p
  load_result-retries q (a ∷ []) p h = finish q _ p
  load_result-retries q (a ∷ b ∷ []) p h = finish q _ p
  load_result-retries q (a ∷ b ∷ c ∷ []) p h = finish q _ p
  load_result-retries q (a ∷ b ∷ c ∷ d ∷ []) p h = finish q _ p
  load_result-retries q (a ∷ b ∷ c ∷ d ∷ e ∷ es) p h = absurd (omega arith)
