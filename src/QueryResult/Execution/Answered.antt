-- ===== src/QueryResult/Execution/Answered.antt =====
-- No query is left without an answer: when nothing is under way, the promise is settled.
use mxzz_bi.Prelude.{
  ℕ, String, ◌≡◌, refl, ◌≢◌, ◌⊎◌, inl, inr, Bool, true, false, ◌&&◌, Option, none, some, List, [],
  ◌∷◌, arith, Bool-cases, ◌||◌, not,
}
use mxzz_bi.QueryResult.Job.{
  Job, Props, failure, Promise, pending, resolved, rejected, settle, QueryResult, failed_job,
  HttpError, is_some, code_is, update, handle_error_response, get_status,
}
use mxzz_bi.QueryResult.Execution.{
  Activity, idle, posting, by_id, cached, polling, poll_wait, loading, load_wait, Execution, Event,
  replies, fails, timer, load_result, load_latest_cached_result, refresh_status, get_by_id, lost,
  status_is_failed, after_poll, loaded, load_failed, posted, go_on, step, run,
}
use mxzz_bi.QueryResult.Execution.Settled.{IsSettled}

-- A body that settles the promise: a result, or a job that has failed.
abbrev pub Answers : {D : Type 0} → Props D → Type 0
Answers p = (is_some p.query_result ≡ true) ⊎ ((j : Job) × (p.job ≡ some j) × (j.status ≡ some 4))

-- Whether a body settles the promise.
abbrev pub settles : {D : Type 0} → Props D → Bool
settles p = is_some p.query_result || elim p.job [ none ↦ false | some j ↦ code_is 4 j.status ]

-- An error 403, or 400 with a job, whose body has neither a result nor a job that has failed.
abbrev pub leaves_open : {D : Type 0} → HttpError D → Bool
leaves_open e =
    (code_is 403 e.code || (code_is 400 e.code && is_some e.body.job)) && not (settles e.body)

-- What comes back and neither settles the promise nor makes the execution go on: to the POST of a query
-- no job and nothing that settles, to a request for a result nothing that settles, or such an error.
abbrev pub is_unhelpful : {D : Type 0} → Activity → Event D → Bool
is_unhelpful posting (replies p) = not (is_some p.job || settles p)
is_unhelpful by_id (replies p) = not (settles p)
is_unhelpful cached (replies p) = not (settles p)
is_unhelpful (loading n) (replies p) = not (settles p)
is_unhelpful posting (fails e) = leaves_open e
is_unhelpful by_id (fails e) = leaves_open e
is_unhelpful cached (fails e) = leaves_open e
is_unhelpful a e = false

settles-Answers : {D : Type 0} (p : Props D) → settles p ≡ true → Answers p
settles-Answers p h = ground (arith, h)

not-false : (b : Bool) → not b ≡ false → b ≡ true
not-false true h = refl
not-false false h = cc

helpful-Answers : {D : Type 0} (p : Props D) → not (settles p) ≡ false → Answers p
helpful-Answers p h = settles-Answers p (not-false (settles p) h)

-- By the tests: whether the code is one of those, and whether the body settles.
not_open : (c s : Bool) → c ≡ true → (c && not s) ≡ false → s ≡ true
not_open true s h k = not-false s k
not_open false s h k = cc

or_right : (a b : Bool) → b ≡ true → (a || b) ≡ true
or_right true b h = refl
or_right false b h = h

settle-ne : (p r : Promise) → r ≢ pending → settle p r ≢ pending
unfolding settle
settle-ne pending r h = h
settle-ne resolved r h = cc
settle-ne (rejected e) r h = cc

module _ {D : Type 0} (prepare : D → D) where
  update-IsSettled : (p : Props D) (q : QueryResult D) → Answers p → IsSettled (update prepare p q)
  unfolding update
  update-IsSettled p q answers =
      ground (
        arith,
        settle-ne q.promise resolved,
        λ (e : Option String). settle-ne q.promise (rejected e),
      )

  -- A result that reads as failed has rejected its promise, or had settled it before.
  update-failed :
      (p : Props D) (q : QueryResult D)
      → status_is_failed (get_status (update prepare p q)) ≡ true
      → IsSettled (update prepare p q)
  unfolding update get_status
  update-failed p q h =
      ground (
        arith,
        settle-ne q.promise resolved,
        λ (e : Option String). settle-ne q.promise (rejected e),
      )

  failure-IsSettled : (m : String) (q : QueryResult D) → IsSettled (update prepare (failure m) q)
  failure-IsSettled m q = update-IsSettled (failure m) q (inr (failed_job m, refl, refl))

  handle_error_response-IsSettled :
      (e : HttpError D) (q : QueryResult D)
      → leaves_open e ≡ false
      → IsSettled (handle_error_response prepare e q)
  unfolding handle_error_response
  handle_error_response-IsSettled e q h =
      let bad = is_some e.body.job in
      elim (Bool-cases (code_is 403 e.code)) [
        | inl c ↦
            let a : (code_is 403 e.code || (code_is 400 e.code && bad)) ≡ true = rw c refl in
            rw c (update-IsSettled e.body q (settles-Answers e.body (not_open _ _ a h)))
        | inr c ↦ rw c (elim (Bool-cases (code_is 400 e.code && bad)) [
          | inl d ↦
              let a = or_right (code_is 403 e.code) (code_is 400 e.code && bad) d in
              rw d (update-IsSettled e.body q (settles-Answers e.body (not_open _ _ a h)))
          | inr d ↦ rw d (elim (Bool-cases (code_is 404 e.code)) [
            | inl n ↦ rw n (failure-IsSettled _ q)
            | inr n ↦ rw n (failure-IsSettled _ q)
          ])
        ])
      ]

module _ {D : Type 0} (prepare : D → D) (authenticated : Bool) where
  -- Whether something unhelpful comes in a run.
  abbrev pub any_unhelpful : Execution D → List (Event D) → Bool
  any_unhelpful x [] = false
  any_unhelpful x (e ∷ es) =
      is_unhelpful x.activity e || any_unhelpful (step prepare authenticated x e) es

  abbrev IsAnswered : Execution D → Type 0
  IsAnswered x = x.activity ≡ idle → IsSettled x.result

  after_poll-IsAnswered :
      (n : ℕ) (p : Props D) (q : QueryResult D)
      → IsAnswered (after_poll prepare authenticated n (update prepare p q))
  unfolding after_poll load_result load_latest_cached_result
  after_poll-IsAnswered n p q h = ground (arith, update-failed prepare p q)

  posted-IsAnswered :
      (p : Props D) (q : QueryResult D)
      → not (is_some p.job || settles p) ≡ false
      → IsAnswered (posted prepare authenticated p q)
  unfolding posted refresh_status
  posted-IsAnswered p q c = elim (Bool-cases (is_some p.job)) [
    | inl e ↦ rw e (λ h. cc)
    | inr e ↦
        let k : not (settles p) ≡ false = rw e at c in
        rw e (λ h. update-IsSettled prepare p q (helpful-Answers p k))
  ]

  load_failed-IsAnswered :
      (n : ℕ) (q : QueryResult D) → IsAnswered (load_failed prepare authenticated n q)
  unfolding load_failed
  load_failed-IsAnswered n q h =
      ground (arith, update-IsSettled prepare lost q (inr (failed_job _, refl, refl)))

  go_on-IsAnswered :
      (a : Activity) (q : QueryResult D) (e : Event D)
      → is_unhelpful a e ≡ false
      → (a ≡ idle → IsSettled q)
      → IsAnswered (go_on prepare authenticated a q e)
  unfolding go_on loaded refresh_status load_result
  go_on-IsAnswered posting q (replies p) c k = posted-IsAnswered p q c
  go_on-IsAnswered posting q (fails e) c k = λ _. handle_error_response-IsSettled prepare e q c
  go_on-IsAnswered by_id q (replies p) c k =
      λ _. update-IsSettled prepare p (record q { is_loading_result = false }) (helpful-Answers p c)
  go_on-IsAnswered by_id q (fails e) c k =
      λ _. handle_error_response-IsSettled prepare e (record q { is_loading_result = false }) c
  go_on-IsAnswered cached q (replies p) c k =
      λ _. update-IsSettled prepare p q (helpful-Answers p c)
  go_on-IsAnswered cached q (fails e) c k = λ _. handle_error_response-IsSettled prepare e q c
  go_on-IsAnswered (polling n) q (replies p) c k = after_poll-IsAnswered n p q
  go_on-IsAnswered (polling n) q (fails e) c k =
      λ _. update-IsSettled prepare lost q (inr (failed_job _, refl, refl))
  go_on-IsAnswered (poll_wait n d) q timer c k = λ h. cc
  go_on-IsAnswered (loading n) q (replies p) c k =
      λ _. update-IsSettled prepare p q (helpful-Answers p c)
  go_on-IsAnswered (loading n) q (fails e) c k = load_failed-IsAnswered n q
  go_on-IsAnswered (load_wait n d) q timer c k = λ h. cc
  go_on-IsAnswered a q e c k = k

  run-IsAnswered :
      (x : Execution D) (es : List (Event D))
      → IsAnswered x
      → IsAnswered (run prepare authenticated x es) ⊎ (any_unhelpful x es ≡ true)
  run-IsAnswered x [] h = inl h
  run-IsAnswered x (e ∷ es) h = elim (Bool-cases (is_unhelpful x.activity e)) [
    | inl u ↦ inr (rw u refl)
    | inr u ↦ rw u (
        run-IsAnswered (step prepare authenticated x e) es
          (go_on-IsAnswered x.activity x.result e u h))
  ]

  -- An execution that was started and has nothing under way has settled its promise, after every
  -- sequence of replies, failures and timers, unless what came back at some time neither settled it nor
  -- made the execution go on: no job and no result for a query, no result where one was asked for, in
  -- each case without a job that has failed, or an error 403, or 400 with a job, with neither a result
  -- nor a job that has failed.
  pub promise-run :
      (x : Execution D) (es : List (Event D))
      → x.activity ≢ idle
      → (run prepare authenticated x es).activity ≡ idle
      → ((run prepare authenticated x es).result.promise ≢ pending) ⊎ (any_unhelpful x es ≡ true)
  promise-run x es started i = elim (run-IsAnswered x es (λ e. absurd (started e))) [
    | inl h ↦ inl (h i)
    | inr u ↦ inr u
  ]

  -- An error 403 whose body has neither a job nor a result ends a request for a stored result with
  -- nothing under way and the promise pending.
  forbidden_pending :
      (e : HttpError D)
      → e.code ≡ some 403
      → e.body ≡ record { job = none; query_result = none }
      → ((step prepare authenticated get_by_id (fails e)).activity ≡ idle)
        × ((step prepare authenticated get_by_id (fails e)).result.promise ≡ pending)
        × (get_status (step prepare authenticated get_by_id (fails e)).result ≡ none)
  unfolding go_on handle_error_response get_by_id update get_status
  forbidden_pending e code body = ground arith
