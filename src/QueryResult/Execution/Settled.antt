-- ===== src/QueryResult/Execution/Settled.antt =====
-- The promise of a query result: settled once, and settled when nothing is under way any more.
use mxzz_bi.Prelude.{ℕ, String, ◌≡◌, refl, sym, ◌∙◌, ◌≢◌, Bool, false, Option, List, [], ◌∷◌, arith}
use mxzz_bi.QueryResult.Job.{
  Props, Promise, pending, resolved, rejected, settle, QueryResult, HttpError, update,
  handle_error_response,
}
use mxzz_bi.QueryResult.Execution.{
  Activity, posting, by_id, cached, polling, poll_wait, loading, load_wait, Execution, Event,
  replies, fails, timer, load_result, load_latest_cached_result, refresh_status, lost, after_poll,
  loaded, load_failed, posted, go_on, step, run,
}

settle_settled : (p r : Promise) → p ≢ pending → settle p r ≡ p
unfolding settle
settle_settled pending r h = absurd (h refl)
settle_settled resolved r h = refl
settle_settled (rejected e) r h = refl

-- Settled, and what leaves a settled promise alone.
abbrev pub IsSettled : {D : Type 0} → QueryResult D → Type 0
IsSettled q = q.promise ≢ pending

module _ {D : Type 0} (prepare : D → D) where
  update-promise :
      (p : Props D) (q : QueryResult D) → IsSettled q → (update prepare p q).promise ≡ q.promise
  unfolding update
  update-promise p q h = ground (
    arith,
    settle_settled q.promise resolved h,
    λ (e : Option String). settle_settled q.promise (rejected e) h,
  )

  handle_error_response-promise :
      (e : HttpError D) (q : QueryResult D)
      → IsSettled q
      → (handle_error_response prepare e q).promise ≡ q.promise
  unfolding handle_error_response
  handle_error_response-promise e q h = grind (arith, update-promise)

  module _ (authenticated : Bool) where
    after_poll-promise :
        (n : ℕ) (q : QueryResult D)
        → (after_poll prepare authenticated n q).result.promise ≡ q.promise
    unfolding after_poll load_result load_latest_cached_result
    after_poll-promise n q = ground arith

    go_on-promise :
        (a : Activity) (q : QueryResult D) (e : Event D)
        → IsSettled q
        → (go_on prepare authenticated a q e).result.promise ≡ q.promise
    unfolding go_on posted loaded load_failed refresh_status load_result
    go_on-promise posting q (replies p) h = ground (arith, update-promise p q h)
    go_on-promise posting q (fails e) h = handle_error_response-promise e q h
    go_on-promise by_id q (replies p) h =
        update-promise p (record q { is_loading_result = false }) h
    go_on-promise by_id q (fails e) h =
        handle_error_response-promise e (record q { is_loading_result = false }) h
    go_on-promise cached q (replies p) h = update-promise p q h
    go_on-promise cached q (fails e) h = handle_error_response-promise e q h
    go_on-promise (polling n) q (replies p) h =
        after_poll-promise n (update prepare p q) ∙ update-promise p q h
    go_on-promise (polling n) q (fails e) h = update-promise lost q h
    go_on-promise (poll_wait n d) q timer h = refl
    go_on-promise (loading n) q (replies p) h = update-promise p q h
    go_on-promise (loading n) q (fails e) h = ground (arith, update-promise lost q h)
    go_on-promise (load_wait n d) q timer h = refl
    go_on-promise a q e h = refl

    -- Once the promise is settled, no reply, failure or timer changes what it was settled with.
    run-promise :
        (x : Execution D) (es : List (Event D))
        → IsSettled x.result
        → (run prepare authenticated x es).result.promise ≡ x.result.promise
    run-promise x [] h = refl
    run-promise x (e ∷ es) h =
        let kept = go_on-promise x.activity x.result e h in
        run-promise (step prepare authenticated x e) es (λ p. h (sym kept ∙ p)) ∙ kept
