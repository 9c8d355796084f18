-- ===== src/Dispatch/Single/Own.antt =====
-- A run of the workflow of one sale returns a result for the sale that it was given.
use automation_server_net.Base.{ℕ, ◌+◌, ◌≡◌, refl, [], ◌∷◌, arith}
use automation_server_net.Js.Number.{magnitude}
use automation_server_net.Js.Text.{Text}
use automation_server_net.RuntimePolicy.{Policy, normalize_automation_runtime_policy}
use automation_server_net.Nfe.Rows.{ClaimResult, claimed, already_claimed_by_this_attempt, skipped}
use automation_server_net.Nfe.Activities.{
  ClaimActivityInput, FinalizeActivityInput, FinalizeActivityResult,
}
use automation_server_net.Temporal.{
  Thrown, Outcome, done, thrown, World, Run, pure, call, answered, call_rule, resume, ◌>>=◌,
}
use automation_server_net.Dispatch.Processing.{ChildResult}
use automation_server_net.Dispatch.Mail.{
  Stage, erp, ixc, render, smtp, Finalization, resolve_smtp_result_to_finalization, EmailContext,
  ContextResult, context_found, context_failed_final, RenderedEmail, LockResult, acquired,
  lock_pending, already_processed, WorkflowInfo,
}
use automation_server_net.Dispatch.Single.{
  SingleInput, Event, Activities, Ending, asked_lock, asked_claim, asked_finalization,
  finalization_input, finalize_attempt, conclude, settled, fail_attempt, continue_stage,
  finish_attempt, send_mail, with_context, run_attempt, claim_input, with_claim, claim_answered,
  run_claim, finish, with_lock, to_failure, process_single_sale,
}

module _ {S : Type 0} (act : Activities S) (info : WorkflowInfo) (input : SingleInput)
    (policy : Policy)
    (faithful : (f : FinalizeActivityInput) (s : S) (r : FinalizeActivityResult)
      → (act.finalize f s).0 ≡ done r
      → r.sale_id ≡ magnitude f.sale_id) where
  abbrev OwnFinal : Outcome FinalizeActivityResult × World S Event → Type 0
  OwnFinal (done r, w) = r.sale_id ≡ input.sale_id
  OwnFinal (thrown e, w) = Unit {0}

  abbrev OwnResult : Outcome ChildResult → Type 0
  OwnResult (done r) = r.sale_id ≡ input.sale_id
  OwnResult (thrown e) = Unit {0}

  abbrev OwnEnding : Outcome Ending × World S Event → Type 0
  OwnEnding (done e, w) = OwnResult e.returned
  OwnEnding (thrown e, w) = Unit {0}

  abbrev OwnRun : Outcome ChildResult × World S Event → Type 0
  OwnRun r = OwnResult r.0

  module _ (n : ℕ) where
    finalize_attempt-OwnFinal :
        (f : Finalization) (w : World S Event)
        → OwnFinal (finalize_attempt act info input policy n f w)
    unfolding finalize_attempt call
    finalize_attempt-OwnFinal f w = go (act.finalize request w.state) refl
      where
        request : FinalizeActivityInput
        request = finalization_input act info input policy n f

        go :
            (r : Outcome FinalizeActivityResult × S)
            → act.finalize request w.state ≡ r
            → OwnFinal (answered (asked_finalization request) w.log r)
        go (done r, s) e = faithful request w.state r (rw e refl)
        go (thrown t, s) e = tt

    fail_attempt-OwnEnding :
        (stage : Stage) (e : Thrown) (w : World S Event)
        → OwnEnding (fail_attempt act info input policy n stage e w)
    unfolding fail_attempt
    fail_attempt-OwnEnding stage e w = go _ (finalize_attempt-OwnFinal _ w)
      where
        go :
            (r : Outcome FinalizeActivityResult × World S Event)
            → OwnFinal r
            → OwnEnding (conclude act info input policy n r)
        go (done r, w') h = h
        go (thrown t, w') h = tt

    finish_attempt-OwnEnding :
        (stage : Stage) (f : Finalization) (w : World S Event)
        → OwnEnding (finish_attempt act info input policy n stage f w)
    unfolding finish_attempt
    finish_attempt-OwnEnding stage f w =
        go (finalize_attempt act info input policy n f w) (finalize_attempt-OwnFinal f w)
      where
        go :
            (r : Outcome FinalizeActivityResult × World S Event)
            → OwnFinal r
            → OwnEnding (
                continue_stage act info input policy n stage r
                  (λ q. pure (settled act info input policy n q)))
        go (done r, w') h = h
        go (thrown t, w') h = fail_attempt-OwnEnding stage t w'

    -- a call at a stage, where what follows an answer ends for the sale
    stage-OwnEnding :
        {A : Type 0} (stage : Stage) (event : Outcome A → Event) (f : S → Outcome A × S)
        (k : A → Run S Event Ending) (w : World S Event)
        → ((a : A) (w' : World S Event) → OwnEnding (k a w'))
        → OwnEnding (continue_stage act info input policy n stage (call event f w) k)
    stage-OwnEnding {A} stage event f k w next =
        call_rule OwnEnding event f (λ r. continue_stage act info input policy n stage r k) w ended
      where
        ended :
            (o : Outcome A) (s : S)
            → OwnEnding (
                continue_stage act info input policy n stage
                  (o, record { state = s; log = event o ∷ w.log })
                  k)
        ended (done a) s = next a _
        ended (thrown t) s = fail_attempt-OwnEnding stage t _

    send_mail-OwnEnding :
        (c : EmailContext) (pdf_path : Text) (mail : RenderedEmail) (w : World S Event)
        → OwnEnding (send_mail act info input policy n c pdf_path mail w)
    unfolding send_mail
    send_mail-OwnEnding c pdf_path mail w =
        stage-OwnEnding smtp _ _ _ w
          (λ r. finish_attempt-OwnEnding smtp (resolve_smtp_result_to_finalization r))

    with_context-OwnEnding :
        (r : ContextResult) (w : World S Event)
        → OwnEnding (with_context act info input policy n r w)
    unfolding with_context
    with_context-OwnEnding (context_failed_final message) w = finish_attempt-OwnEnding erp _ w
    with_context-OwnEnding (context_found c) w = stage-OwnEnding ixc _ _ _ w (λ pdf_path w1.
        stage-OwnEnding render _ _ _ w1 (λ mail. send_mail-OwnEnding c pdf_path mail))

    run_attempt-OwnEnding : (w : World S Event) → OwnEnding (run_attempt act info input policy n w)
    unfolding run_attempt
    run_attempt-OwnEnding w = stage-OwnEnding erp _ _ _ w with_context-OwnEnding

  with_claim-OwnEnding :
      (r : ClaimResult) (w : World S Event) → OwnEnding (with_claim act info input policy r w)
  unfolding with_claim
  with_claim-OwnEnding skipped w = refl
  with_claim-OwnEnding (claimed n) w = run_attempt-OwnEnding n w
  with_claim-OwnEnding (already_claimed_by_this_attempt n) w = run_attempt-OwnEnding n w

  run_claim-OwnEnding : (w : World S Event) → OwnEnding (run_claim act info input policy w)
  unfolding run_claim
  run_claim-OwnEnding w =
      call_rule OwnEnding (asked_claim request) (act.claim request)
        (claim_answered act info input policy) w ended
    where
      request : ClaimActivityInput
      request = claim_input act info input policy

      ended :
          (o : Outcome ClaimResult) (s : S)
          → OwnEnding (
              claim_answered act info input policy
                (o, record { state = s; log = asked_claim request o ∷ w.log }))
      ended (done r) s = with_claim-OwnEnding r _
      ended (thrown t) s = tt

  with_lock-OwnRun :
      (r : LockResult) (w : World S Event) → OwnRun (with_lock act info input policy r w)
  unfolding with_lock finish
  with_lock-OwnRun lock_pending w = refl
  with_lock-OwnRun (already_processed status) w = refl
  with_lock-OwnRun (acquired lease) w =
      go (run_claim act info input policy w) (run_claim-OwnEnding w)
    where
      go :
          (r : Outcome Ending × World S Event)
          → OwnEnding r
          → OwnRun (resume r (finish act info input policy lease))
      go (done e, w') h = h
      go (thrown t, w') h = tt

  locked-OwnRun :
      (o : Outcome LockResult) (w : World S Event)
      → OwnRun (resume (o, w) (with_lock act info input policy))
  locked-OwnRun (done r) w = with_lock-OwnRun r w
  locked-OwnRun (thrown t) w = tt

-- Where the finalization activity answers for the sale that it was asked to finalize, a run of the
-- workflow that returns a result returns it for the sale of its input.
pub process_single_sale_own :
    {S : Type 0} (act : Activities S) (info : WorkflowInfo) (input : SingleInput) (s : S)
    (r : ChildResult)
    → ((f : FinalizeActivityInput) (s : S) (r : FinalizeActivityResult)
        → (act.finalize f s).0 ≡ done r
        → r.sale_id ≡ magnitude f.sale_id)
    → (process_single_sale act info input (record { state = s; log = [] })).0 ≡ done r
    → r.sale_id ≡ input.sale_id
unfolding process_single_sale
process_single_sale_own {S} act info input s r faithful =
    given (to_failure (normalize_automation_runtime_policy input.runtime_policy))
  where
    own :
        (policy : Policy) (o : Outcome ChildResult)
        → OwnResult act info input policy faithful o
        → o ≡ done r
        → r.sale_id ≡ input.sale_id
    own policy (done q) h e = let same : q.sale_id ≡ r.sale_id = ground (arith, e) in cc (same, h)
    own policy (thrown t) h e = cc (e)

    run : Policy → Run S Event ChildResult
    run policy =
        call (asked_lock (input.current_attempt_count + 1) policy.idempotency_scope)
          (act.acquire_lock (input.current_attempt_count + 1) policy.idempotency_scope)
        >>= with_lock act info input policy

    given :
        (o : Outcome Policy)
        → (resume (o, record { state = s; log = [] }) run).0 ≡ done r
        → r.sale_id ≡ input.sale_id
    given (thrown t) e = cc (e)
    given (done policy) e =
        own policy _
          (call_rule (OwnRun act info input policy faithful)
            (asked_lock (input.current_attempt_count + 1) policy.idempotency_scope)
            (act.acquire_lock (input.current_attempt_count + 1) policy.idempotency_scope)
            (λ q. resume q (with_lock act info input policy)) (record { state = s; log = [] })
            (λ o s'. locked-OwnRun act info input policy faithful o _))
          e
