-- ===== src/Dispatch/Single.antt =====
-- `processSingleNfeEmailDispatchSaleWorkflow` of
-- src/temporal/workflows/nfe/process-single-nfe-email-dispatch-sale.workflow.ts. The activities are
-- parameters, functions on the state of the world outside; each call of one leaves an event.
pub mod Protocol
pub mod Follows
pub mod Reports
pub mod Own
pub mod Once
pub mod Sent
use automation_server_net.Base.{ℕ, ◌+◌, Bool, true, false, Option, none, some, List, [], ◌∷◌}
use automation_server_net.Js.Number.{JsNumber, whole}
use automation_server_net.Js.Text.{Text, codes}
use automation_server_net.Integration.{Result, ok, raise}
use automation_server_net.RuntimePolicy.{PolicyInput, Policy, normalize_automation_runtime_policy}
use automation_server_net.Nfe.Sale.{SaleStatus, failed_final}
use automation_server_net.Nfe.Rows.{ClaimResult, claimed, already_claimed_by_this_attempt, skipped}
use automation_server_net.Nfe.Activities.{
  ClaimActivityInput, FinalizeActivityInput, FinalizeActivityResult,
}
use automation_server_net.Temporal.{
  Thrown, error, Outcome, done, thrown, World, Run, pure, throw, call, ◌>>=◌, catching, resume,
  handled,
}
use automation_server_net.Dispatch.Processing.{ChildResult, FailureClass}
use automation_server_net.Dispatch.Mail.{
  Stage, erp, ixc, render, smtp, classify_unhandled_processing_failure, SmtpResult, Finalization,
  resolve_smtp_result_to_finalization, EmailContext, ContextResult, context_found,
  context_failed_final, RenderedEmail, SmtpRequest, LockResult, acquired, lock_pending,
  already_processed, WorkflowInfo, build_smtp_request,
}

-- `ProcessSingleNfeEmailDispatchSaleWorkflowInput`
pub record SingleInput : Type 0 where
  pub sale_id : ℕ
  pub erp_sale_id : ℕ
  pub current_attempt_count : ℕ
  pub max_send_attempts : ℕ
  pub runtime_policy : Option PolicyInput

-- what the workflow asks of the outside, and what it is answered
pub data Event : Type 0 where
  asked_lock : (attempt_number : ℕ) (scope : Text) → Outcome LockResult → Event
  asked_claim : ClaimActivityInput → Outcome ClaimResult → Event
  fetched_context : (erp_sale_id : ℕ) → Outcome ContextResult → Event
  fetched_pdf : (sale_id erp_sale_id attempt_count : ℕ) → Outcome Text → Event
  rendered : EmailContext → Outcome RenderedEmail → Event
  mailed : SmtpRequest → Outcome SmtpResult → Event
  asked_finalization : FinalizeActivityInput → Outcome FinalizeActivityResult → Event
  asked_lock_completion : (lease_token : Text) → SaleStatus → Outcome (Unit {0}) → Event
  asked_lock_cancellation : (lease_token : Text) → Outcome (Unit {0}) → Event

-- the activities that the workflow is a proxy of
pub record Activities (S : Type 0) : Type 0 where
  pub acquire_lock : (attempt_number : ℕ) (scope : Text) → S → Outcome LockResult × S
  pub claim : ClaimActivityInput → S → Outcome ClaimResult × S
  pub fetch_context : (erp_sale_id : ℕ) → S → Outcome ContextResult × S
  pub fetch_pdf : (sale_id erp_sale_id attempt_count : ℕ) → S → Outcome Text × S
  pub render_email : EmailContext → S → Outcome RenderedEmail × S
  pub send : SmtpRequest → S → Outcome SmtpResult × S
  pub finalize : FinalizeActivityInput → S → Outcome FinalizeActivityResult × S
  pub complete_lock : (lease_token : Text) → SaleStatus → S → Outcome (Unit {0}) × S
  pub cancel_lock : (lease_token : Text) → S → Outcome (Unit {0}) × S

pub data Disposition : Type 0 where
  cancel complete keep_pending : Disposition

-- how the outer `try` ends, with the two variables that its `finally` reads
pub record Ending : Type 0 where
  pub returned : Outcome ChildResult
  pub lock_disposition : Disposition
  pub final_result : Option ChildResult

-- `buildSkippedResult`
abbrev pub build_skipped_result : SingleInput → ChildResult
build_skipped_result input = record {
  sale_id = input.sale_id;
  erp_sale_id = input.erp_sale_id;
  status = none;
  attempt_count = none;
  error_message = none;
}

-- `mapFinalizationResultToWorkflowResult`
abbrev pub map_finalization_result : FinalizeActivityResult → (erp_sale_id : ℕ) → ChildResult
map_finalization_result r erp_sale_id = record {
  sale_id = r.sale_id;
  erp_sale_id = erp_sale_id;
  status = some r.status;
  attempt_count = some r.attempt_count;
  error_message = r.error_message;
}

-- the message of a validation error is left out
abbrev pub to_failure : {A : Type 0} → Result A → Outcome A
to_failure (ok a) = done a
to_failure (raise e) = thrown (error [])

module _ {S : Type 0} (act : Activities S) (info : WorkflowInfo) (input : SingleInput)
    (policy : Policy) (attempt_count : ℕ) where
  abbrev pub finalization_input : Finalization → FinalizeActivityInput
  finalization_input f = record {
    sale_id = whole input.sale_id;
    attempt_started_at = info.started_at;
    attempt_count = whole attempt_count;
    max_send_attempts = whole input.max_send_attempts;
    status = f.status;
    error_message = f.error_message;
    runtime_scope = some policy.idempotency_scope;
  }

  -- `finalizeAttempt`
  unfoldable pub finalize_attempt : Finalization → Run S Event FinalizeActivityResult
  finalize_attempt f =
      call (asked_finalization (finalization_input f)) (act.finalize (finalization_input f))

  abbrev pub settled : FinalizeActivityResult → Ending
  settled r = record {
    returned = done (map_finalization_result r input.erp_sale_id);
    lock_disposition = complete;
    final_result = some (map_finalization_result r input.erp_sale_id);
  }

  abbrev pub unsettled : Thrown → Ending
  unsettled e = record { returned = thrown e; lock_disposition = keep_pending; final_result = none }

  abbrev pub conclude :
      Outcome FinalizeActivityResult × World S Event → Outcome Ending × World S Event
  conclude (done r, w) = (done (settled r), w)
  conclude (thrown e, w) = (done (unsettled e), w)

  -- the inner `catch`, with the stage that was reached
  unfoldable pub fail_attempt : Stage → Thrown → Run S Event Ending
  fail_attempt stage e w =
      let failure = classify_unhandled_processing_failure stage e in
      conclude (
        finalize_attempt
          (record { status = failure.final_status; error_message = some failure.message }) w)

  abbrev pub continue_stage :
      {A : Type 0}
      → Stage
      → Outcome A × World S Event
      → (A → Run S Event Ending)
      → Outcome Ending × World S Event
  continue_stage stage (done a, w) k = k a w
  continue_stage stage (thrown e, w) k = fail_attempt stage e w

  -- a call of the inner `try` at a stage, and what follows it
  abbrev pub at_stage :
      {A : Type 0} → Stage → Run S Event A → (A → Run S Event Ending) → Run S Event Ending
  at_stage stage m k w = continue_stage stage (m w) k

  unfoldable pub finish_attempt : Stage → Finalization → Run S Event Ending
  finish_attempt stage f = at_stage stage (finalize_attempt f) (λ r. pure (settled r))

  unfoldable pub send_mail : EmailContext → (pdf_path : Text) → RenderedEmail → Run S Event Ending
  send_mail c pdf_path mail =
      let request =
        build_smtp_request info.workflow_id info policy.idempotency_scope input.sale_id
          attempt_count c mail pdf_path in
      at_stage smtp (call (mailed request) (act.send request))
        (λ r. finish_attempt smtp (resolve_smtp_result_to_finalization r))

  unfoldable pub with_context : ContextResult → Run S Event Ending
  with_context (context_failed_final message) =
      finish_attempt erp (record { status = failed_final; error_message = some message })
  with_context (context_found c) =
      at_stage ixc
        (call (fetched_pdf input.sale_id input.erp_sale_id attempt_count)
          (act.fetch_pdf input.sale_id input.erp_sale_id attempt_count))
        (λ pdf_path.
          at_stage render (call (rendered c) (act.render_email c))
            (λ mail. send_mail c pdf_path mail))

  -- the inner `try` and its `catch`
  unfoldable pub run_attempt : Run S Event Ending
  run_attempt =
      at_stage erp (call (fetched_context input.erp_sale_id) (act.fetch_context input.erp_sale_id))
        with_context

module _ {S : Type 0} (act : Activities S) (info : WorkflowInfo) (input : SingleInput)
    (policy : Policy) where
  abbrev pub claim_input : ClaimActivityInput
  claim_input = record {
    sale_id = whole input.sale_id;
    attempt_started_at = info.started_at;
    max_send_attempts = whole input.max_send_attempts;
    runtime_scope = some policy.idempotency_scope;
  }

  abbrev pub unclaimed : Outcome ChildResult → Ending
  unclaimed o = record { returned = o; lock_disposition = cancel; final_result = none }

  unfoldable pub with_claim : ClaimResult → Run S Event Ending
  with_claim skipped = pure (unclaimed (done (build_skipped_result input)))
  with_claim (claimed n) = run_attempt act info input policy n
  with_claim (already_claimed_by_this_attempt n) = run_attempt act info input policy n

  abbrev pub claim_answered : Outcome ClaimResult × World S Event → Outcome Ending × World S Event
  claim_answered (done r, w) = with_claim r w
  claim_answered (thrown e, w) = (done (unclaimed (thrown e)), w)

  -- the outer `try`
  unfoldable pub run_claim : Run S Event Ending
  run_claim w = claim_answered (call (asked_claim claim_input) (act.claim claim_input) w)

  abbrev pub return_after : Ending → Run S Event (Unit {0}) → Run S Event ChildResult
  return_after ending m w = (ending.returned, (m w).1)

  abbrev complete_with : (lease_token : Text) → Option SaleStatus → Run S Event (Unit {0})
  complete_with lease none = pure tt
  complete_with lease (some status) =
      call (asked_lock_completion lease status) (act.complete_lock lease status)

  abbrev pub release :
      (lease_token : Text) → Disposition → Option ChildResult → Run S Event (Unit {0})
  release lease cancel r = call (asked_lock_cancellation lease) (act.cancel_lock lease)
  release lease complete none = pure tt
  release lease complete (some r) = complete_with lease r.status
  release lease keep_pending r = pure tt

  -- the `finally`, and the end of the workflow: what the two calls throw is only logged
  unfoldable pub finish : (lease_token : Text) → Ending → Run S Event ChildResult
  finish lease ending =
      return_after ending (release lease ending.lock_disposition ending.final_result)

  unfoldable pub with_lock : LockResult → Run S Event ChildResult
  with_lock lock_pending = pure (build_skipped_result input)
  with_lock (already_processed status) = pure (build_skipped_result input)
  with_lock (acquired lease) = run_claim >>= finish lease

unfoldable pub process_single_sale :
    {S : Type 0} → Activities S → WorkflowInfo → SingleInput → Run S Event ChildResult
process_single_sale act info input w =
    resume (to_failure (normalize_automation_runtime_policy input.runtime_policy), w)
      (λ policy.
        call (asked_lock (input.current_attempt_count + 1) policy.idempotency_scope)
          (act.acquire_lock (input.current_attempt_count + 1) policy.idempotency_scope)
        >>= with_lock act info input policy)
