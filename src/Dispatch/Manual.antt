-- ===== src/Dispatch/Manual.antt =====
-- `processManualNfeEmailDispatchSaleWorkflow` of
-- src/temporal/workflows/nfe/process-manual-nfe-email-dispatch-sale.workflow.ts. The activities are
-- parameters; the messages of the errors that the workflow throws itself are left out.
pub mod Promises
pub mod Runs
use automation_server_net.Base.{
  ℕ, Bool, true, false, not, ◌&&◌, ◌||◌, Option, none, some, List, [], ◌∷◌, if◌then◌else◌, ◌==◌,
  or_else,
}
use automation_server_net.Js.Text.{Text, codes, text_eq, trim}
use automation_server_net.RuntimePolicy.{PolicyInput, Policy, normalize_automation_runtime_policy}
use automation_server_net.Nfe.Sale.{
  SaleStatus, pending, in_progress, sent, failed_transient, failed_final, delivery_unknown,
  is_in_progress,
}
use automation_server_net.Js.Number.{whole}
use automation_server_net.Nfe.Activities.{FinalizeActivityResult}
use automation_server_net.Nfe.ManualActivities.{ManualFinalizeInput}
use automation_server_net.Temporal.{
  ApplicationInfo, Thrown, error, non_retryable_failure, as_application, Outcome, done, thrown,
  World, Run, pure, throw, call, resume, ◌>>=◌,
}
use automation_server_net.Dispatch.Processing.{ChildResult, FailureClass}
use automation_server_net.Dispatch.Mail.{
  Stage, erp, ixc, render, smtp, classify_unhandled_processing_failure, read_workflow_error_message,
  SmtpResult, Finalization, resolve_smtp_result_to_finalization, EmailContext, ContextResult,
  context_found, context_failed_final, RenderedEmail, SmtpRequest, LockResult, acquired,
  lock_pending, already_processed, WorkflowInfo, build_smtp_request,
}
use automation_server_net.Dispatch.Single.{map_finalization_result, to_failure}

-- `ManualProcessNfeEmailDispatchSaleWorkflowInput`
pub record ManualInput : Type 0 where
  pub request_id : Text
  pub sale_id : ℕ
  pub erp_sale_id : ℕ
  pub attempt_count : ℕ
  pub attempt_started_at : Text
  pub runtime_policy : Option PolicyInput

-- `NfeEmailDispatchSaleManualProcessingSnapshot`, the fields that the workflow reads
pub record ManualSnapshot : Type 0 where
  pub sale_id : ℕ
  pub erp_sale_id : ℕ
  pub status : SaleStatus
  pub attempt_count : ℕ
  pub last_attempt_at : Option Text
  pub last_error_message : Option Text

-- the attempt that the activities of the lock are given
pub record LockedAttempt : Type 0 where
  pub workflow_id : Text
  pub sale_id : ℕ
  pub attempt_number : ℕ
  pub scope : Text

-- what the workflow asks of the outside, and what it is answered
pub data ManualEvent : Type 0 where
  loaded_sale : (sale_id : ℕ) (scope : Text) → Outcome (Option ManualSnapshot) → ManualEvent
  asked_lock : (request_id : Text) → LockedAttempt → Outcome LockResult → ManualEvent
  fetched_context : (erp_sale_id : ℕ) → Outcome ContextResult → ManualEvent
  fetched_pdf : (sale_id erp_sale_id attempt_count : ℕ) → Outcome Text → ManualEvent
  rendered : EmailContext → Outcome RenderedEmail → ManualEvent
  mailed : SmtpRequest → Outcome SmtpResult → ManualEvent
  asked_finalization : ManualFinalizeInput → Outcome FinalizeActivityResult → ManualEvent
  asked_recovery : ManualFinalizeInput → Outcome FinalizeActivityResult → ManualEvent
  asked_lock_completion :
      LockedAttempt → (lease_token : Text) → SaleStatus → Outcome (Unit {0}) → ManualEvent

-- the activities that the workflow is a proxy of
pub record ManualActivities (S : Type 0) : Type 0 where
  pub load_sale : (sale_id : ℕ) (scope : Text) → S → Outcome (Option ManualSnapshot) × S
  pub acquire_lock : (request_id : Text) → LockedAttempt → S → Outcome LockResult × S
  pub fetch_context : (erp_sale_id : ℕ) → S → Outcome ContextResult × S
  pub fetch_pdf : (sale_id erp_sale_id attempt_count : ℕ) → S → Outcome Text × S
  pub render_email : EmailContext → S → Outcome RenderedEmail × S
  pub send : SmtpRequest → S → Outcome SmtpResult × S
  pub finalize : ManualFinalizeInput → S → Outcome FinalizeActivityResult × S
  pub recover : ManualFinalizeInput → S → Outcome FinalizeActivityResult × S
  pub complete_lock : LockedAttempt → (lease_token : Text) → SaleStatus → S → Outcome (Unit {0}) × S

abbrev not_found_type : Text
not_found_type = codes "NFE_MANUAL_SALE_NOT_FOUND"

abbrev already_running_type : Text
already_running_type = codes "NFE_MANUAL_ALREADY_RUNNING"

-- `isApplicationFailureType`
abbrev type_is : Text → Option Text → Bool
type_is expected none = false
type_is expected (some t) = text_eq t expected

abbrev info_is : Text → Option ApplicationInfo → Bool
info_is expected none = false
info_is expected (some i) = type_is expected i.type

-- `shouldRethrowWithoutRecovery`
unfoldable pub should_rethrow_without_recovery : Thrown → Bool
should_rethrow_without_recovery e =
    info_is not_found_type (as_application e) || info_is already_running_type (as_application e)

-- `buildUnexpectedManualRecoveryTarget`
abbrev pub unexpected_recovery_target : Thrown → Finalization
unexpected_recovery_target e = record {
  status = failed_transient;
  error_message = some (read_workflow_error_message e);
}

abbrev pub was_at : Option Text → Text → Bool
was_at none s = false
was_at (some t) s = text_eq t s

abbrev final_snapshot : SaleStatus → ChildResult → Option ChildResult
final_snapshot pending r = none
final_snapshot in_progress r = none
final_snapshot sent r = some r
final_snapshot failed_transient r = some r
final_snapshot failed_final r = some r
final_snapshot delivery_unknown r = some r

module _ (input : ManualInput) where
  -- `mapLoadedSaleToIdempotentWorkflowResult`
  unfoldable pub idempotent_result : ManualSnapshot → Option ChildResult
  idempotent_result sale =
      if not (sale.attempt_count == input.attempt_count)
        || not (was_at sale.last_attempt_at (trim input.attempt_started_at))
      then none
      else final_snapshot sale.status (record {
        sale_id = sale.sale_id;
        erp_sale_id = input.erp_sale_id;
        status = some sale.status;
        attempt_count = some sale.attempt_count;
        error_message = sale.last_error_message;
      })

  -- `validateManualWorkflowInput`, negated: one of its four conditions throws
  unfoldable pub is_invalid_input : ManualSnapshot → Bool
  is_invalid_input sale =
      not (sale.erp_sale_id == input.erp_sale_id)
      || (not (is_in_progress sale.status)
          || (not (sale.attempt_count == input.attempt_count)
              || not (was_at sale.last_attempt_at (trim input.attempt_started_at))))

-- how the `try` ends: with an earlier result, with its own, or with an error; the lease and the target of
-- the finalization are what the variables of the workflow hold by then
pub data TryEnd : Type 0 where
  earlier : ChildResult → TryEnd
  finalized : (lease_token : Text) → FinalizeActivityResult → TryEnd
  broken : Thrown → (lease_token : Option Text) → (target : Option Finalization) → TryEnd

-- the arguments of the activities
abbrev pub locked_attempt : WorkflowInfo → ManualInput → Policy → LockedAttempt
locked_attempt info input policy = record {
  workflow_id = info.workflow_id;
  sale_id = input.sale_id;
  attempt_number = input.attempt_count;
  scope = policy.idempotency_scope;
}

abbrev pub manual_finalization : ManualInput → Policy → Finalization → ManualFinalizeInput
manual_finalization input policy f = record {
  sale_id = whole input.sale_id;
  attempt_started_at = input.attempt_started_at;
  attempt_count = whole input.attempt_count;
  status = f.status;
  error_message = f.error_message;
  runtime_scope = some policy.idempotency_scope;
}

module _ {S : Type 0} (act : ManualActivities S) (info : WorkflowInfo) (input : ManualInput)
    (policy : Policy) where
  -- `executeManualSaleProcessing`, which catches every failure
  abbrev pub classified : Stage → Thrown → Finalization
  classified stage e =
      let failure = classify_unhandled_processing_failure stage e in
      record { status = failure.final_status; error_message = some failure.message }

  abbrev pub continue_stage :
      {A : Type 0}
      → Stage
      → Outcome A × World S ManualEvent
      → (A → World S ManualEvent → Finalization × World S ManualEvent)
      → Finalization × World S ManualEvent
  continue_stage stage (done a, w) k = k a w
  continue_stage stage (thrown e, w) k = (classified stage e, w)

  unfoldable pub send_mail :
      EmailContext
      → (pdf_path : Text) → RenderedEmail
      → World S ManualEvent
      → Finalization × World S ManualEvent
  send_mail c pdf_path mail w =
      let request =
        build_smtp_request input.request_id info policy.idempotency_scope input.sale_id
          input.attempt_count c mail pdf_path in
      continue_stage smtp (call (mailed request) (act.send request) w)
        (λ r w'. (resolve_smtp_result_to_finalization r, w'))

  unfoldable pub with_context :
      ContextResult → World S ManualEvent → Finalization × World S ManualEvent
  with_context (context_failed_final message) w =
      (record { status = failed_final; error_message = some message }, w)
  with_context (context_found c) w =
      continue_stage ixc
        (call (fetched_pdf input.sale_id input.erp_sale_id input.attempt_count)
          (act.fetch_pdf input.sale_id input.erp_sale_id input.attempt_count) w)
        (λ pdf_path w'.
          continue_stage render (call (rendered c) (act.render_email c) w')
            (λ mail. send_mail c pdf_path mail))

  unfoldable pub execute : World S ManualEvent → Finalization × World S ManualEvent
  execute w =
      continue_stage erp
        (call (fetched_context input.erp_sale_id) (act.fetch_context input.erp_sale_id) w)
        with_context

  abbrev pub finalize_answered :
      (lease : Text)
      → Finalization
      → Outcome FinalizeActivityResult × World S ManualEvent
      → TryEnd × World S ManualEvent
  finalize_answered lease target (done r, w) = (finalized lease r, w)
  finalize_answered lease target (thrown e, w) = (broken e (some lease) (some target), w)

  abbrev pub finalize_target :
      (lease : Text) → Finalization × World S ManualEvent → TryEnd × World S ManualEvent
  finalize_target lease (target, w) = finalize_answered lease target (
      call (asked_finalization (manual_finalization input policy target))
        (act.finalize (manual_finalization input policy target)) w)

  abbrev pub reloaded_result : Option ChildResult → TryEnd
  reloaded_result (some r) = earlier r
  reloaded_result none = broken (error []) none none

  -- `loadManualSaleOrFail`, with what follows it
  abbrev pub load_answered :
      (ManualSnapshot → World S ManualEvent → TryEnd × World S ManualEvent)
      → Outcome (Option ManualSnapshot) × World S ManualEvent
      → TryEnd × World S ManualEvent
  load_answered k (done (some sale), w) = k sale w
  load_answered k (done none, w) = (broken (non_retryable_failure [] not_found_type) none none, w)
  load_answered k (thrown e, w) = (broken e none none, w)

  -- the `switch` on the lock, and the rest of the `try`
  abbrev pub lock_answered : Outcome LockResult × World S ManualEvent → TryEnd × World S ManualEvent
  lock_answered (done (acquired lease), w) = finalize_target lease (execute w)
  lock_answered (done lock_pending, w) =
      (broken (non_retryable_failure [] already_running_type) none none, w)
  lock_answered (done (already_processed s), w) =
      load_answered (λ sale w'. (reloaded_result (idempotent_result input sale), w'))
        (call (loaded_sale input.sale_id policy.idempotency_scope)
          (act.load_sale input.sale_id policy.idempotency_scope) w)
  lock_answered (thrown e, w) = (broken e none none, w)

  abbrev pub with_earlier :
      Option ChildResult → ManualSnapshot → World S ManualEvent → TryEnd × World S ManualEvent
  with_earlier (some r) sale w = (earlier r, w)
  with_earlier none sale w =
      if is_invalid_input input sale
      then (broken (non_retryable_failure [] (codes "NFE_MANUAL_SALE_INVALID_INPUT")) none none, w)
      else lock_answered (
          call (asked_lock input.request_id (locked_attempt info input policy))
            (act.acquire_lock input.request_id (locked_attempt info input policy)) w)

  -- the `try`
  unfoldable pub run_try : World S ManualEvent → TryEnd × World S ManualEvent
  run_try w =
      load_answered (λ sale. with_earlier (idempotent_result input sale) sale)
        (call (loaded_sale input.sale_id policy.idempotency_scope)
          (act.load_sale input.sale_id policy.idempotency_scope) w)

  -- the `finally`: what the call throws is only logged
  unfoldable pub complete_and_return :
      Option Text
      → FinalizeActivityResult
      → World S ManualEvent
      → Outcome ChildResult × World S ManualEvent
  complete_and_return none r w = (done (map_finalization_result r input.erp_sale_id), w)
  complete_and_return (some lease) r w = (
    done (map_finalization_result r input.erp_sale_id),
    (call (asked_lock_completion (locked_attempt info input policy) lease r.status)
        (act.complete_lock (locked_attempt info input policy) lease r.status) w).1,
  )

  abbrev pub recovery_answered :
      Option Text
      → Outcome FinalizeActivityResult × World S ManualEvent
      → Outcome ChildResult × World S ManualEvent
  recovery_answered lease (done r, w) = complete_and_return lease r w
  recovery_answered lease (thrown e, w) = (thrown e, w)

  -- the `catch` and the `finally`
  unfoldable pub recover_broken :
      Thrown
      → Option Text
      → Option Finalization
      → World S ManualEvent
      → Outcome ChildResult × World S ManualEvent
  recover_broken e lease target w =
      let wanted = or_else target (unexpected_recovery_target e) in
      let recovered = recovery_answered lease (
        call (asked_recovery (manual_finalization input policy wanted))
          (act.recover (manual_finalization input policy wanted)) w) in
      if should_rethrow_without_recovery e then (thrown e, w) else recovered

  abbrev pub after_try : TryEnd × World S ManualEvent → Outcome ChildResult × World S ManualEvent
  after_try (earlier r, w) = (done r, w)
  after_try (finalized lease r, w) = complete_and_return (some lease) r w
  after_try (broken e lease target, w) = recover_broken e lease target w

unfoldable pub process_manual_sale :
    {S : Type 0} → ManualActivities S → WorkflowInfo → ManualInput → Run S ManualEvent ChildResult
process_manual_sale act info input w =
    resume (to_failure (normalize_automation_runtime_policy input.runtime_policy), w)
      (λ policy w'. after_try act info input policy (run_try act info input policy w'))
