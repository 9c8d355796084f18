-- ===== src/Nfe/ManualActivities.antt =====
-- The activities of src/temporal/activities/nfe that end an attempt of the manual workflow:
-- finalize-manual-nfe-email-dispatch-sale.activity.ts and recover-manual-nfe-email-dispatch-sale.activity.ts. What
-- `new Date()` yields is a parameter.
pub mod Truth
mod Tests
use automation_server_net.Base.{
  ℕ, Bool, true, false, not, ◌&&◌, ◌||◌, Option, none, some, if◌then◌else◌, or_else, is_some, ◌==◌,
}
use automation_server_net.Js.Number.{JsNumber}
use automation_server_net.Js.Text.{Text, text_eq, is_empty, trim}
use automation_server_net.Integration.{
  Code, Failure, Result, ok, raise, permanent_error, manual_finalization_invalid_sale_id,
  manual_finalization_invalid_attempt_count, manual_finalization_invalid_attempt_started_at,
  manual_finalization_record_not_found, manual_finalization_attempt_mismatch,
  manual_finalization_status_mismatch, manual_finalization_sent_at_missing,
  manual_finalization_failed, manual_recovery_invalid_sale_id,
  manual_recovery_invalid_attempt_count, manual_recovery_invalid_attempt_started_at,
  manual_recovery_record_not_found, manual_recovery_attempt_mismatch,
  manual_recovery_attempt_started_at_mismatch, manual_recovery_still_in_progress,
  manual_recovery_failed,
}
use automation_server_net.Session.{Query, lift, rethrow, ◌>>=◌}
use automation_server_net.Idempotency.Table.{Collation}
use automation_server_net.Nfe.Sale.{SaleStatus, sent, SaleDb, is_sent, is_final, status_eq}
use automation_server_net.Nfe.DateTime.{UtcFields, Dates}
use automation_server_net.Nfe.Validation.{normalize_optional_error_message}
use automation_server_net.Nfe.Rows.{Snapshot, FinalizeResult, finalized, noop}
use automation_server_net.Nfe.Repository.{finalize_sale}
use automation_server_net.Nfe.Activities.{
  FinalizeActivityResult, activity_result, finalization, require_positive,
  resolve_activity_runtime_scope, activity_failure,
}

-- `FinalizeManualNfeEmailDispatchSaleActivityInput`
pub record ManualFinalizeInput : Type 0 where
  pub sale_id : JsNumber
  pub attempt_started_at : Text
  pub attempt_count : JsNumber
  pub status : SaleStatus
  pub error_message : Option Text
  pub runtime_scope : Option Text

-- what `validateInput` returns, in both activities
pub record ManualAttempt : Type 0 where
  pub id : ℕ
  pub attempts : ℕ
  pub started_at : Text
  pub scope : Text

abbrev pub require_text : Code → Text → Result Text
require_text code value =
    let s = trim value in if is_empty s then raise (permanent_error code) else ok s

module _ {S : Type 0} where
  -- `validateInput`, with the codes of an activity
  unfoldable pub validate_manual_input :
      (bad_id bad_count bad_start : Code) → ManualFinalizeInput → Query S ManualAttempt
  validate_manual_input bad_id bad_count bad_start input = do
    id ← lift (require_positive bad_id input.sale_id)
    attempts ← lift (require_positive bad_count input.attempt_count)
    started ← lift (require_text bad_start input.attempt_started_at)
    scope ← lift (resolve_activity_runtime_scope input.runtime_scope)
    lift (ok (record { id = id; attempts = attempts; started_at = started; scope = scope }))

-- `ensureIdempotentFinalization` of the manual finalization
unfoldable pub ensure_manual_finalization :
    Option Snapshot → (attempts : ℕ) → SaleStatus → Result (Unit {0})
ensure_manual_finalization none attempts expected =
    raise (permanent_error manual_finalization_record_not_found)
ensure_manual_finalization (some snapshot) attempts expected =
    if not (snapshot.attempt_count == attempts)
    then raise (permanent_error manual_finalization_attempt_mismatch)
    else if not (status_eq snapshot.status expected)
    then raise (permanent_error manual_finalization_status_mismatch)
    else if is_sent expected && not (is_some snapshot.sent_at)
    then raise (permanent_error manual_finalization_sent_at_missing)
    else ok tt

abbrev with_confirmation :
    Result (Unit {0}) → FinalizeActivityResult → Result FinalizeActivityResult
with_confirmation (ok u) r = ok r
with_confirmation (raise e) r = raise e

-- what the finalization makes of the repository's answer
unfoldable pub manual_finalize_outcome :
    ManualAttempt
    → SaleStatus
    → (error : Option Text) → (now_text : Text) → FinalizeResult
    → Result FinalizeActivityResult
manual_finalize_outcome a status error now_text (finalized snapshot) =
    ok (activity_result a.id a.attempts status error now_text (some snapshot))
manual_finalize_outcome a status error now_text (noop snapshot) =
    with_confirmation (ensure_manual_finalization snapshot a.attempts status)
      (activity_result a.id a.attempts status error now_text snapshot)

abbrev pub is_text : Option Text → Text → Bool
is_text none s = false
is_text (some t) s = text_eq t s

-- `mapSnapshotToFinalizationResult`
unfoldable pub recovered_result : Option Snapshot → ManualAttempt → Result FinalizeActivityResult
recovered_result none a = raise (permanent_error manual_recovery_record_not_found)
recovered_result (some snapshot) a =
    if not (snapshot.attempt_count == a.attempts)
    then raise (permanent_error manual_recovery_attempt_mismatch)
    else if not (is_text snapshot.last_attempt_at a.started_at)
    then raise (permanent_error manual_recovery_attempt_started_at_mismatch)
    else if not (is_final snapshot.status)
    then raise (permanent_error manual_recovery_still_in_progress)
    else ok (record {
      sale_id = a.id;
      status = snapshot.status;
      attempt_count = snapshot.attempt_count;
      error_message = snapshot.last_error_message;
      sent_at = if is_sent snapshot.status then snapshot.sent_at else none;
    })

-- `result.snapshot`
abbrev pub snapshot_of : FinalizeResult → Option Snapshot
snapshot_of (finalized snapshot) = some snapshot
snapshot_of (noop snapshot) = snapshot

module _ (col : Collation) (dates : Dates) (now : UtcFields) where
  -- the call of the repository in both activities
  abbrev pub finalize_attempt : ManualFinalizeInput → ManualAttempt → Query SaleDb FinalizeResult
  finalize_attempt input a = finalize_sale col dates (
      finalization col dates a.id a.started_at input.status a.scope
        (normalize_optional_error_message input.error_message) now)

  -- `finalizeManualNfeEmailDispatchSaleActivity`
  unfoldable pub finalize_manual_sale_activity :
      (now_text : Text) → ManualFinalizeInput → Query SaleDb FinalizeActivityResult
  finalize_manual_sale_activity now_text input = do
    a ←
        validate_manual_input manual_finalization_invalid_sale_id
          manual_finalization_invalid_attempt_count manual_finalization_invalid_attempt_started_at
          input
    rethrow (activity_failure manual_finalization_failed) (
        finalize_attempt input a >>= λ r. lift (
          manual_finalize_outcome a input.status
            (normalize_optional_error_message input.error_message) now_text r))

  -- the `try` of the recovery
  unfoldable pub recover_attempt :
      ManualFinalizeInput → ManualAttempt → Query SaleDb FinalizeActivityResult
  recover_attempt input a =
      rethrow (activity_failure manual_recovery_failed)
        (finalize_attempt input a >>= λ r. lift (recovered_result (snapshot_of r) a))

  -- `recoverManualNfeEmailDispatchSaleActivity`
  unfoldable pub recover_manual_sale_activity :
      ManualFinalizeInput → Query SaleDb FinalizeActivityResult
  recover_manual_sale_activity input = do
    a ←
        validate_manual_input manual_recovery_invalid_sale_id manual_recovery_invalid_attempt_count
          manual_recovery_invalid_attempt_started_at input
    recover_attempt input a
