-- ===== src/Nfe/Activities.antt =====
-- The activities of src/temporal/activities/nfe that load, claim and finalize the sales of the
-- automatic dispatch, and `resolveActivityRuntimeScope` of
-- src/temporal/activities/shared/activity-idempotency-scope.ts. What `new Date()` yields is a parameter.
use automation_server_net.Base.{
  ℕ, not, ◌&&◌, ◌||◌, Option, none, some, List, leb, if◌then◌else◌, or_else, is_some,
}
use automation_server_net.Js.Number.{JsNumber, whole, is_integer, is_positive, magnitude}
use automation_server_net.Js.Text.{Text, is_empty, trim}
use automation_server_net.Integration.{
  Code, Failure, Result, ok, raise, integration, policy_validation, non_retryable, unknown,
  permanent_error, transient_error, is_integration_error, runtime_scope_invalid,
  dispatch_invalid_sale_id, dispatch_invalid_attempt_count, dispatch_invalid_max_attempts,
  dispatch_invalid_attempt_started_at, dispatch_claim_failed, dispatch_finalization_failed,
  dispatch_load_eligible_sales_failed, dispatch_finalization_record_not_found,
  dispatch_finalization_status_mismatch, dispatch_finalization_sent_at_missing,
}
use automation_server_net.Session.{Query, lift, rethrow, ◌>>=◌}
use automation_server_net.Idempotency.Table.{Collation}
use automation_server_net.RuntimePolicy.{normalize_automation_runtime_scope}
use automation_server_net.Nfe.Sale.{
  SaleStatus, failed_transient, failed_final, SaleDb, is_sent, status_eq,
}
use automation_server_net.Nfe.DateTime.{UtcFields, Dates, date, text}
use automation_server_net.Nfe.Validation.{normalize_optional_error_message}
use automation_server_net.Nfe.Rows.{
  Snapshot, ClaimResult, FinalizeResult, finalized, noop, SaleToProcess,
}
use automation_server_net.Nfe.Repository.{
  FinalizeSaleInput, claim_sale, finalize_sale, load_eligible_sales,
}

-- the `catch` of `resolveActivityRuntimeScope`
abbrev activity_scope_failure : Failure → Failure
activity_scope_failure policy_validation = permanent_error runtime_scope_invalid
activity_scope_failure (integration k c) = integration k c
activity_scope_failure non_retryable = non_retryable
activity_scope_failure unknown = unknown

abbrev with_activity_failure : Result Text → Result Text
with_activity_failure (ok s) = ok s
with_activity_failure (raise e) = raise (activity_scope_failure e)

unfoldable pub resolve_activity_runtime_scope : Option Text → Result Text
resolve_activity_runtime_scope value =
    with_activity_failure (normalize_automation_runtime_scope value)

-- the three `normalize…Error`: an unknown error may be tried again
abbrev pub activity_failure : Code → Failure → Failure
activity_failure code e = if is_integration_error e then e else transient_error code

-- `!Number.isInteger(value) || value <= 0`
abbrev pub require_positive : Code → JsNumber → Result ℕ
require_positive code n =
    if not (is_integer n) || not (is_positive n)
    then raise (permanent_error code)
    else ok (magnitude n)

abbrev pub require_started_at : Text → Result Text
require_started_at value =
    let s = trim value in
    if is_empty s then raise (permanent_error dispatch_invalid_attempt_started_at) else ok s

-- `FinalizeNfeEmailDispatchSaleActivityInput` and its result
pub record FinalizeActivityInput : Type 0 where
  pub sale_id : JsNumber
  pub attempt_started_at : Text
  pub attempt_count : JsNumber
  pub max_send_attempts : JsNumber
  pub status : SaleStatus
  pub error_message : Option Text
  pub runtime_scope : Option Text

pub record FinalizeActivityResult : Type 0 where
  pub sale_id : ℕ
  pub status : SaleStatus
  pub attempt_count : ℕ
  pub error_message : Option Text
  pub sent_at : Option Text

pub record ClaimActivityInput : Type 0 where
  pub sale_id : JsNumber
  pub attempt_started_at : Text
  pub max_send_attempts : JsNumber
  pub runtime_scope : Option Text

-- `resolveEffectiveFinalStatus`
unfoldable pub resolve_effective_final_status :
    (status : SaleStatus) (attempts max : ℕ) → SaleStatus
resolve_effective_final_status status attempts max =
    if status_eq failed_transient status && leb max attempts then failed_final else status

-- `ensureIdempotentFinalization`
unfoldable pub ensure_idempotent_finalization : Option Snapshot → SaleStatus → Result (Unit {0})
ensure_idempotent_finalization none expected =
    raise (permanent_error dispatch_finalization_record_not_found)
ensure_idempotent_finalization (some snapshot) expected =
    if not (status_eq expected snapshot.status)
    then raise (permanent_error dispatch_finalization_status_mismatch)
    else if is_sent expected && not (is_some snapshot.sent_at)
    then raise (permanent_error dispatch_finalization_sent_at_missing)
    else ok tt

abbrev pub snapshot_sent_at : Option Snapshot → Option Text
snapshot_sent_at none = none
snapshot_sent_at (some snapshot) = snapshot.sent_at

abbrev pub activity_result :
    (id attempts : ℕ) (status : SaleStatus) (error : Option Text) (now : Text)
    → Option Snapshot
    → FinalizeActivityResult
activity_result id attempts status error now snapshot = record {
  sale_id = id;
  status = status;
  attempt_count = attempts;
  error_message = error;
  sent_at = if is_sent status then some (or_else (snapshot_sent_at snapshot) now) else none;
}

abbrev confirmed : Result (Unit {0}) → FinalizeActivityResult → Result FinalizeActivityResult
confirmed (ok u) r = ok r
confirmed (raise e) r = raise e

-- what the activity makes of the repository's answer; `now` is `new Date().toISOString()`
unfoldable pub finalize_activity_outcome :
    (id attempts : ℕ) (status : SaleStatus) (error : Option Text) (now : Text)
    → FinalizeResult
    → Result FinalizeActivityResult
finalize_activity_outcome id attempts status error now (finalized snapshot) =
    ok (activity_result id attempts status error now (some snapshot))
finalize_activity_outcome id attempts status error now (noop snapshot) =
    confirmed (ensure_idempotent_finalization snapshot status)
      (activity_result id attempts status error now snapshot)

module _ (col : Collation) (dates : Dates) where
  -- `loadNfeEmailDispatchEligibleSalesActivity`
  unfoldable pub load_eligible_sales_activity :
      (max_send_attempts : JsNumber) (scope : Option Text) → Query SaleDb (List SaleToProcess)
  load_eligible_sales_activity max_send_attempts scope_input = do
    max ← lift (require_positive dispatch_invalid_max_attempts max_send_attempts)
    scope ← lift (resolve_activity_runtime_scope scope_input)
    rethrow (activity_failure dispatch_load_eligible_sales_failed)
        (load_eligible_sales col dates (whole max) scope)

  -- `claimNfeEmailDispatchSaleActivity`; its result renames the statuses of the repository's
  unfoldable pub claim_sale_activity : ClaimActivityInput → Query SaleDb ClaimResult
  claim_sale_activity input = do
    id ← lift (require_positive dispatch_invalid_sale_id input.sale_id)
    max ← lift (require_positive dispatch_invalid_max_attempts input.max_send_attempts)
    started ← lift (require_started_at input.attempt_started_at)
    scope ← lift (resolve_activity_runtime_scope input.runtime_scope)
    rethrow (activity_failure dispatch_claim_failed) (
        claim_sale col dates (record {
          sale_id = id;
          attempt_started_at = text started;
          max_send_attempts = whole max;
          runtime_scope = scope;
        }))

  -- what the finalization passes on
  abbrev pub finalization :
      (id : ℕ) (started : Text) (status : SaleStatus) (scope : Text) (error : Option Text)
      (now : UtcFields)
      → FinalizeSaleInput
  finalization id started status scope error now = record {
    sale_id = id;
    attempt_started_at = text started;
    final_status = status;
    runtime_scope = scope;
    error_message = error;
    sent_at = if is_sent status then some (date now) else none;
  }

  -- `finalizeNfeEmailDispatchSaleActivity`; `now` and `now_text` are its two readings of the clock
  unfoldable pub finalize_sale_activity :
      (now : UtcFields) (now_text : Text)
      → FinalizeActivityInput
      → Query SaleDb FinalizeActivityResult
  finalize_sale_activity now now_text input = do
    id ← lift (require_positive dispatch_invalid_sale_id input.sale_id)
    attempts ← lift (require_positive dispatch_invalid_attempt_count input.attempt_count)
    max ← lift (require_positive dispatch_invalid_max_attempts input.max_send_attempts)
    started ← lift (require_started_at input.attempt_started_at)
    scope ← lift (resolve_activity_runtime_scope input.runtime_scope)
    let error = normalize_optional_error_message input.error_message
    let status = resolve_effective_final_status input.status attempts max
    rethrow (activity_failure dispatch_finalization_failed) (
        finalize_sale col dates (finalization id started status scope error now) >>= λ result.
        lift (finalize_activity_outcome id attempts status error now_text result))
