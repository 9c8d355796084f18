-- ===== src/Integration.antt =====
-- The errors of src/domain/shared/integration-error.types.ts and the plain errors that the
-- program throws beside them. A failure keeps the class and the code; message texts are left out.
use automation_server_net.Base.{Bool, true, false, Option, none, some, ◌||◌}

pub data IntegrationErrorKind : Type 0 where
  transient permanent : IntegrationErrorKind

-- The codes that the modelled files give to the errors they throw, and those of
-- `normalizeSystemDbError` in src/infra/system-db/system-db.client.ts.
pub data Code : Type 0 where
  system_db_unavailable system_db_query_failed : Code
  idempotency_payload_mismatch idempotency_reservation_race idempotency_lease_lost : Code
  idempotency_cancel_not_found idempotency_finalize_not_found : Code
  idempotency_record_not_found idempotency_result_missing idempotency_result_invalid_json : Code
  idempotency_result_invalid_payload idempotency_invalid_insert_id : Code
  idempotency_invalid_attempt_count idempotency_invalid_row_id : Code
  runtime_scope_invalid : Code
  dispatch_invalid_runtime_scope dispatch_invalid_integer_filter dispatch_invalid_row_number : Code
  dispatch_invalid_sale_status dispatch_invalid_final_status dispatch_sent_at_required : Code
  dispatch_sent_at_not_allowed dispatch_invalid_datetime dispatch_invalid_invoice_key : Code
  dispatch_invalid_max_attempts dispatch_invalid_pagination_limit : Code
  dispatch_invalid_pagination_offset dispatch_claim_reload_failed : Code
  dispatch_manual_claim_reload_failed dispatch_finalization_reload_failed : Code
  dispatch_direct_finalization_reload_failed check_violated : Code
  dispatch_invalid_sale_id dispatch_invalid_attempt_count : Code
  dispatch_invalid_attempt_started_at dispatch_claim_failed dispatch_finalization_failed : Code
  dispatch_finalization_record_not_found dispatch_finalization_status_mismatch : Code
  dispatch_finalization_sent_at_missing : Code
  attempt_lock_invalid_text attempt_lock_invalid_integer attempt_lock_failed : Code
  smtp_activity_failed smtp_activity_invalid_request_id smtp_activity_invalid_workflow_id : Code
  smtp_activity_invalid_workflow_name smtp_activity_invalid_idempotency_key : Code
  smtp_activity_invalid_message : Code
  manual_finalization_invalid_sale_id manual_finalization_invalid_attempt_count : Code
  manual_finalization_invalid_attempt_started_at manual_finalization_record_not_found : Code
  manual_finalization_attempt_mismatch manual_finalization_status_mismatch : Code
  manual_finalization_sent_at_missing manual_finalization_failed : Code
  manual_recovery_invalid_sale_id manual_recovery_invalid_attempt_count : Code
  manual_recovery_invalid_attempt_started_at manual_recovery_record_not_found : Code
  manual_recovery_attempt_mismatch manual_recovery_attempt_started_at_mismatch : Code
  manual_recovery_still_in_progress manual_recovery_failed : Code
  dispatch_load_eligible_sales_failed : Code

pub data Failure : Type 0 where
  -- `TransientIntegrationError` and `PermanentIntegrationError`
  integration : IntegrationErrorKind → Code → Failure
  -- `AutomationRuntimePolicyValidationError`
  policy_validation : Failure
  -- a Temporal `ApplicationFailure` that is not retried
  non_retryable : Failure
  -- any other thrown value
  unknown : Failure

abbrev pub transient_error : Code → Failure
transient_error = integration transient

abbrev pub permanent_error : Code → Failure
permanent_error = integration permanent

abbrev pub is_transient_integration_error : Failure → Bool
is_transient_integration_error (integration transient c) = true
is_transient_integration_error (integration permanent c) = false
is_transient_integration_error policy_validation = false
is_transient_integration_error non_retryable = false
is_transient_integration_error unknown = false

abbrev pub is_permanent_integration_error : Failure → Bool
is_permanent_integration_error (integration transient c) = false
is_permanent_integration_error (integration permanent c) = true
is_permanent_integration_error policy_validation = false
is_permanent_integration_error non_retryable = false
is_permanent_integration_error unknown = false

abbrev pub is_integration_error : Failure → Bool
is_integration_error e = is_transient_integration_error e || is_permanent_integration_error e

-- `classifyIntegrationError`
abbrev pub classify_integration_error : Failure → Option IntegrationErrorKind
classify_integration_error (integration k c) = some k
classify_integration_error policy_validation = none
classify_integration_error non_retryable = none
classify_integration_error unknown = none

-- What a call returns or throws.
pub data Result {ℓ} (A : Type ℓ) : Type ℓ where
  ok : A → Result A
  raise : Failure → Result A

infixl 5 ◌>>=◌ ◌>>◌
abbrev pub ◌>>=◌ {ℓ κ} : {A : Type ℓ} {B : Type κ} → Result A → (A → Result B) → Result B
ok a >>= f = f a
raise e >>= f = raise e

abbrev pub ◌>>◌ {ℓ κ} : {A : Type ℓ} {B : Type κ} → Result A → Result B → Result B
m >> k = m >>= λ _. k
