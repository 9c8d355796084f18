-- ===== src/Nfe/Repository.antt =====
-- src/infra/system-db/nfe-email-dispatch/workflow.repository.ts, and
-- `findNfeEmailDispatchSaleStatus` of sale.repository.ts. The statuses and sale ids that the callers
-- pass are typed; an id that is no natural number matches no row.
use automation_server_net.Base.{ℕ, Option, none, some, List, ◌==◌, if◌then◌else◌}
use automation_server_net.Js.Number.{JsNumber}
use automation_server_net.Js.Text.{Text}
use automation_server_net.Integration.{
  Code, Result, ok, raise, permanent_error, dispatch_claim_reload_failed,
  dispatch_manual_claim_reload_failed, dispatch_finalization_reload_failed,
  dispatch_direct_finalization_reload_failed,
}
use automation_server_net.Session.{Query, statement, pure, lift, ◌>>=◌}
use automation_server_net.Idempotency.Table.{Collation}
use automation_server_net.Nfe.Sale.{SaleStatus, Sale, Customer, SaleDb}
use automation_server_net.Nfe.DateTime.{DateInput, Dates, text, normalize_date_time3}
use automation_server_net.Nfe.Validation.{
  normalize_positive_integer, normalize_non_negative_integer, normalize_final_status,
  normalize_optional_sent_at, normalize_optional_error_message, normalize_runtime_scope,
  normalize_max_send_attempts,
}
use automation_server_net.Nfe.Statements.{
  claim_update, claim_manual_update, finalize_update, direct_update, rollback_update,
  select_claimed, select_sale, select_eligible,
}
use automation_server_net.Nfe.Rows.{
  Snapshot, ClaimResult, claimed, already_claimed_by_this_attempt, skipped, FinalizeResult,
  finalized, noop, DirectResult, directly_finalized, conflict, not_found, RollbackResult, restored,
  rollback_noop, SaleToProcess, map_sale_status_row, map_eligible_sale_row, map_sales_to_process,
}

-- `ClaimNfeEmailDispatchSaleInput` and the inputs of the other calls
pub record ClaimInput : Type 0 where
  pub sale_id : ℕ
  pub attempt_started_at : DateInput
  pub max_send_attempts : JsNumber
  pub runtime_scope : Text

pub record ManualClaimInput : Type 0 where
  pub sale_id : JsNumber
  pub attempt_started_at : DateInput
  pub runtime_scope : Text

pub record RollbackInput : Type 0 where
  pub sale_id : JsNumber
  pub runtime_scope : Text
  pub current_attempt_count : JsNumber
  pub current_attempt_started_at : DateInput
  pub previous_status : SaleStatus
  pub previous_attempt_count : JsNumber
  pub previous_first_attempt_at : Option DateInput
  pub previous_last_attempt_at : Option DateInput
  pub previous_last_error_message : Option Text

pub record FinalizeSaleInput : Type 0 where
  pub sale_id : ℕ
  pub attempt_started_at : DateInput
  pub final_status : SaleStatus
  pub runtime_scope : Text
  pub error_message : Option Text
  pub sent_at : Option DateInput

pub record DirectInput : Type 0 where
  pub sale_id : JsNumber
  pub expected_status : SaleStatus
  pub expected_attempt_count : JsNumber
  pub attempt_started_at : DateInput
  pub final_status : SaleStatus
  pub runtime_scope : Text
  pub error_message : Option Text
  pub sent_at : Option DateInput

abbrev found_claimed : Option (Sale × Customer) → Result (Option ℕ)
found_claimed none = ok none
found_claimed (some r) = attempts (map_eligible_sale_row r)
  where
    attempts : Result ℕ → Result (Option ℕ)
    attempts (ok n) = ok (some n)
    attempts (raise e) = raise e

abbrev found_status : Option Sale → Result (Option Snapshot)
found_status none = ok none
found_status (some s) = snapshot (map_sale_status_row s)
  where
    snapshot : Result Snapshot → Result (Option Snapshot)
    snapshot (ok n) = ok (some n)
    snapshot (raise e) = raise e

-- what a call makes of the affected rows and of the row it reads back
unfoldable pub claim_outcome : Code → ℕ → Option ℕ → Result ClaimResult
claim_outcome reload_failed rows none =
    if rows == 1 then raise (permanent_error reload_failed) else ok skipped
claim_outcome reload_failed rows (some n) =
    if rows == 1 then ok (claimed n) else ok (already_claimed_by_this_attempt n)

unfoldable pub finalize_outcome : ℕ → Option Snapshot → Result FinalizeResult
finalize_outcome rows none =
    if rows == 0
    then ok (noop none)
    else raise (permanent_error dispatch_finalization_reload_failed)
finalize_outcome rows (some s) = if rows == 0 then ok (noop (some s)) else ok (finalized s)

unfoldable pub direct_outcome : ℕ → Option Snapshot → Result DirectResult
direct_outcome rows none =
    if rows == 0
    then ok not_found
    else raise (permanent_error dispatch_direct_finalization_reload_failed)
direct_outcome rows (some s) = if rows == 0 then ok (conflict s) else ok (directly_finalized s)

module _ (col : Collation) (dates : Dates) where
  unfoldable pub normalize_nullable_date_time3 : Option DateInput → Result (Option Text)
  normalize_nullable_date_time3 none = ok none
  normalize_nullable_date_time3 (some v) = present (normalize_date_time3 dates v)
    where
      present : Result Text → Result (Option Text)
      present (ok t) = ok (some t)
      present (raise e) = raise e

  -- `findClaimedNfeEmailDispatchSaleByAttemptStartedAt`
  unfoldable pub find_claimed_sale : (id : ℕ) → DateInput → (scope : Text) → Query SaleDb (Option ℕ)
  find_claimed_sale id started_at scope_input = do
    started ← lift (normalize_date_time3 dates started_at)
    scope ← lift (normalize_runtime_scope scope_input)
    row ← statement (λ d. (select_claimed col scope id started d, d))
    lift (found_claimed row)

  unfoldable pub find_sale_status : (id : ℕ) (scope : Text) → Query SaleDb (Option Snapshot)
  find_sale_status id scope_input = do
    scope ← lift (normalize_runtime_scope scope_input)
    row ← statement (λ d. (select_sale col scope id d, d))
    lift (found_status row)

  unfoldable pub load_eligible_sales :
      (max_send_attempts : JsNumber) (scope : Text) → Query SaleDb (List SaleToProcess)
  load_eligible_sales max_send_attempts scope_input = do
    scope ← lift (normalize_runtime_scope scope_input)
    max ← lift (normalize_max_send_attempts max_send_attempts)
    rows ← statement (λ d. (select_eligible col scope max d, d))
    lift (map_sales_to_process rows)

  unfoldable pub claim_sale : ClaimInput → Query SaleDb ClaimResult
  claim_sale input = do
    started ← lift (normalize_date_time3 dates input.attempt_started_at)
    scope ← lift (normalize_runtime_scope input.runtime_scope)
    max ← lift (normalize_max_send_attempts input.max_send_attempts)
    result ← statement (claim_update col scope input.sale_id started max)
    rows ← lift result
    claimed_attempt ← find_claimed_sale input.sale_id (text started) scope
    lift (claim_outcome dispatch_claim_reload_failed rows claimed_attempt)

  unfoldable pub claim_manual_sale : ManualClaimInput → Query SaleDb ClaimResult
  claim_manual_sale input = do
    started ← lift (normalize_date_time3 dates input.attempt_started_at)
    scope ← lift (normalize_runtime_scope input.runtime_scope)
    id ← lift (normalize_positive_integer input.sale_id)
    result ← statement (claim_manual_update col scope id started)
    rows ← lift result
    claimed_attempt ← find_claimed_sale id (text started) scope
    lift (claim_outcome dispatch_manual_claim_reload_failed rows claimed_attempt)

  -- the end of `rollbackManualNfeEmailDispatchSaleClaim`
  unfoldable pub rolled_back : (id : ℕ) (scope : Text) → ℕ → Query SaleDb RollbackResult
  rolled_back id scope rows =
      if rows == 1
      then pure restored
      else (find_sale_status id scope >>= λ snapshot. pure (rollback_noop snapshot))

  unfoldable pub rollback_manual_sale_claim : RollbackInput → Query SaleDb RollbackResult
  rollback_manual_sale_claim input = do
    scope ← lift (normalize_runtime_scope input.runtime_scope)
    id ← lift (normalize_positive_integer input.sale_id)
    attempts ← lift (normalize_positive_integer input.current_attempt_count)
    started ← lift (normalize_date_time3 dates input.current_attempt_started_at)
    previous ← lift (normalize_non_negative_integer input.previous_attempt_count)
    first ← lift (normalize_nullable_date_time3 input.previous_first_attempt_at)
    last ← lift (normalize_nullable_date_time3 input.previous_last_attempt_at)
    let error = normalize_optional_error_message input.previous_last_error_message
    result ← statement (
        rollback_update col scope id attempts started input.previous_status previous first last
          error)
    rows ← lift result
    rolled_back id scope rows

  unfoldable pub finalize_sale : FinalizeSaleInput → Query SaleDb FinalizeResult
  finalize_sale input = do
    status ← lift (normalize_final_status input.final_status)
    started ← lift (normalize_date_time3 dates input.attempt_started_at)
    sent_at ← lift (normalize_optional_sent_at dates status input.sent_at)
    let error = normalize_optional_error_message input.error_message
    scope ← lift (normalize_runtime_scope input.runtime_scope)
    result ← statement (finalize_update col scope input.sale_id started status sent_at error)
    rows ← lift result
    snapshot ← find_sale_status input.sale_id scope
    lift (finalize_outcome rows snapshot)

  unfoldable pub finalize_sale_direct : DirectInput → Query SaleDb DirectResult
  finalize_sale_direct input = do
    id ← lift (normalize_positive_integer input.sale_id)
    attempts ← lift (normalize_non_negative_integer input.expected_attempt_count)
    status ← lift (normalize_final_status input.final_status)
    started ← lift (normalize_date_time3 dates input.attempt_started_at)
    sent_at ← lift (normalize_optional_sent_at dates status input.sent_at)
    let error = normalize_optional_error_message input.error_message
    scope ← lift (normalize_runtime_scope input.runtime_scope)
    result ←
        statement
          (direct_update col scope id input.expected_status attempts started status sent_at error)
    rows ← lift result
    snapshot ← find_sale_status id scope
    lift (direct_outcome rows snapshot)
