-- ===== src/Nfe/Rows.antt =====
-- The results of src/infra/system-db/nfe-email-dispatch/contracts.ts and the row mappers of
-- mappers.ts. A status column holds one of the statuses, since the column is an ENUM of them.
use automation_server_net.Base.{ℕ, Option, List, [], ◌∷◌}
use automation_server_net.Js.Text.{Text}
use automation_server_net.Integration.{Result, ok, ◌>>=◌, ◌>>◌}
use automation_server_net.Nfe.Sale.{SaleStatus, Sale, Customer}
use automation_server_net.Nfe.Validation.{read_row_number}

-- `NfeEmailDispatchSaleStatusSnapshot`
pub record Snapshot : Type 0 where
  pub sale_id : ℕ
  pub status : SaleStatus
  pub attempt_count : ℕ
  pub last_attempt_at : Option Text
  pub sent_at : Option Text
  pub last_error_message : Option Text
  pub updated_at : Text

-- `ClaimNfeEmailDispatchSaleResult` and its manual twin
pub data ClaimResult : Type 0 where
  claimed already_claimed_by_this_attempt : (attempt_count : ℕ) → ClaimResult
  skipped : ClaimResult

-- the results of the three writes that end an attempt
pub data FinalizeResult : Type 0 where
  finalized : Snapshot → FinalizeResult
  noop : Option Snapshot → FinalizeResult

pub data DirectResult : Type 0 where
  directly_finalized conflict : Snapshot → DirectResult
  not_found : DirectResult

pub data RollbackResult : Type 0 where
  restored : RollbackResult
  rollback_noop : Option Snapshot → RollbackResult

-- `NfeEmailDispatchSaleToProcess`
pub record SaleToProcess : Type 0 where
  pub sale_id : ℕ
  pub erp_sale_id : ℕ
  pub current_attempt_count : ℕ

-- `mapSaleStatusRow`
unfoldable pub map_sale_status_row : Sale → Result Snapshot
map_sale_status_row s = do
  id ← read_row_number s.id
  attempts ← read_row_number s.attempt_count
  ok (record {
    sale_id = id;
    status = s.status;
    attempt_count = attempts;
    last_attempt_at = s.last_attempt_at;
    sent_at = s.sent_at;
    last_error_message = s.last_error_message;
    updated_at = s.updated_at;
  })

-- `mapEligibleSaleRow`, of which the claims use the attempt count
unfoldable pub map_eligible_sale_row : Sale × Customer → Result ℕ
map_eligible_sale_row r = do
  read_row_number r.0.id
  read_row_number r.0.customer_id
  read_row_number r.1.erp_customer_id
  read_row_number r.0.erp_sale_id
  read_row_number r.0.attempt_count

-- the row mapper of `loadEligibleNfeEmailDispatchSales`
unfoldable pub map_sale_to_process : Sale → Result SaleToProcess
map_sale_to_process s = do
  id ← read_row_number s.id
  erp_id ← read_row_number s.erp_sale_id
  attempts ← read_row_number s.attempt_count
  ok (record { sale_id = id; erp_sale_id = erp_id; current_attempt_count = attempts })

unfoldable pub map_sales_to_process : List Sale → Result (List SaleToProcess)
map_sales_to_process [] = ok []
map_sales_to_process (s ∷ ss) = do
  p ← map_sale_to_process s
  ps ← map_sales_to_process ss
  ok (p ∷ ps)
