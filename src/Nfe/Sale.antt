-- ===== src/Nfe/Sale.antt =====
-- The data of src/domain/nfe/nfe-email-dispatch.types.ts and the tables of
-- src/infra/system-db/migrations, with the constraints that the database checks.
use automation_server_net.Base.{ℕ, Bool, true, false, not, ◌&&◌, ◌||◌, Option, List, is_some}
use automation_server_net.Js.Text.{Text}

-- `NfeEmailDispatchSaleStatus`
pub data SaleStatus : Type 0 where
  pending in_progress sent failed_transient failed_final delivery_unknown : SaleStatus

abbrev pub is_in_progress : SaleStatus → Bool
is_in_progress pending = false
is_in_progress in_progress = true
is_in_progress sent = false
is_in_progress failed_transient = false
is_in_progress failed_final = false
is_in_progress delivery_unknown = false

abbrev pub is_sent : SaleStatus → Bool
is_sent pending = false
is_sent in_progress = false
is_sent sent = true
is_sent failed_transient = false
is_sent failed_final = false
is_sent delivery_unknown = false

-- `NFE_EMAIL_DISPATCH_FINALIZATION_STATUSES.includes`
abbrev pub is_final : SaleStatus → Bool
is_final pending = false
is_final in_progress = false
is_final sent = true
is_final failed_transient = true
is_final failed_final = true
is_final delivery_unknown = true

-- `status = ?` on the ENUM column
abbrev pub status_eq : SaleStatus → SaleStatus → Bool
status_eq pending s = elim s [ pending ↦ true | _ ↦ false ]
status_eq in_progress s = is_in_progress s
status_eq sent s = is_sent s
status_eq failed_transient s = elim s [ failed_transient ↦ true | _ ↦ false ]
status_eq failed_final s = elim s [ failed_final ↦ true | _ ↦ false ]
status_eq delivery_unknown s = elim s [ delivery_unknown ↦ true | _ ↦ false ]

-- A row of `nfe_email_dispatch_sale`; a DATETIME(3) is the text that the driver returns for it.
pub record Sale : Type 0 where
  pub id : ℕ
  pub customer_id : ℕ
  pub runtime_scope : Text
  pub erp_sale_id : ℕ
  pub erp_invoice_key : Option Text
  pub erp_invoice_emitted_at : Text
  pub status : SaleStatus
  pub attempt_count : ℕ
  pub first_attempt_at : Option Text
  pub last_attempt_at : Option Text
  pub sent_at : Option Text
  pub last_error_message : Option Text
  pub created_at : Text
  pub updated_at : Text

-- A row of `nfe_email_dispatch_customer`, to which the sales are joined.
pub record Customer : Type 0 where
  pub id : ℕ
  pub erp_customer_id : ℕ

pub record SaleDb : Type 0 where
  pub sales : List Sale
  pub customers : List Customer
  -- `CURRENT_TIMESTAMP(3)`
  pub time : Text

-- The two CHECK constraints of the table.
abbrev pub meets_checks : Sale → Bool
meets_checks s =
    (not (is_in_progress s.status) || is_some s.last_attempt_at)
    && ((is_sent s.status && is_some s.sent_at)
        || (not (is_sent s.status) && not (is_some s.sent_at)))
