-- ===== src/Nfe/Statements.antt =====
-- The statements of src/infra/system-db/nfe-email-dispatch/workflow.repository.ts and
-- sale.repository.ts on the table of sales. An UPDATE that would break a CHECK constraint fails as a
-- whole. How the database compares scopes is a parameter.
use automation_server_net.Base.{
  ℕ, ◌+◌, Bool, true, false, ◌&&◌, ◌||◌, Option, none, some, List, [], ◌∷◌, ltb, ◌==◌,
  if◌then◌else◌, every, or_else, update_where, count_where, find_where, select_where,
}
use automation_server_net.Js.Text.{Text, text_eq}
use automation_server_net.Integration.{Result, ok, raise, transient_error, system_db_query_failed}
use automation_server_net.Idempotency.Table.{Collation}
use automation_server_net.Nfe.Sale.{
  SaleStatus, pending, in_progress, sent, failed_transient, failed_final, delivery_unknown, Sale,
  Customer, SaleDb, is_in_progress, status_eq, meets_checks,
}

-- `column = ?` on a DATETIME(3) column
abbrev pub is_at : Text → Option Text → Bool
is_at t none = false
is_at t (some u) = text_eq u t

-- `UPDATE nfe_email_dispatch_sale SET f WHERE p`: a failure of the CHECK constraints changes nothing. The
-- values are taken to fit their columns.
abbrev pub update_sales : (Sale → Bool) → (Sale → Sale) → SaleDb → Result ℕ × SaleDb
update_sales p f d =
    let sales = update_where p f d.sales in
    if every meets_checks sales
    then (ok (count_where p d.sales), record d { sales = sales })
    else (raise (transient_error system_db_query_failed), d)

-- `status = 'PENDING' OR (status = 'FAILED_TRANSIENT' AND attempt_count < ?)`
abbrev pub is_eligible : ℕ → Sale → Bool
is_eligible max s =
    status_eq pending s.status || (status_eq failed_transient s.status && ltb s.attempt_count max)

-- the statuses of the manual claim
abbrev pub is_claimable : SaleStatus → Bool
is_claimable pending = true
is_claimable in_progress = false
is_claimable sent = false
is_claimable failed_transient = true
is_claimable failed_final = true
is_claimable delivery_unknown = true

-- what both claims set
abbrev pub claimed_sale : (started time : Text) → Sale → Sale
claimed_sale started time s = record s {
  status = in_progress;
  attempt_count = s.attempt_count + 1;
  first_attempt_at = some (or_else s.first_attempt_at started);
  last_attempt_at = some started;
  last_error_message = none;
  updated_at = time;
}

abbrev pub finalized_sale :
    (status : SaleStatus) (sent_at error : Option Text) (time : Text) → Sale → Sale
finalized_sale status sent_at error time s = record s {
  status = status;
  sent_at = sent_at;
  last_error_message = error;
  updated_at = time;
}

abbrev pub direct_sale :
    (started : Text) (status : SaleStatus) (sent_at error : Option Text) (time : Text) → Sale → Sale
direct_sale started status sent_at error time s = record s {
  attempt_count = s.attempt_count + 1;
  first_attempt_at = some (or_else s.first_attempt_at started);
  last_attempt_at = some started;
  status = status;
  sent_at = sent_at;
  last_error_message = error;
  updated_at = time;
}

abbrev pub restored_sale :
    (status : SaleStatus) (attempts : ℕ) (first last error : Option Text) (time : Text)
    → Sale
    → Sale
restored_sale status attempts first last error time s = record s {
  status = status;
  attempt_count = attempts;
  first_attempt_at = first;
  last_attempt_at = last;
  last_error_message = error;
  updated_at = time;
}

-- the first row of `… INNER JOIN nfe_email_dispatch_customer`
abbrev with_customer : Sale → Option Customer → Option (Sale × Customer) → Option (Sale × Customer)
with_customer s none rest = rest
with_customer s (some c) rest = some (s, c)

abbrev find_joined : List Customer → List Sale → Option (Sale × Customer)
find_joined customers [] = none
find_joined customers (s ∷ sales) =
    with_customer s (find_where (λ c. c.id == s.customer_id) customers)
      (find_joined customers sales)

-- `ORDER BY created_at ASC, id ASC`; times are texts of one width
abbrev text_before : Text → Text → Bool
text_before [] [] = false
text_before [] (c ∷ t) = true
text_before (c ∷ s) [] = false
text_before (a ∷ s) (b ∷ t) = let rest = text_before s t in ltb a b || (a == b && rest)

abbrev is_before : Sale → Sale → Bool
is_before s u =
    text_before s.created_at u.created_at || (text_eq s.created_at u.created_at && ltb s.id u.id)

abbrev insert_by_creation : Sale → List Sale → List Sale
insert_by_creation s [] = s ∷ []
insert_by_creation s (u ∷ us) =
    let later = insert_by_creation s us in if is_before u s then u ∷ later else s ∷ u ∷ us

abbrev order_by_creation : List Sale → List Sale
order_by_creation [] = []
order_by_creation (s ∷ ss) = insert_by_creation s (order_by_creation ss)

-- `DELETE FROM nfe_email_dispatch_customer WHERE id = ? LIMIT 1` by its primary key, and what
-- `ON DELETE CASCADE` of the key of its sales makes of them
abbrev pub without_sales_of : ℕ → List Sale → List Sale
without_sales_of customer_id [] = []
without_sales_of customer_id (s ∷ ss) =
    let rest = without_sales_of customer_id ss in
    if s.customer_id == customer_id then rest else s ∷ rest

abbrev without_customer : ℕ → List Customer → List Customer
without_customer customer_id [] = []
without_customer customer_id (c ∷ cs) =
    let rest = without_customer customer_id cs in if c.id == customer_id then rest else c ∷ rest

unfoldable pub delete_customer : (customer_id : ℕ) → SaleDb → SaleDb
delete_customer customer_id d = record d {
  sales = without_sales_of customer_id d.sales;
  customers = without_customer customer_id d.customers;
}

module _ (col : Collation) where
  -- `runtime_scope = ? AND id = ?`
  abbrev pub is_sale : Text → ℕ → Sale → Bool
  is_sale scope id s = col.same s.runtime_scope scope && s.id == id

  -- `… AND status = 'IN_PROGRESS' AND last_attempt_at = ?`
  abbrev pub is_attempt : (scope : Text) (id : ℕ) (started : Text) → Sale → Bool
  is_attempt scope id started s =
      is_sale scope id s && (is_in_progress s.status && is_at started s.last_attempt_at)

  -- the `UPDATE` of `claimNfeEmailDispatchSale`
  unfoldable pub claim_update :
      (scope : Text) (id : ℕ) (started : Text) (max : ℕ) → SaleDb → Result ℕ × SaleDb
  claim_update scope id started max d =
      update_sales (λ s. is_sale scope id s && is_eligible max s) (claimed_sale started d.time) d

  -- the `UPDATE` of `claimManualNfeEmailDispatchSale`
  unfoldable pub claim_manual_update :
      (scope : Text) (id : ℕ) (started : Text) → SaleDb → Result ℕ × SaleDb
  claim_manual_update scope id started d =
      update_sales (λ s. is_sale scope id s && is_claimable s.status) (claimed_sale started d.time)
        d

  -- the `UPDATE` of `finalizeNfeEmailDispatchSale`
  unfoldable pub finalize_update :
      (scope : Text) (id : ℕ) (started : Text) (status : SaleStatus) (sent_at error : Option Text)
      → SaleDb
      → Result ℕ × SaleDb
  finalize_update scope id started status sent_at error d =
      update_sales (is_attempt scope id started) (finalized_sale status sent_at error d.time) d

  -- the `UPDATE` of `finalizeNfeEmailDispatchSaleDirect`
  unfoldable pub direct_update :
      (scope : Text) (id : ℕ) (expected : SaleStatus) (attempts : ℕ) (started : Text)
      (status : SaleStatus) (sent_at error : Option Text)
      → SaleDb
      → Result ℕ × SaleDb
  direct_update scope id expected attempts started status sent_at error d =
      update_sales
        (λ s. is_sale scope id s && (status_eq expected s.status && s.attempt_count == attempts))
        (direct_sale started status sent_at error d.time) d

  -- the `UPDATE` of `rollbackManualNfeEmailDispatchSaleClaim`
  unfoldable pub rollback_update :
      (scope : Text) (id attempts : ℕ) (started : Text) (status : SaleStatus) (previous : ℕ)
      (first last error : Option Text)
      → SaleDb
      → Result ℕ × SaleDb
  rollback_update scope id attempts started status previous first last error d =
      update_sales (λ s. is_attempt scope id started s && s.attempt_count == attempts)
        (restored_sale status previous first last error d.time) d

  -- the `SELECT`s of one sale: joined with its customer, and alone
  unfoldable pub select_claimed :
      (scope : Text) (id : ℕ) (started : Text) → SaleDb → Option (Sale × Customer)
  select_claimed scope id started d =
      find_joined d.customers (select_where (is_attempt scope id started) d.sales)

  unfoldable pub select_sale : (scope : Text) (id : ℕ) → SaleDb → Option Sale
  select_sale scope id d = find_where (is_sale scope id) d.sales

  -- the `SELECT` of `loadEligibleNfeEmailDispatchSales`
  unfoldable pub select_eligible : (scope : Text) (max : ℕ) → SaleDb → List Sale
  select_eligible scope max d =
      order_by_creation
        (select_where (λ s. col.same s.runtime_scope scope && is_eligible max s) d.sales)
