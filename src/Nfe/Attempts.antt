-- ===== src/Nfe/Attempts.antt =====
-- Which writes leave a sale alone: an attempt that runs, and a sale whose e-mail was sent.
use automation_server_net.Base.{◌≡◌, true, ◌&&◌, some, List, [], ◌∷◌, ◌==◌, All, arith}
use automation_server_net.Js.Text.{Text}
use automation_server_net.Idempotency.Table.{Collation}
use automation_server_net.Nfe.Sale.{in_progress, sent, Sale, SaleDb, status_eq}
use automation_server_net.Nfe.Statements.{
  is_sale, is_attempt, is_eligible, is_claimable, claimed_sale, finalized_sale, direct_sale,
  restored_sale, claim_update, claim_manual_update, finalize_update, direct_update, rollback_update,
}
use automation_server_net.Nfe.Operations.{
  SaleOperation, claim, claim_manual, finalize, finalize_direct, roll_back, remove_customer, tick,
  spares, is_other_attempt, apply_sale_operation, run_sale_operations, Holds, update_sales-Holds,
  keeps_customer, delete_customer-Holds,
}

module _ (col : Collation) where
  sent-apply :
      (x : Sale) (o : SaleOperation) (d : SaleDb)
      → x.status ≡ sent
      → spares sent o ≡ true
      → keeps_customer x.customer_id o ≡ true
      → Holds x d
      → Holds x (apply_sale_operation col o d)
  unfolding apply_sale_operation claim_update claim_manual_update finalize_update direct_update
      rollback_update
  sent-apply x (claim scope id started max) d eq free stays h =
      update_sales-Holds (λ s. is_sale col scope id s && is_eligible max s)
        (claimed_sale started d.time) x d (rw eq (ground arith)) h
  sent-apply x (claim_manual scope id started) d eq free stays h =
      update_sales-Holds (λ s. is_sale col scope id s && is_claimable s.status)
        (claimed_sale started d.time) x d (rw eq (ground arith)) h
  sent-apply x (finalize scope id started status sent_at error) d eq free stays h =
      update_sales-Holds (is_attempt col scope id started)
        (finalized_sale status sent_at error d.time) x d (rw eq (ground arith)) h
  sent-apply x (finalize_direct scope id expected attempts started status sent_at error) d eq free
        stays h =
      update_sales-Holds
        (λ s.
          is_sale col scope id s && (status_eq expected s.status && s.attempt_count == attempts))
        (direct_sale started status sent_at error d.time) x d (rw eq (ground arith)) h
  sent-apply x (roll_back scope id attempts started status previous first last error) d eq free
        stays h =
      update_sales-Holds (λ s. is_attempt col scope id started s && s.attempt_count == attempts)
        (restored_sale status previous first last error d.time) x d (rw eq (ground arith)) h
  sent-apply x (remove_customer customer_id) d eq free stays h =
      delete_customer-Holds customer_id x d stays h
  sent-apply x (tick time) d eq free stays h = h

  attempt-apply :
      (x : Sale) (t : Text) (o : SaleOperation) (d : SaleDb)
      → x.status ≡ in_progress
      → x.last_attempt_at ≡ some t
      → is_other_attempt t o ≡ true
      → keeps_customer x.customer_id o ≡ true
      → Holds x d
      → Holds x (apply_sale_operation col o d)
  unfolding apply_sale_operation claim_update claim_manual_update finalize_update direct_update
      rollback_update
  attempt-apply x t (claim scope id started max) d eq at free stays h =
      update_sales-Holds (λ s. is_sale col scope id s && is_eligible max s)
        (claimed_sale started d.time) x d (rw eq (ground arith)) h
  attempt-apply x t (claim_manual scope id started) d eq at free stays h =
      update_sales-Holds (λ s. is_sale col scope id s && is_claimable s.status)
        (claimed_sale started d.time) x d (rw eq (ground arith)) h
  attempt-apply x t (finalize scope id started status sent_at error) d eq at free stays h =
      update_sales-Holds (is_attempt col scope id started)
        (finalized_sale status sent_at error d.time) x d (rw (eq, at) (ground arith)) h
  attempt-apply x t (finalize_direct scope id expected attempts started status sent_at error) d eq
        at free stays h =
      update_sales-Holds
        (λ s.
          is_sale col scope id s && (status_eq expected s.status && s.attempt_count == attempts))
        (direct_sale started status sent_at error d.time) x d (rw eq (ground arith)) h
  attempt-apply x t (roll_back scope id attempts started status previous first last error) d eq at
        free stays h =
      update_sales-Holds (λ s. is_attempt col scope id started s && s.attempt_count == attempts)
        (restored_sale status previous first last error d.time) x d (rw (eq, at) (ground arith)) h
  attempt-apply x t (remove_customer customer_id) d eq at free stays h =
      delete_customer-Holds customer_id x d stays h
  attempt-apply x t (tick time) d eq at free stays h = h

-- A sale whose e-mail was sent stays in the table unchanged through every sequence of claims, manual
-- claims, finalizations and rollbacks of any clients, of direct finalizations that expect another
-- status than SENT, and of deletions of other customers.
pub sent_sale_stays :
    (col : Collation) (x : Sale) (os : List SaleOperation) (d : SaleDb)
    → x.status ≡ sent
    → All (λ o. spares sent o ≡ true) os
    → All (λ o. keeps_customer x.customer_id o ≡ true) os
    → Holds x d
    → Holds x (run_sale_operations col os d)
sent_sale_stays col x [] d eq free stays h = h
sent_sale_stays col x (o ∷ os) d eq free stays h =
    sent_sale_stays col x os (apply_sale_operation col o d) eq free.1 stays.1
      (sent-apply col x o d eq free.0 stays.0 h)

-- While an attempt runs, no claim takes its sale, and no finalization or rollback of an attempt with
-- another start changes it, whatever their order; a direct finalization is excluded only where it
-- expects IN_PROGRESS, and a deletion only where it is of the customer of the sale.
pub attempt_stays :
    (col : Collation) (x : Sale) (t : Text) (os : List SaleOperation) (d : SaleDb)
    → x.status ≡ in_progress
    → x.last_attempt_at ≡ some t
    → All (λ o. is_other_attempt t o ≡ true) os
    → All (λ o. keeps_customer x.customer_id o ≡ true) os
    → Holds x d
    → Holds x (run_sale_operations col os d)
attempt_stays col x t [] d eq at free stays h = h
attempt_stays col x t (o ∷ os) d eq at free stays h =
    attempt_stays col x t os (apply_sale_operation col o d) eq at free.1 stays.1
      (attempt-apply col x t o d eq at free.0 stays.0 h)
