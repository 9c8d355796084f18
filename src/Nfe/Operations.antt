-- ===== src/Nfe/Operations.antt =====
-- The five writes of src/infra/system-db/nfe-email-dispatch/workflow.repository.ts and the deletion of
-- customer.repository.ts, which takes the sales of the customer with it, as steps of clients on one
-- table, in any order.
use automation_server_net.Base.{
  ℕ, ◌≡◌, refl, Bool, true, false, Option, List, [], ◌∷◌, inl, inr, every, Any, change,
  update_where, not, ◌==◌, Bool-cases, arith,
}
use automation_server_net.Js.Text.{Text, text_eq}
use automation_server_net.Idempotency.Table.{Collation}
use automation_server_net.Nfe.Sale.{SaleStatus, in_progress, Sale, SaleDb, status_eq, meets_checks}
use automation_server_net.Nfe.Statements.{
  update_sales, claim_update, claim_manual_update, finalize_update, direct_update, rollback_update,
  without_sales_of, delete_customer,
}

pub data SaleOperation : Type 0 where
  claim : (scope : Text) (id : ℕ) (started : Text) (max : ℕ) → SaleOperation
  claim_manual : (scope : Text) (id : ℕ) (started : Text) → SaleOperation
  finalize :
      (scope : Text) (id : ℕ) (started : Text) (status : SaleStatus) (sent_at error : Option Text)
      → SaleOperation
  finalize_direct :
      (scope : Text) (id : ℕ) (expected : SaleStatus) (attempts : ℕ) (started : Text)
      (status : SaleStatus) (sent_at error : Option Text)
      → SaleOperation
  roll_back :
      (scope : Text) (id attempts : ℕ) (started : Text) (status : SaleStatus) (previous : ℕ)
      (first last error : Option Text)
      → SaleOperation
  -- the deletion of a customer, with its sales
  remove_customer : (customer_id : ℕ) → SaleOperation
  -- the clock of the database
  tick : (time : Text) → SaleOperation

-- The operation is no direct finalization that takes the sale from the status `x`.
abbrev pub spares : SaleStatus → SaleOperation → Bool
spares x (claim scope id started max) = true
spares x (claim_manual scope id started) = true
spares x (finalize scope id started status sent_at error) = true
spares x (finalize_direct scope id expected attempts started status sent_at error) =
    not (status_eq expected x)
spares x (roll_back scope id attempts started status previous first last error) = true
spares x (remove_customer customer_id) = true
spares x (tick time) = true

-- The operation ends no attempt that started at `t`.
abbrev pub is_other_attempt : Text → SaleOperation → Bool
is_other_attempt t (claim scope id started max) = true
is_other_attempt t (claim_manual scope id started) = true
is_other_attempt t (finalize scope id started status sent_at error) = not (text_eq t started)
is_other_attempt t (finalize_direct scope id expected attempts started status sent_at error) =
    not (status_eq expected in_progress)
is_other_attempt t (roll_back scope id attempts started status previous first last error) =
    not (text_eq t started)
is_other_attempt t (remove_customer customer_id) = true
is_other_attempt t (tick time) = true

-- The operation does not delete the customer `c`.
abbrev pub keeps_customer : ℕ → SaleOperation → Bool
keeps_customer c (claim scope id started max) = true
keeps_customer c (claim_manual scope id started) = true
keeps_customer c (finalize scope id started status sent_at error) = true
keeps_customer c (finalize_direct scope id expected attempts started status sent_at error) = true
keeps_customer c (roll_back scope id attempts started status previous first last error) = true
keeps_customer c (remove_customer customer_id) = not (c == customer_id)
keeps_customer c (tick time) = true

module _ (col : Collation) where
  unfoldable pub apply_sale_operation : SaleOperation → SaleDb → SaleDb
  apply_sale_operation (claim scope id started max) d = (claim_update col scope id started max d).1
  apply_sale_operation (claim_manual scope id started) d =
      (claim_manual_update col scope id started d).1
  apply_sale_operation (finalize scope id started status sent_at error) d =
      (finalize_update col scope id started status sent_at error d).1
  apply_sale_operation (finalize_direct scope id expected attempts started status sent_at error) d =
      (direct_update col scope id expected attempts started status sent_at error d).1
  apply_sale_operation (roll_back scope id attempts started status previous first last error) d =
      (rollback_update col scope id attempts started status previous first last error d).1
  apply_sale_operation (remove_customer customer_id) d = delete_customer customer_id d
  apply_sale_operation (tick time) d = record d { time = time }

  abbrev pub run_sale_operations : List SaleOperation → SaleDb → SaleDb
  run_sale_operations [] d = d
  run_sale_operations (o ∷ os) d = run_sale_operations os (apply_sale_operation o d)

-- The table holds the row.
abbrev pub Holds : Sale → SaleDb → Type 0
Holds x d = Any (λ s. s ≡ x) d.sales

-- A row stays where it is if the `WHERE` does not select it.
change_other : (p : Sale → Bool) (f : Sale → Sale) (s : Sale) → p s ≡ false → change p f s ≡ s
change_other p f s h = rw (change, h)

update_where-Any :
    (p : Sale → Bool) (f : Sale → Sale) (x : Sale) (sales : List Sale)
    → p x ≡ false
    → Any (λ s. s ≡ x) sales
    → Any (λ s. s ≡ x) (update_where p f sales)
update_where-Any p f x [] other h = elim h [ ]
update_where-Any p f x (s ∷ ss) other (inl h) = inl (cc (h, change_other p f x other))
update_where-Any p f x (s ∷ ss) other (inr h) = inr (update_where-Any p f x ss other h)

pub update_sales-Holds :
    (p : Sale → Bool) (f : Sale → Sale) (x : Sale) (d : SaleDb)
    → p x ≡ false
    → Holds x d
    → Holds x (update_sales p f d).1
update_sales-Holds p f x d other h = go (every meets_checks (update_where p f d.sales)) refl
  where
    go :
        (b : Bool)
        → every meets_checks (update_where p f d.sales) ≡ b
        → Holds x (update_sales p f d).1
    go true e = rw e (update_where-Any p f x d.sales other h)
    go false e = rw e h

without_sales_of-Any :
    (c : ℕ) (x : Sale) (sales : List Sale)
    → not (x.customer_id == c) ≡ true
    → Any (λ s. s ≡ x) sales
    → Any (λ s. s ≡ x) (without_sales_of c sales)
without_sales_of-Any c x [] e h = elim h [ ]
without_sales_of-Any c x (s ∷ ss) e (inl h) =
    let kept : (s.customer_id == c) ≡ false = rw h (ground (arith, e)) in rw kept (inl h)
without_sales_of-Any c x (s ∷ ss) e (inr h) = elim (Bool-cases (s.customer_id == c)) [
  | inl dropped ↦ rw dropped (without_sales_of-Any c x ss e h)
  | inr kept ↦ rw kept (inr (without_sales_of-Any c x ss e h))
]

-- The sales of other customers stay.
pub delete_customer-Holds :
    (customer_id : ℕ) (x : Sale) (d : SaleDb)
    → not (x.customer_id == customer_id) ≡ true
    → Holds x d
    → Holds x (delete_customer customer_id d)
unfolding delete_customer
delete_customer-Holds customer_id x d other h = without_sales_of-Any customer_id x d.sales other h

every-without_sales_of :
    (q : Sale → Bool) (c : ℕ) (sales : List Sale)
    → every q sales ≡ true
    → every q (without_sales_of c sales) ≡ true
every-without_sales_of q c [] h = refl
every-without_sales_of q c (s ∷ ss) h = elim (Bool-cases (s.customer_id == c)) [
  | inl dropped ↦ rw dropped (every-without_sales_of q c ss (ground (arith, h)))
  | inr kept ↦ rw kept (ground (arith, h, every-without_sales_of q c ss (ground (arith, h))))
]

pub delete_customer-checks :
    (customer_id : ℕ) (d : SaleDb)
    → every meets_checks d.sales ≡ true
    → every meets_checks (delete_customer customer_id d).sales ≡ true
unfolding delete_customer
delete_customer-checks customer_id d h = every-without_sales_of meets_checks customer_id d.sales h
