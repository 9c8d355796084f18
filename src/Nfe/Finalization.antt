-- ===== src/Nfe/Finalization.antt =====
-- `finalizeNfeEmailDispatchSale` among other clients of the table.
use automation_server_net.Base.{
  ℕ, ◌≡◌, refl, Bool, true, false, ◌&&◌, Option, some, none, List, [], ◌∷◌, inl, inr, ◌==◌, every,
  All, Any, arith, change, update_where, count_where,
}
use automation_server_net.Js.Text.{Text, text_eq_refl}
use automation_server_net.Integration.{Result, ok, raise}
use automation_server_net.Session.{Environment, Session, lift, resume, bind_statement, bind_lift}
use automation_server_net.Idempotency.Table.{Collation}
use automation_server_net.Nfe.Sale.{in_progress, sent, Sale, SaleDb, status_eq, meets_checks}
use automation_server_net.Nfe.DateTime.{Dates, normalize_date_time3}
use automation_server_net.Nfe.Validation.{
  normalize_final_status, normalize_optional_sent_at, normalize_optional_error_message,
  normalize_runtime_scope,
}
use automation_server_net.Nfe.Statements.{
  update_sales, is_sale, is_attempt, is_eligible, is_claimable, claimed_sale, direct_sale,
  restored_sale, finalized_sale, finalize_update, claim_update, claim_manual_update, direct_update,
  rollback_update, select_sale,
}
use automation_server_net.Nfe.Rows.{Snapshot, FinalizeResult, finalized, noop}
use automation_server_net.Nfe.Repository.{
  FinalizeSaleInput, finalize_sale, find_sale_status, finalize_outcome,
}
use automation_server_net.Nfe.Operations.{
  SaleOperation, claim, claim_manual, finalize, finalize_direct, roll_back, remove_customer, tick,
  spares, keeps_customer, delete_customer-checks, is_other_attempt, apply_sale_operation,
  run_sale_operations, Holds,
}
use automation_server_net.Nfe.Attempts.{sent_sale_stays, attempt_stays}
use automation_server_net.Nfe.Checks.{finalizations_meet_checks}

-- Every write keeps the CHECK constraints.
update_sales-checks :
    (p : Sale → Bool) (f : Sale → Sale) (d : SaleDb)
    → every meets_checks d.sales ≡ true
    → every meets_checks (update_sales p f d).1.sales ≡ true
update_sales-checks p f d h = go (every meets_checks (update_where p f d.sales)) refl
  where
    go :
        (b : Bool)
        → every meets_checks (update_where p f d.sales) ≡ b
        → every meets_checks (update_sales p f d).1.sales ≡ true
    go true e = rw e e
    go false e = rw e h

module _ (col : Collation) where
  apply-checks :
      (o : SaleOperation) (d : SaleDb)
      → every meets_checks d.sales ≡ true
      → every meets_checks (apply_sale_operation col o d).sales ≡ true
  unfolding apply_sale_operation claim_update claim_manual_update finalize_update direct_update
      rollback_update
  apply-checks (claim scope id started max) d h =
      update_sales-checks (λ s. is_sale col scope id s && is_eligible max s)
        (claimed_sale started d.time) d h
  apply-checks (claim_manual scope id started) d h =
      update_sales-checks (λ s. is_sale col scope id s && is_claimable s.status)
        (claimed_sale started d.time) d h
  apply-checks (finalize scope id started status sent_at error) d h =
      update_sales-checks (is_attempt col scope id started)
        (finalized_sale status sent_at error d.time) d h
  apply-checks (finalize_direct scope id expected attempts started status sent_at error) d h =
      update_sales-checks
        (λ s.
          is_sale col scope id s && (status_eq expected s.status && s.attempt_count == attempts))
        (direct_sale started status sent_at error d.time) d h
  apply-checks (roll_back scope id attempts started status previous first last error) d h =
      update_sales-checks (λ s. is_attempt col scope id started s && s.attempt_count == attempts)
        (restored_sale status previous first last error d.time) d h
  apply-checks (remove_customer customer_id) d h = delete_customer-checks customer_id d h
  apply-checks (tick time) d h = h

  run-checks :
      (os : List SaleOperation) (d : SaleDb)
      → every meets_checks d.sales ≡ true
      → every meets_checks (run_sale_operations col os d).sales ≡ true
  run-checks [] d h = h
  run-checks (o ∷ os) d h = run-checks os (apply_sale_operation col o d) (apply-checks o d h)

-- What other clients do before each query: writes of other attempts, no direct finalization of a sale
-- that runs or was sent, and no deletion of the customer.
pub record Colleagues (col : Collation) (env : Environment SaleDb) (started : Text) (customer : ℕ)
    : Type 0 where
  pub operations : ℕ → SaleDb → List SaleOperation
  pub are_apart :
      (n : ℕ) (d : SaleDb) → All (λ o. is_other_attempt started o ≡ true) (operations n d)
  pub keep_customer :
      (n : ℕ) (d : SaleDb) → All (λ o. keeps_customer customer o ≡ true) (operations n d)
  pub spare_sent : (n : ℕ) (d : SaleDb) → All (λ o. spares sent o ≡ true) (operations n d)
  pub are_run : (n : ℕ) (d : SaleDb) → env.before n d ≡ run_sale_operations col (operations n d) d

update_where-Any :
    (p : Sale → Bool) (f : Sale → Sale) (x : Sale) (sales : List Sale)
    → p x ≡ true
    → Any (λ s. s ≡ x) sales
    → Any (λ s. s ≡ f x) (update_where p f sales)
update_where-Any p f x [] e h = elim h [ ]
update_where-Any p f x (s ∷ ss) e (inl h) = inl (rw h (rw (change, e)))
update_where-Any p f x (s ∷ ss) e (inr h) = inr (update_where-Any p f x ss e h)

update_sales-Any :
    (p : Sale → Bool) (f : Sale → Sale) (x : Sale) (d : SaleDb) (n : ℕ)
    → p x ≡ true
    → (update_sales p f d).0 ≡ ok n
    → Holds x d
    → Holds (f x) (update_sales p f d).1
update_sales-Any p f x d n e done h = go (every meets_checks (update_where p f d.sales)) refl
  where
    go :
        (b : Bool)
        → every meets_checks (update_where p f d.sales) ≡ b
        → Holds (f x) (update_sales p f d).1
    go true c = rw c (update_where-Any p f x d.sales e h)
    go false c = absurd (ground (arith, rw c at done))

count_where-Any :
    (p : Sale → Bool) (x : Sale) (sales : List Sale)
    → p x ≡ true
    → Any (λ s. s ≡ x) sales
    → (count_where p sales == 0) ≡ false
count_where-Any p x [] e h = elim h [ ]
count_where-Any p x (s ∷ ss) e (inl h) = rw h (ground (arith, e))
count_where-Any p x (s ∷ ss) e (inr h) = ground (arith, count_where-Any p x ss e h)

module _ (col : Collation) (dates : Dates) (input : FinalizeSaleInput) (env : Environment SaleDb)
    (s : Session SaleDb) (x : Sale) (scope started : Text) (sent_at : Option Text) where
  -- the error message that is stored
  abbrev stored_error : Option Text
  stored_error = normalize_optional_error_message input.error_message

  abbrev pub IsEnded : Result FinalizeResult → Type 0
  IsEnded (ok (finalized snapshot)) = Unit
  IsEnded (ok (noop snapshot)) = ⊥
  IsEnded (raise e) = Unit

  abbrev pub Ends : Result FinalizeResult × Session SaleDb → Type 0
  Ends (r, s') =
      IsEnded r × ((time : Text) × Holds (finalized_sale sent sent_at stored_error time x) s'.db)

  outcome-IsEnded :
      (rows : ℕ) (found : Option Snapshot)
      → (rows == 0) ≡ false
      → IsEnded (finalize_outcome rows found)
  unfolding finalize_outcome
  outcome-IsEnded rows none e = rw e tt
  outcome-IsEnded rows (some snapshot) e = rw e tt

  -- the table when the UPDATE is executed
  abbrev meeting : SaleDb
  meeting = env.before s.queries s.db

  abbrev selected : Sale → Bool
  selected = is_attempt col scope input.sale_id started

  finalize_update-Holds :
      (n : ℕ)
      → selected x ≡ true
      → (finalize_update col scope input.sale_id started sent sent_at stored_error meeting).0 ≡ ok n
      → Holds x meeting
      → Holds
          (finalized_sale sent sent_at stored_error meeting.time x)
          (finalize_update col scope input.sale_id started sent sent_at stored_error meeting).1
  unfolding finalize_update
  finalize_update-Holds n e done h =
      update_sales-Any selected (finalized_sale sent sent_at stored_error meeting.time) x meeting n
        e done h

  selected-running :
      is_sale col scope input.sale_id x ≡ true
      → x.status ≡ in_progress
      → x.last_attempt_at ≡ some started
      → selected x ≡ true
  selected-running named running begun =
      rw (running, begun) (ground (arith, named, text_eq_refl started))

  module _ (colleagues : Colleagues col env started x.customer_id) where
    before-sent :
        (n : ℕ) (time : Text) (d : SaleDb)
        → Holds (finalized_sale sent sent_at stored_error time x) d
        → Holds (finalized_sale sent sent_at stored_error time x) (env.before n d)
    before-sent n time d h = rw (colleagues.are_run n d) (
        sent_sale_stays col _ (colleagues.operations n d) d refl (colleagues.spare_sent n d)
          (colleagues.keep_customer n d) h)

    meeting-Holds :
        x.status ≡ in_progress → x.last_attempt_at ≡ some started → Holds x s.db → Holds x meeting
    meeting-Holds running begun held = rw (colleagues.are_run s.queries s.db) (
        attempt_stays col x started (colleagues.operations s.queries s.db) s.db running begun
          (colleagues.are_apart s.queries s.db) (colleagues.keep_customer s.queries s.db) held)

    meeting-checks : every meets_checks s.db.sales ≡ true → every meets_checks meeting.sales ≡ true
    meeting-checks checked =
        rw (colleagues.are_run s.queries s.db)
          (run-checks col (colleagues.operations s.queries s.db) s.db checked)

    abbrev Sent : (time : Text) {A : Type 0} → Result A × Session SaleDb → Type 0
    Sent time r = Holds (finalized_sale sent sent_at stored_error time x) r.1.db

    found_status-Sent :
        (time : Text) (s' : Session SaleDb)
        → Holds (finalized_sale sent sent_at stored_error time x) s'.db
        → Sent time (find_sale_status col dates input.sale_id scope env s')
    unfolding find_sale_status
    found_status-Sent time s' h =
        bind_lift (Sent time) env s' (normalize_runtime_scope scope) _ (λ e failed. h)
          (λ normal scoped.
            bind_statement (Sent time) env s' (λ d. (select_sale col normal input.sale_id d, d)) _
              (λ e fault. before-sent s'.queries time s'.db h)
              (before-sent s'.queries time s'.db h))

    read_back :
        (rows : ℕ) (time : Text) (r : Result (Option Snapshot) × Session SaleDb)
        → (rows == 0) ≡ false
        → Sent time r
        → Ends (resume r (λ snapshot. lift (finalize_outcome rows snapshot)) env)
    read_back rows time (ok found, s') positive h = (outcome-IsEnded rows found positive, (time, h))
    read_back rows time (raise e, s') positive h = (tt, (time, h))

    -- An attempt that runs is finalized as SENT, with a time of sending. Between its queries other
    -- clients claim, finalize and roll back attempts with another start, spare running and sent sales
    -- in direct finalizations, and delete other customers; the same attempt is not finalized by another
    -- call, and the UPDATE does not fail. The call then does not report a noop, and the sale is in the
    -- table as SENT when the call ends.
    pub finalize_sale-Ends :
        input.final_status ≡ sent
        → normalize_date_time3 dates input.attempt_started_at ≡ ok started
        → normalize_optional_sent_at dates sent input.sent_at ≡ ok sent_at
        → normalize_runtime_scope input.runtime_scope ≡ ok scope
        → is_sale col scope input.sale_id x ≡ true
        → x.status ≡ in_progress
        → x.last_attempt_at ≡ some started
        → every meets_checks s.db.sales ≡ true
        → Holds x s.db
        → env.fault s.queries ≡ none
        → Ends (finalize_sale col dates input env s)
    unfolding finalize_sale normalize_final_status
    finalize_sale-Ends final at sending scoped named running begun checked held healthy =
        let present = meeting-Holds running begun held in
        let good = meeting-checks checked in
        let taken = selected-running named running begun in
        let done =
          (finalizations_meet_checks col dates scope input.sale_id started sent 0 sent sent
            input.sent_at sent_at stored_error meeting refl sending good).0 in
        let ended = finalize_update-Holds (count_where selected meeting.sales) taken done present in
        rw (final, at, sending, scoped)
          (bind_statement Ends env s
            (finalize_update col scope input.sale_id started sent sent_at stored_error) _
            (λ e fault. absurd (ground (arith, fault, healthy)))
            (rw done (
              read_back (count_where selected meeting.sales) meeting.time _
                (count_where-Any selected x meeting.sales taken present)
                (found_status-Sent meeting.time _ ended))))
