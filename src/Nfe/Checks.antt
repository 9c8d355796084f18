-- ===== src/Nfe/Checks.antt =====
-- The CHECK constraints of the table of sales against the writes of
-- src/infra/system-db/nfe-email-dispatch/workflow.repository.ts: the values that validation.ts lets
-- through never break them.
use automation_server_net.Base.{
  ℕ, ◌≡◌, refl, Bool, true, false, ◌&&◌, ◌||◌, Option, some, none, List, [], ◌∷◌, ◌==◌, every,
  arith, is_some, update_where, count_where, ltb,
}
use automation_server_net.Js.Text.{Text}
use automation_server_net.Integration.{Result, ok, raise, ◌>>=◌}
use automation_server_net.Idempotency.Table.{Collation}
use automation_server_net.Nfe.Sale.{
  SaleStatus, pending, in_progress, sent, failed_transient, failed_final, delivery_unknown, Sale,
  SaleDb, is_in_progress, is_sent, status_eq, meets_checks,
}
use automation_server_net.Nfe.DateTime.{Dates, DateInput, normalize_date_time3}
use automation_server_net.Nfe.Validation.{normalize_final_status, normalize_optional_sent_at}
use automation_server_net.Nfe.Statements.{
  update_sales, is_sale, is_attempt, is_eligible, is_claimable, claimed_sale, finalized_sale,
  direct_sale, claim_update, claim_manual_update, finalize_update, direct_update,
}

every-update_where :
    (p : Sale → Bool) (f : Sale → Sale) (sales : List Sale)
    → ((s : Sale) → meets_checks s ≡ true → p s ≡ true → meets_checks (f s) ≡ true)
    → every meets_checks sales ≡ true
    → every meets_checks (update_where p f sales) ≡ true
every-update_where p f [] step h = refl
every-update_where p f (s ∷ ss) step h =
    ground (arith, every-update_where p f ss step (ground arith), step s (ground arith))

update_sales-ok :
    (p : Sale → Bool) (f : Sale → Sale) (d : SaleDb)
    → ((s : Sale) → meets_checks s ≡ true → p s ≡ true → meets_checks (f s) ≡ true)
    → every meets_checks d.sales ≡ true
    → (update_sales p f d).0 ≡ ok (count_where p d.sales)
update_sales-ok p f d step h = rw (every-update_where p f d.sales step h)

eligible_unsent :
    (max n : ℕ) (x : SaleStatus)
    → (status_eq pending x || (status_eq failed_transient x && ltb n max)) ≡ true
    → is_sent x ≡ false
eligible_unsent max n pending e = refl
eligible_unsent max n in_progress e = refl
eligible_unsent max n sent e = ground arith
eligible_unsent max n failed_transient e = refl
eligible_unsent max n failed_final e = refl
eligible_unsent max n delivery_unknown e = refl

claimable_unsent : (x : SaleStatus) → is_claimable x ≡ true → is_sent x ≡ false
claimable_unsent pending e = refl
claimable_unsent in_progress e = refl
claimable_unsent sent e = ground arith
claimable_unsent failed_transient e = refl
claimable_unsent failed_final e = refl
claimable_unsent delivery_unknown e = refl

claimed-checks :
    (started time : Text) (s : Sale)
    → meets_checks s ≡ true
    → is_sent s.status ≡ false
    → meets_checks (claimed_sale started time s) ≡ true
claimed-checks started time s good unsent = ground arith

-- On a table that meets its CHECK constraints neither of the two claims breaks one: each reports how many
-- rows its condition selects. The ranges of the columns are no part of this.
pub claims_meet_checks :
    (col : Collation) (scope : Text) (id : ℕ) (started : Text) (max : ℕ) (d : SaleDb)
    → every meets_checks d.sales ≡ true
    → ((claim_update col scope id started max d).0
        ≡ ok (count_where (λ s. is_sale col scope id s && is_eligible max s) d.sales))
      × ((claim_manual_update col scope id started d).0
          ≡ ok (count_where (λ s. is_sale col scope id s && is_claimable s.status) d.sales))
unfolding claim_update claim_manual_update
claims_meet_checks col scope id started max d h = (
  update_sales-ok (λ s. is_sale col scope id s && is_eligible max s) (claimed_sale started d.time) d
      (λ s good e.
        claimed-checks started d.time s good
          (eligible_unsent max s.attempt_count s.status (ground arith)))
      h,
  update_sales-ok (λ s. is_sale col scope id s && is_claimable s.status)
      (claimed_sale started d.time) d
      (λ s good e. claimed-checks started d.time s good (claimable_unsent s.status (ground arith)))
      h,
)

final_not_running :
    (asked status : SaleStatus)
    → normalize_final_status asked ≡ ok status
    → is_in_progress status ≡ false
unfolding normalize_final_status
final_not_running pending status e = ground (arith, e)
final_not_running in_progress status e = ground (arith, e)
final_not_running sent status e = ground (arith, e)
final_not_running failed_transient status e = ground (arith, e)
final_not_running failed_final status e = ground (arith, e)
final_not_running delivery_unknown status e = ground (arith, e)

some_time :
    (r : Result Text) (sent_at : Option Text)
    → (r >>= λ t. ok (some t)) ≡ ok sent_at
    → is_some sent_at ≡ true
some_time (ok t) sent_at e = ground (arith, e)
some_time (raise f) sent_at e = ground (arith, e)

sent_at_agrees :
    (dates : Dates) (status : SaleStatus) (value : Option DateInput) (sent_at : Option Text)
    → normalize_optional_sent_at dates status value ≡ ok sent_at
    → is_some sent_at ≡ is_sent status
unfolding normalize_optional_sent_at
sent_at_agrees dates status value sent_at f = go (is_sent status) value refl f
  where
    go :
        (b : Bool) (v : Option DateInput)
        → is_sent status ≡ b
        → normalize_optional_sent_at dates status v ≡ ok sent_at
        → is_some sent_at ≡ is_sent status
    go true none e f = ground (arith, rw e at f)
    go true (some v) e f = rw e (some_time (normalize_date_time3 dates v) sent_at (rw e at f))
    go false none e f = ground (arith, rw e at f)
    go false (some v) e f = ground (arith, rw e at f)

ended-checks :
    (status : SaleStatus) (sent_at : Option Text) (s : Sale)
    → is_in_progress status ≡ false
    → is_some sent_at ≡ is_sent status
    → s.status ≡ status
    → s.sent_at ≡ sent_at
    → meets_checks s ≡ true
ended-checks status sent_at s over agrees e f = rw (e, f) (ground arith)

-- On a table that meets the constraints, a final status and a time of sending that the validation
-- lets through are never refused by the database, neither in the finalization of an attempt nor in
-- the direct one: each reports how many rows its condition selects.
pub finalizations_meet_checks :
    (col : Collation) (dates : Dates) (scope : Text) (id : ℕ) (started : Text)
    (expected : SaleStatus) (attempts : ℕ) (asked status : SaleStatus) (value : Option DateInput)
    (sent_at error : Option Text) (d : SaleDb)
    → normalize_final_status asked ≡ ok status
    → normalize_optional_sent_at dates status value ≡ ok sent_at
    → every meets_checks d.sales ≡ true
    → ((finalize_update col scope id started status sent_at error d).0
        ≡ ok (count_where (is_attempt col scope id started) d.sales))
      × ((direct_update col scope id expected attempts started status sent_at error d).0
          ≡ ok (
              count_where
                (λ s.
                  is_sale col scope id s
                  && (status_eq expected s.status && s.attempt_count == attempts))
                d.sales))
unfolding finalize_update direct_update
finalizations_meet_checks col dates scope id started expected attempts asked status value sent_at
      error d e f h =
    let over = final_not_running asked status e in
    let agrees = sent_at_agrees dates status value sent_at f in
    (
      update_sales-ok (is_attempt col scope id started) (finalized_sale status sent_at error d.time)
          d
          (λ s good x.
            ended-checks status sent_at (finalized_sale status sent_at error d.time s) over agrees
              refl refl)
          h,
      update_sales-ok
          (λ s.
            is_sale col scope id s && (status_eq expected s.status && s.attempt_count == attempts))
          (direct_sale started status sent_at error d.time) d
          (λ s good x.
            ended-checks status sent_at (direct_sale started status sent_at error d.time s) over
              agrees refl refl)
          h,
    )
