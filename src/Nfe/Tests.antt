-- ===== src/Nfe/Tests.antt =====
-- A table of two sales, of which one is being sent: data and examples.
use automation_server_net.Base.{
  ◌≡◌, refl, inl, inr, true, ◌&&◌, none, some, List, [], ◌∷◌, ◌==◌, count_where,
}
use automation_server_net.Js.Text.{
  Text, codes, text_eq, text_eq_refl, text_eq_sound, trim, is_white_space,
}
use automation_server_net.Integration.{ok}
use automation_server_net.Session.{quiet}
use automation_server_net.Idempotency.Table.{Collation}
use automation_server_net.RuntimePolicy.{normalize_automation_runtime_scope}
use automation_server_net.Nfe.Sale.{
  in_progress, sent, failed_transient, failed_final, Sale, SaleDb, status_eq,
}
use automation_server_net.Base.{◌↔◌, ◌<◌, ◌≤◌, arith}
use automation_server_net.Nfe.DateTime.{
  UtcFields, Dates, text, normalize_date_time3, normalize_text_date_time, simple_date_time,
}
use automation_server_net.Nfe.Validation.{
  normalize_final_status, normalize_optional_sent_at, normalize_runtime_scope,
  normalize_optional_error_message,
}
use automation_server_net.Nfe.Statements.{
  is_sale, is_attempt, is_eligible, is_claimable, finalized_sale, claim_update, claim_manual_update,
  finalize_update, direct_update,
}
use automation_server_net.Nfe.Repository.{FinalizeSaleInput, finalize_sale}
use automation_server_net.Nfe.Activities.{
  finalize_sale_activity, resolve_effective_final_status, require_started_at,
}
use automation_server_net.Base.{◌≤◌, All}
use automation_server_net.Js.Number.{whole}
use automation_server_net.Nfe.Validation.{
  normalize_positive_integer, normalize_positive_integers, normalize_positive_integer_list,
}
use automation_server_net.Nfe.Bounds.{IsId, Unique, normalize_positive_integer_list-Unique}
use automation_server_net.Nfe.Retry.{eligible_after_finalization}
use automation_server_net.Nfe.Confirmation.{attempt_input, finalize_sale_activity_again}
use automation_server_net.Nfe.Operations.{
  SaleOperation, claim, claim_manual, finalize, remove_customer, Holds, run_sale_operations,
}
use automation_server_net.Nfe.Attempts.{attempt_stays, sent_sale_stays}
use automation_server_net.Nfe.Checks.{claims_meet_checks, finalizations_meet_checks}
use automation_server_net.Nfe.Finalization.{Colleagues, finalize_sale-Ends, Ends}

abbrev exact : Collation
exact = record {
  same = text_eq;
  same_refl = text_eq_refl;
  same_sym = λ s t e. rw (text_eq_sound s t e) (text_eq_refl t);
  same_trans = λ s t u e f. rw (text_eq_sound s t e) f;
}

-- no text but the simple ones is a date
abbrev simple_dates : Dates
simple_dates = record { parse = λ s. none }

abbrev noon : Text
noon = codes "2026-05-04 12:00:00.000"

abbrev later : Text
later = codes "2026-05-04 13:00:00.000"

abbrev running_sale : Sale
running_sale = record {
  id = 7;
  customer_id = 1;
  runtime_scope = codes "production";
  erp_sale_id = 70;
  erp_invoice_key = none;
  erp_invoice_emitted_at = noon;
  status = in_progress;
  attempt_count = 1;
  first_attempt_at = some noon;
  last_attempt_at = some noon;
  sent_at = none;
  last_error_message = none;
  created_at = noon;
  updated_at = noon;
}

abbrev sent_sale : Sale
sent_sale = record running_sale { id = 8; status = sent; sent_at = some noon }

abbrev two_sales : SaleDb
two_sales = record {
  sales = running_sale ∷ sent_sale ∷ [];
  customers = record { id = 1; erp_customer_id = 10 } ∷ [];
  time = later;
}

-- Another attempt comes too late for the sale that runs and for the one that was sent.
abbrev others : List SaleOperation
others =
    claim (codes "production") 7 later 3
    ∷ claim_manual (codes "production") 8 later
    ∷ finalize (codes "production") 7 later failed_transient none none
    ∷ remove_customer 2
    ∷ []

attempt_stays_example : Holds running_sale (run_sale_operations exact others two_sales)
unfolding text_eq
attempt_stays_example =
    attempt_stays exact running_sale noon others two_sales refl refl
      (refl, (refl, (refl, (refl, tt)))) (refl, (refl, (refl, (refl, tt)))) (inl refl)

sent_sale_stays_example : Holds sent_sale (run_sale_operations exact others two_sales)
sent_sale_stays_example =
    sent_sale_stays exact sent_sale others two_sales refl (refl, (refl, (refl, (refl, tt))))
      (refl, (refl, (refl, (refl, tt)))) (inr (inl refl))

claims_meet_checks_example :
    ((claim_update exact (codes "production") 7 later 3 two_sales).0
      ≡ ok (
          count_where
            (λ s. is_sale exact (codes "production") 7 s && is_eligible 3 s)
            two_sales.sales))
    × ((claim_manual_update exact (codes "production") 7 later two_sales).0
        ≡ ok (
            count_where
              (λ s. is_sale exact (codes "production") 7 s && is_claimable s.status)
              two_sales.sales))
claims_meet_checks_example = claims_meet_checks exact (codes "production") 7 later 3 two_sales refl

sending_time : normalize_optional_sent_at simple_dates sent (some (text later)) ≡ ok (some later)
unfolding normalize_optional_sent_at normalize_date_time3 normalize_text_date_time simple_date_time
    trim is_white_space
sending_time = refl

final_sent : normalize_final_status sent ≡ ok sent
unfolding normalize_final_status
final_sent = refl

finalizations_meet_checks_example :
    ((finalize_update exact (codes "production") 7 noon sent (some later) none two_sales).0
      ≡ ok (count_where (is_attempt exact (codes "production") 7 noon) two_sales.sales))
    × ((direct_update exact
          (codes "production")
          7
          in_progress
          1
          noon
          sent
          (some later)
          none
          two_sales).0
        ≡ ok (
            count_where
              (λ s.
                is_sale exact (codes "production") 7 s
                && (status_eq in_progress s.status && s.attempt_count == 1))
              two_sales.sales))
finalizations_meet_checks_example =
    finalizations_meet_checks exact simple_dates (codes "production") 7 noon in_progress 1 sent sent
      (some (text later)) (some later) none two_sales final_sent sending_time refl

abbrev finalize_input : FinalizeSaleInput
finalize_input = record {
  sale_id = 7;
  attempt_started_at = text noon;
  final_status = sent;
  runtime_scope = codes "production";
  error_message = none;
  sent_at = some (text later);
}

nobody : Colleagues exact (quiet 100) noon 1
nobody = record {
  operations = λ n d. [];
  are_apart = λ n d. tt;
  keep_customer = λ n d. tt;
  spare_sent = λ n d. tt;
  are_run = λ n d. refl;
}

starting_time : normalize_date_time3 simple_dates (text noon) ≡ ok noon
unfolding normalize_date_time3 normalize_text_date_time simple_date_time trim is_white_space
starting_time = refl

production_scope : normalize_runtime_scope (codes "production") ≡ ok (codes "production")
unfolding normalize_runtime_scope normalize_automation_runtime_scope trim is_white_space text_eq
production_scope = refl

running_sale-is_sale : is_sale exact (codes "production") 7 running_sale ≡ true
unfolding text_eq
running_sale-is_sale = refl

finalize_sale-Ends_example :
    Ends exact simple_dates finalize_input
      (quiet 100)
      (record { db = two_sales; queries = 0 })
      running_sale
      (codes "production")
      noon
      (some later)
      (finalize_sale exact simple_dates finalize_input
        (quiet 100)
        (record { db = two_sales; queries = 0 }))
finalize_sale-Ends_example =
    finalize_sale-Ends exact simple_dates finalize_input (quiet 100)
      (record { db = two_sales; queries = 0 }) running_sale (codes "production") noon (some later)
      nobody refl starting_time sending_time production_scope running_sale-is_sale refl refl refl
      (inl refl) refl

-- A sale whose only attempt failed.
eligible_after_finalization_example :
    let after =
      finalized_sale
        (resolve_effective_final_status failed_transient 1 1)
        none
        none
        later
        running_sale in
    ((is_eligible 1 after ≡ true) ↔ ((failed_transient ≡ failed_transient) × (1 < 1)))
    × (after.status ≡ failed_transient → is_eligible 1 after ≡ true)
    × (failed_transient ≡ failed_transient → 1 ≤ 1 → after.status ≡ failed_final)
eligible_after_finalization_example =
    eligible_after_finalization failed_transient 1 running_sale none none later refl

abbrev sent_table : SaleDb
sent_table = record {
  sales = sent_sale ∷ [];
  customers = record { id = 1; erp_customer_id = 10 } ∷ [];
  time = later;
}

abbrev now : UtcFields
now = record { year = 2026; month = 4; day = 4; hour = 14; minute = 0; second = 0; millisecond = 0 }

noon_started : require_started_at (codes "2026-05-04 12:00:00.000") ≡ ok noon
unfolding trim is_white_space
noon_started = refl

production_given :
    normalize_automation_runtime_scope (some (codes "production")) ≡ ok (codes "production")
unfolding normalize_automation_runtime_scope trim is_white_space text_eq
production_given = refl

sent_sale-is_sale : is_sale exact (codes "production") 8 sent_sale ≡ true
unfolding text_eq
sent_sale-is_sale = refl

finalize_sale_activity_again_example :
    (finalize_sale_activity exact simple_dates now later
      (attempt_input sent_sale 1 3 noon none (some (codes "production")))
      (quiet 100)
      (record { db = sent_table; queries = 0 })).0
    ≡ ok (record {
      sale_id = 8;
      status = sent;
      attempt_count = 1;
      error_message = normalize_optional_error_message none;
      sent_at = some noon;
    })
finalize_sale_activity_again_example =
    finalize_sale_activity_again exact simple_dates (quiet 100) sent_sale (codes "production") noon
      now later 1 3 noon noon noon none (some (codes "production"))
      (record { db = sent_table; queries = 0 }) (λ n. refl) (λ n d alone. alone) refl refl
      sent_sale-is_sale (omega arith, omega arith) (omega arith, omega arith, omega arith)
      production_given noon_started starting_time (inl refl, (λ same. refl, tt), refl)

three_ids : normalize_positive_integer_list (whole 3 ∷ whole 3 ∷ whole 5 ∷ []) ≡ ok (3 ∷ 5 ∷ [])
unfolding normalize_positive_integer_list normalize_positive_integers normalize_positive_integer
three_ids = refl

normalize_positive_integer_list-Unique_example : All IsId (3 ∷ 5 ∷ []) × Unique (3 ∷ 5 ∷ [])
normalize_positive_integer_list-Unique_example =
    normalize_positive_integer_list-Unique (whole 3 ∷ whole 3 ∷ whole 5 ∷ []) (3 ∷ 5 ∷ []) three_ids
