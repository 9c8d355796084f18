-- ===== src/Nfe/ManualActivities/Tests.antt =====
-- A recovery of an attempt that was recorded as sent: data and an example.
use automation_server_net.Base.{◌≡◌, refl, none, some, [], ◌∷◌, true, inl, arith}
use automation_server_net.Js.Text.{
  Text, codes, text_eq, text_eq_refl, text_eq_sound, trim, is_white_space,
}
use automation_server_net.Integration.{ok}
use automation_server_net.Session.{Session, quiet}
use automation_server_net.Idempotency.Table.{Collation}
use automation_server_net.RuntimePolicy.{normalize_automation_runtime_scope}
use automation_server_net.Nfe.Sale.{sent, failed_transient, Sale, SaleDb}
use automation_server_net.Nfe.Statements.{is_sale}
use automation_server_net.Nfe.DateTime.{
  UtcFields, Dates, text, normalize_date_time3, normalize_text_date_time, simple_date_time,
}
use automation_server_net.Nfe.ManualActivities.{
  require_text, manual_recovery_invalid_attempt_started_at, recover_manual_sale_activity,
}
use automation_server_net.Nfe.ManualActivities.Truth.{
  recovery, told, recover_manual_sale_activity_of_sent,
}

abbrev exact : Collation
exact = record {
  same = text_eq;
  same_refl = text_eq_refl;
  same_sym = λ s t e. rw (text_eq_sound s t e) (text_eq_refl t);
  same_trans = λ s t u e f. rw (text_eq_sound s t e) f;
}

abbrev simple_dates : Dates
simple_dates = record { parse = λ s. none }

abbrev noon : Text
noon = codes "2026-05-04 12:00:00.000"

abbrev sent_sale : Sale
sent_sale = record {
  id = 8;
  customer_id = 1;
  runtime_scope = codes "production";
  erp_sale_id = 70;
  erp_invoice_key = none;
  erp_invoice_emitted_at = noon;
  status = sent;
  attempt_count = 1;
  first_attempt_at = some noon;
  last_attempt_at = some noon;
  sent_at = some noon;
  last_error_message = none;
  created_at = noon;
  updated_at = noon;
}

abbrev begin : Session SaleDb
begin = record {
  db = record {
    sales = sent_sale ∷ [];
    customers = record { id = 1; erp_customer_id = 10 } ∷ [];
    time = noon;
  };
  queries = 0;
}

abbrev now : UtcFields
now = record { year = 2026; month = 4; day = 4; hour = 12; minute = 0; second = 0; millisecond = 0 }

noon_given : require_text manual_recovery_invalid_attempt_started_at noon ≡ ok noon
unfolding trim is_white_space
noon_given = refl

production_given :
    normalize_automation_runtime_scope (some (codes "production")) ≡ ok (codes "production")
unfolding normalize_automation_runtime_scope trim is_white_space text_eq
production_given = refl

starting_time : normalize_date_time3 simple_dates (text noon) ≡ ok noon
unfolding normalize_date_time3 normalize_text_date_time simple_date_time trim is_white_space
starting_time = refl

sent_sale-is_sale : is_sale exact (codes "production") 8 sent_sale ≡ true
unfolding text_eq
sent_sale-is_sale = refl

recover_manual_sale_activity_of_sent_example :
    (recover_manual_sale_activity exact simple_dates now
      (recovery sent_sale failed_transient noon none (some (codes "production")))
      (quiet 100)
      begin).0
    ≡ ok (told sent_sale noon)
recover_manual_sale_activity_of_sent_example =
    recover_manual_sale_activity_of_sent exact simple_dates (quiet 100) sent_sale
      (codes "production") noon now failed_transient noon noon noon none (some (codes "production"))
      begin (λ n. refl) (λ n d alone. alone) refl refl refl sent_sale-is_sale
      (omega arith, omega arith) (omega arith, omega arith) refl production_given noon_given
      starting_time (inl refl, (λ same. refl, tt), refl)
