-- ===== src/Nfe/ManualActivities/Truth.antt =====
-- A recovery of a manual attempt whose sale was recorded as SENT.
use automation_server_net.Base.{ℕ, ◌≡◌, ◌<◌, ◌≤◌, ltb, ◌==◌, refl, true, Option, some, none, arith}
use automation_server_net.Js.Number.{whole, max_safe_integer}
use automation_server_net.Js.Text.{Text, text_eq_refl}
use automation_server_net.Integration.{Failure, Result, ok}
use automation_server_net.Session.{Environment, Session, caught, resume, lift}
use automation_server_net.Idempotency.Table.{Collation}
use automation_server_net.RuntimePolicy.{normalize_automation_runtime_scope}
use automation_server_net.RuntimePolicy.Scopes.{normalize_scope_idem}
use automation_server_net.Nfe.Sale.{SaleStatus, sent, is_final, Sale, SaleDb}
use automation_server_net.Nfe.DateTime.{UtcFields, Dates, text, normalize_date_time3}
use automation_server_net.Nfe.Validation.{normalize_runtime_scope, normalize_optional_error_message}
use automation_server_net.Nfe.Statements.{is_sale}
use automation_server_net.Nfe.Rows.{FinalizeResult, Snapshot, noop}
use automation_server_net.Nfe.Activities.{FinalizeActivityResult, resolve_activity_runtime_scope}
use automation_server_net.Nfe.Confirmation.{Alone, finalize_sale-noop}
use automation_server_net.Nfe.ManualActivities.{
  ManualFinalizeInput, require_text, manual_recovery_invalid_attempt_started_at,
  validate_manual_input, recovered_result, snapshot_of, recover_attempt,
  recover_manual_sale_activity,
}

ltb-positive : (n : ℕ) → 0 < n → ltb 0 n ≡ true
ltb-positive n h = ground arith

-- the input of a recovery that is to leave a sale with some status
abbrev pub recovery :
    (x : Sale) (wanted : SaleStatus) (begun : Text) (error given : Option Text)
    → ManualFinalizeInput
recovery x wanted begun error given = record {
  sale_id = whole x.id;
  attempt_started_at = begun;
  attempt_count = whole x.attempt_count;
  status = wanted;
  error_message = error;
  runtime_scope = given;
}

-- the record of a sale that was sent
abbrev pub told : Sale → (at : Text) → FinalizeActivityResult
told x at = record {
  sale_id = x.id;
  status = sent;
  attempt_count = x.attempt_count;
  error_message = x.last_error_message;
  sent_at = some at;
}

abbrev sent_snapshot : Sale → (at : Text) → Snapshot
sent_snapshot x at = record {
  sale_id = x.id;
  status = sent;
  attempt_count = x.attempt_count;
  last_attempt_at = x.last_attempt_at;
  sent_at = some at;
  last_error_message = x.last_error_message;
  updated_at = x.updated_at;
}

eqb_refl : (n : ℕ) → (n == n) ≡ true
eqb_refl n = ground arith

-- what the recovery makes of the repository's answer
recovered-told :
    (env : Environment SaleDb) (x : Sale) (at scope started : Text) (f : Failure → Failure)
    (r : Result FinalizeResult × Session SaleDb)
    → x.last_attempt_at ≡ some started
    → r.0 ≡ ok (noop (some (sent_snapshot x at)))
    → (caught f (
        resume r
          (λ result. lift (
            recovered_result (snapshot_of result) (record {
              id = x.id;
              attempts = x.attempt_count;
              started_at = started;
              scope = scope;
            })))
          env)).0
      ≡ ok (told x at)
unfolding recovered_result
recovered-told env x at scope started f (q, s) begun e =
    rw (e, eqb_refl x.attempt_count, begun, text_eq_refl started) refl

-- A recovery of the attempt of a sale that is recorded as SENT never takes it back: with whatever final
-- status it is asked to leave the sale, it succeeds and tells that the sale was sent, with the recorded
-- time of sending, if its input is valid and has the count and the start of the row, no query fails,
-- and other clients leave the row in place and its id unique.
pub recover_manual_sale_activity_of_sent :
    (col : Collation) (dates : Dates) (env : Environment SaleDb) (x : Sale) (scope at : Text)
    (now : UtcFields) (wanted : SaleStatus) (begun started t : Text) (error given : Option Text)
    (s : Session SaleDb)
    → ((n : ℕ) → env.fault n ≡ none)
    → ((n : ℕ) (d : SaleDb) → Alone x d → Alone x (env.before n d))
    → x.status ≡ sent
    → x.sent_at ≡ some at
    → x.last_attempt_at ≡ some started
    → is_sale col scope x.id x ≡ true
    → (x.id ≤ max_safe_integer) × (x.attempt_count ≤ max_safe_integer)
    → (0 < x.id) × (0 < x.attempt_count)
    → is_final wanted ≡ true
    → normalize_automation_runtime_scope given ≡ ok scope
    → require_text manual_recovery_invalid_attempt_started_at begun ≡ ok started
    → normalize_date_time3 dates (text started) ≡ ok t
    → Alone x s.db
    → (recover_manual_sale_activity col dates now (recovery x wanted begun error given) env s).0
      ≡ ok (told x at)
unfolding recover_manual_sale_activity recover_attempt validate_manual_input
    resolve_activity_runtime_scope normalize_runtime_scope
recover_manual_sale_activity_of_sent col dates env x scope at now wanted begun started t error given
      s faultless keeps done dated at_start named countable positive final scoped starts begins
      alone =
    rw (ltb-positive x.id (positive.0), ltb-positive x.attempt_count (positive.1), starts, scoped)
      (recovered-told env x at scope started _ _ at_start (
        finalize_sale-noop col dates env x scope at faultless keeps done dated named countable
          (rw (normalize_scope_idem given scope scoped)) started t begins now
          (normalize_optional_error_message error) wanted final s alone))
