-- ===== src/Nfe/Validation.antt =====
-- src/infra/system-db/nfe-email-dispatch/validation.ts, pagination.ts and `readRowNumber` of sql.ts.
use automation_server_net.Base.{
  ℕ, Bool, true, false, not, ◌||◌, Option, none, some, List, [], ◌∷◌, ltb, ◌==◌, if◌then◌else◌, any,
}
use automation_server_net.Js.Number.{
  JsNumber, whole, negative, fraction, is_safe_integer, is_integer, is_positive, magnitude,
}
use automation_server_net.Js.Text.{Text, is_empty, trim}
use automation_server_net.Integration.{
  Failure, Result, ok, raise, permanent_error, integration, policy_validation, non_retryable,
  unknown, ◌>>=◌, dispatch_invalid_integer_filter, dispatch_invalid_row_number,
  dispatch_invalid_final_status, dispatch_sent_at_required, dispatch_sent_at_not_allowed,
  dispatch_invalid_invoice_key, dispatch_invalid_runtime_scope, dispatch_invalid_max_attempts,
  dispatch_invalid_pagination_limit, dispatch_invalid_pagination_offset,
}
use automation_server_net.RuntimePolicy.{normalize_automation_runtime_scope}
use automation_server_net.Nfe.Sale.{SaleStatus, is_final, is_sent}
use automation_server_net.Nfe.DateTime.{DateInput, Dates, normalize_date_time3}

-- `value < 0`, on integers
abbrev is_negative : JsNumber → Bool
is_negative (whole n) = false
is_negative (negative n) = true
is_negative fraction = false

unfoldable pub normalize_positive_integer : JsNumber → Result ℕ
normalize_positive_integer n =
    if not (is_safe_integer n) || not (is_positive n)
    then raise (permanent_error dispatch_invalid_integer_filter)
    else ok (magnitude n)

unfoldable pub normalize_non_negative_integer : JsNumber → Result ℕ
normalize_non_negative_integer n =
    if not (is_safe_integer n) || is_negative n
    then raise (permanent_error dispatch_invalid_integer_filter)
    else ok (magnitude n)

-- `[...new Set(values)]` keeps the first of equal values
abbrev pub keep_new : List ℕ → List ℕ → List ℕ
keep_new seen [] = []
keep_new seen (n ∷ ns) =
    let kept = n ∷ keep_new (n ∷ seen) ns in
    let skipped = keep_new seen ns in if any (λ m. m == n) seen then skipped else kept

unfoldable pub normalize_positive_integers : List JsNumber → Result (List ℕ)
normalize_positive_integers [] = ok []
normalize_positive_integers (v ∷ vs) = do
  n ← normalize_positive_integer v
  ns ← normalize_positive_integers vs
  ok (n ∷ ns)

unfoldable pub normalize_positive_integer_list : List JsNumber → Result (List ℕ)
normalize_positive_integer_list values = do
  ns ← normalize_positive_integers values
  ok (keep_new [] ns)

unfoldable pub normalize_final_status : SaleStatus → Result SaleStatus
normalize_final_status status =
    if is_final status then ok status else raise (permanent_error dispatch_invalid_final_status)

abbrev sent_at_text : Dates → Option DateInput → Result (Option Text)
sent_at_text dates none = raise (permanent_error dispatch_sent_at_required)
sent_at_text dates (some d) = do t ← normalize_date_time3 dates d; ok (some t)

abbrev no_sent_at : Option DateInput → Result (Option Text)
no_sent_at none = ok none
no_sent_at (some d) = raise (permanent_error dispatch_sent_at_not_allowed)

unfoldable pub normalize_optional_sent_at :
    Dates → SaleStatus → Option DateInput → Result (Option Text)
normalize_optional_sent_at dates final_status value =
    if is_sent final_status then sent_at_text dates value else no_sent_at value

unfoldable pub normalize_optional_error_message : Option Text → Option Text
normalize_optional_error_message none = none
normalize_optional_error_message (some value) =
    let s = trim value in if is_empty s then none else some s

unfoldable pub normalize_invoice_key_filter : Text → Result Text
normalize_invoice_key_filter value =
    let s = trim value in
    if is_empty s then raise (permanent_error dispatch_invalid_invoice_key) else ok s

-- the `catch` of `normalizeRuntimeScope`
abbrev scope_failure : Failure → Failure
scope_failure policy_validation = permanent_error dispatch_invalid_runtime_scope
scope_failure (integration k c) = integration k c
scope_failure non_retryable = non_retryable
scope_failure unknown = unknown

abbrev rethrow_scope : Result Text → Result Text
rethrow_scope (ok s) = ok s
rethrow_scope (raise e) = raise (scope_failure e)

unfoldable pub normalize_runtime_scope : Text → Result Text
normalize_runtime_scope value = rethrow_scope (normalize_automation_runtime_scope (some value))

unfoldable pub normalize_max_send_attempts : JsNumber → Result ℕ
normalize_max_send_attempts n =
    if not (is_integer n) || not (is_positive n)
    then raise (permanent_error dispatch_invalid_max_attempts)
    else ok (magnitude n)

unfoldable pub normalize_pagination_limit : JsNumber → Result ℕ
normalize_pagination_limit n =
    if not (is_safe_integer n) || (not (is_positive n) || ltb 200 (magnitude n))
    then raise (permanent_error dispatch_invalid_pagination_limit)
    else ok (magnitude n)

unfoldable pub normalize_pagination_offset : JsNumber → Result ℕ
normalize_pagination_offset n =
    if not (is_safe_integer n) || is_negative n
    then raise (permanent_error dispatch_invalid_pagination_offset)
    else ok (magnitude n)

-- `readRowNumber` of a column that the driver returns as a number
unfoldable pub read_row_number : ℕ → Result ℕ
read_row_number n =
    if is_safe_integer (whole n) then ok n else raise (permanent_error dispatch_invalid_row_number)
