-- ===== src/Dispatch/Lock.antt =====
-- src/temporal/activities/nfe/nfe-email-dispatch-sale-attempt-lock.activity.ts: the lock of an attempt
-- is a step of the idempotency repository. The hash of the payload, `JSON.parse` and `JSON.stringify`, and
-- the time of the release are parameters.
pub mod Stored
pub mod Queries
pub mod Held
use automation_server_net.Base.{
  ℕ, Bool, true, false, not, ◌&&◌, Option, none, some, List, [], ◌∷◌, ◌++◌, if◌then◌else◌,
}
use automation_server_net.Js.Number.{JsNumber, whole, is_safe_integer, is_positive, magnitude}
use automation_server_net.Js.Text.{Text, codes, text_eq, is_empty, trim}
use automation_server_net.Integration.{
  Code, Failure, Result, ok, raise, permanent_error, ◌>>=◌, attempt_lock_invalid_text,
  attempt_lock_invalid_integer, attempt_lock_failed,
}
use automation_server_net.RuntimePolicy.{scope_idempotency_parts_by_scope}
use automation_server_net.Idempotency.Table.{StepKey}
use automation_server_net.Idempotency.Repository.{
  Reservation, reserved, still_pending, was_completed, was_failed,
}
use automation_server_net.Nfe.Sale.{
  SaleStatus, pending, in_progress, sent, failed_transient, failed_final, delivery_unknown,
}
use automation_server_net.Nfe.DateTime.{decimal}
use automation_server_net.Nfe.Activities.{resolve_activity_runtime_scope, activity_failure}
use automation_server_net.Dispatch.Mail.{LockResult, acquired, lock_pending, already_processed}

-- what `JSON.parse` yields, as far as the activity looks at it: an object with the values of its fields,
-- which are texts or anything else, or no object
pub data Value : Type 0 where
  text_value : Text → Value
  other_value : Value

pub data Json : Type 0 where
  json_object : List (Text × Value) → Json
  json_other : Json

abbrev field_of : List (Text × Value) → Text → Option Value
field_of [] name = none
field_of ((key, value) ∷ fields) name =
    let later = field_of fields name in if text_eq key name then some value else later

abbrev as_text : Option Value → Option Text
as_text none = none
as_text (some (text_value s)) = some s
as_text (some other_value) = none

-- a field of a text, of an object
abbrev pub text_field : Json → Text → Option Text
text_field json_other name = none
text_field (json_object fields) name = as_text (field_of fields name)

-- `NfeEmailDispatchSaleAttemptLockStoredResult`
pub record StoredResult : Type 0 where
  pub final_status : SaleStatus
  pub released_at : Text

-- the names of the four final statuses
abbrev pub status_name : SaleStatus → Text
status_name pending = codes "PENDING"
status_name in_progress = codes "IN_PROGRESS"
status_name sent = codes "SENT"
status_name failed_transient = codes "FAILED_TRANSIENT"
status_name failed_final = codes "FAILED_FINAL"
status_name delivery_unknown = codes "DELIVERY_UNKNOWN"

abbrev pub final_status_of : Text → Option SaleStatus
final_status_of s =
    if text_eq s (status_name sent)
    then some sent
    else if text_eq s (status_name failed_transient)
    then some failed_transient
    else if text_eq s (status_name failed_final)
    then some failed_final
    else if text_eq s (status_name delivery_unknown)
    then some delivery_unknown
    else none

abbrev status_of : Option Text → Option SaleStatus
status_of none = none
status_of (some s) = final_status_of s

abbrev stored_result : Option SaleStatus → Option Text → Option StoredResult
stored_result none released = none
stored_result (some s) none = none
stored_result (some s) (some released) =
    if is_empty (trim released)
    then none
    else some (record { final_status = s; released_at = trim released })

-- `parseAttemptLockStoredResult`
unfoldable pub parse_attempt_lock_stored_result : Json → Option StoredResult
parse_attempt_lock_stored_result value =
    stored_result (status_of (text_field value (codes "finalStatus")))
      (text_field value (codes "releasedAt"))

-- `readRequiredText` and `readPositiveInteger`
unfoldable pub read_required_text : Text → Result Text
read_required_text value =
    let s = trim value in
    if is_empty s then raise (permanent_error attempt_lock_invalid_text) else ok s

unfoldable pub read_positive_integer : JsNumber → Result ℕ
read_positive_integer n =
    if is_safe_integer n && is_positive n
    then ok (magnitude n)
    else raise (permanent_error attempt_lock_invalid_integer)

-- `parts.join("/")`
abbrev pub join_parts : List Text → Text
join_parts [] = []
join_parts (p ∷ []) = p
join_parts (p ∷ q ∷ ps) = p ++ (codes "/" ++ join_parts (q ∷ ps))

abbrev pub attempt_parts : (sale_id attempt_number : ℕ) → List Text
attempt_parts sale_id attempt_number =
    codes "nfe-email-dispatch-sale-attempt-lock"
    ∷ (codes "sale-" ++ decimal sale_id)
    ∷ (codes "attempt-" ++ decimal attempt_number)
    ∷ []

-- `scopeActivityIdempotencyParts`
unfoldable pub scope_activity_idempotency_parts : List Text → Option Text → Result (List Text)
scope_activity_idempotency_parts parts scope = do
  s ← resolve_activity_runtime_scope scope
  scope_idempotency_parts_by_scope parts s

-- `buildAttemptLockIdempotencyKey`
unfoldable pub build_attempt_lock_idempotency_key :
    (sale_id attempt_number : ℕ) (scope : Text) → Result Text
build_attempt_lock_idempotency_key sale_id attempt_number scope = do
  parts ← scope_activity_idempotency_parts (attempt_parts sale_id attempt_number) (some scope)
  ok (join_parts parts)

-- the inputs of the activities
pub record AcquireInput : Type 0 where
  pub request_id : Text
  pub workflow_id : Text
  pub sale_id : JsNumber
  pub attempt_number : JsNumber
  pub runtime_scope : Option Text

pub record CompleteInput : Type 0 where
  pub workflow_id : Text
  pub sale_id : JsNumber
  pub attempt_number : JsNumber
  pub runtime_scope : Option Text
  pub lease_token : Text
  pub final_status : SaleStatus

pub record CancelInput : Type 0 where
  pub sale_id : JsNumber
  pub attempt_number : JsNumber
  pub runtime_scope : Option Text
  pub lease_token : Text

-- an attempt after the checks
pub record Attempt : Type 0 where
  pub sale_id : ℕ
  pub attempt_number : ℕ
  pub scope : Text

unfoldable pub read_attempt : (sale_id attempt_number : JsNumber) → Option Text → Result Attempt
read_attempt sale_id attempt_number scope = do
  id ← read_positive_integer sale_id
  n ← read_positive_integer attempt_number
  s ← resolve_activity_runtime_scope scope
  ok (record { sale_id = id; attempt_number = n; scope = s })

-- the step that stands for an attempt
abbrev pub lock_key : Text → StepKey
lock_key key = record {
  workflow_name = codes "nfe-email-dispatch-sale-attempt-lock";
  step_name = codes "attempt-lock";
  idempotency_key = key;
}

-- what the activity answers for a reservation
abbrev pub lock_result : Reservation StoredResult → LockResult
lock_result (reserved id token) = acquired token
lock_result (still_pending id updated_at) = lock_pending
lock_result (was_completed id updated_at r) = already_processed r.final_status
lock_result (was_failed id updated_at r) = already_processed r.final_status
