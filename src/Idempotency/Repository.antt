-- ===== src/Idempotency/Repository.antt =====
-- The functions of the repository: reserve, complete, fail and cancel a step. A call is a sequence
-- of statements (see Session); metrics and the console log have no effect that is modelled, but
-- the conversions that their arguments make can throw, and are kept.
use automation_server_net.Base.{
  ℕ, suc, zero, Bool, true, false, not, ◌&&◌, ◌||◌, Option, none, some, [], ◌∷◌, ◌==◌, leb,
  if◌then◌else◌, ◌*◌, ◌+◌, ◌-◌,
}
use automation_server_net.Js.Number.{JsNumber, whole, is_safe_integer, is_positive, magnitude}
use automation_server_net.Js.Text.{Text, text_eq, is_digit}
use automation_server_net.Integration.{
  Code, Result, ok, raise, transient_error, permanent_error, idempotency_payload_mismatch,
  idempotency_reservation_race, idempotency_lease_lost, idempotency_cancel_not_found,
  idempotency_finalize_not_found, idempotency_record_not_found, idempotency_result_missing,
  idempotency_result_invalid_json, idempotency_result_invalid_payload,
  idempotency_invalid_insert_id, idempotency_invalid_attempt_count, idempotency_invalid_row_id,
}
use automation_server_net.Session.{Query, statement, pure, throw, lift, now, ◌>>=◌, ◌>>◌}
use automation_server_net.Idempotency.Table.{
  Status, pending, completed, failed, StepKey, Row, Db, Collation, insert_ignore, find_row, reclaim,
  finalize, cancel,
}

-- What the driver hands over for an integer column.
pub data SqlNumber : Type 0 where
  number : JsNumber → SqlNumber
  text : Text → SqlNumber

-- `Number(value)` where `/^\d+$/` has matched
abbrev digits_value : ℕ → Text → Option ℕ
digits_value acc [] = some acc
digits_value acc (c ∷ s) =
    let rest = digits_value (acc * 10 + (c - b'0')) s in if is_digit c then rest else none

abbrev parse_digits : Text → Option ℕ
parse_digits [] = none
parse_digits (c ∷ s) = digits_value 0 (c ∷ s)

abbrev pub read_safe_number : Code → JsNumber → Result ℕ
read_safe_number code n =
    if is_safe_integer n && is_positive n then ok (magnitude n) else raise (permanent_error code)

abbrev pub read_positive : Code → SqlNumber → Result ℕ
read_positive code (number n) = read_safe_number code n
read_positive code (text s) = elim (parse_digits s) [
  | none ↦ raise (permanent_error code)
  | some n ↦ read_safe_number code (whole n)
]

-- `readRowId`, `readAttemptCount` and `normalizeInsertId`
unfoldable pub read_row_id : SqlNumber → Result ℕ
read_row_id = read_positive idempotency_invalid_row_id

unfoldable pub read_attempt_count : SqlNumber → Result ℕ
read_attempt_count = read_positive idempotency_invalid_attempt_count

unfoldable pub normalize_insert_id : JsNumber → Result ℕ
normalize_insert_id = read_safe_number idempotency_invalid_insert_id

-- the columns `id` and `attempt_count` of a row, as the driver hands them over
abbrev pub column : ℕ → SqlNumber
column n = number (whole n)

-- `isExpiredPendingReservation`, at the time of the process
unfoldable pub is_expired_pending_reservation : Option ℕ → ℕ → Bool
is_expired_pending_reservation none time = true
is_expired_pending_reservation (some e) time = leb e time

-- `WorkflowStepIdempotencyReservationInput`
pub record ReservationInput (Json T : Type 0) : Type 0 where
  pub key : StepKey
  pub workflow_id : Text
  pub request_id : Text
  pub payload_hash : Text
  pub parse_result : Json → Option T

-- `WorkflowStepIdempotencyReservation`
pub data Reservation (T : Type 0) : Type 0 where
  reserved : (record_id : ℕ) (lease_token : Text) → Reservation T
  still_pending : (record_id updated_at : ℕ) → Reservation T
  was_completed was_failed : (record_id updated_at : ℕ) (result : T) → Reservation T

-- `FinalizeWorkflowStepIdempotencyInput`, the result as `JSON.stringify` gives it
pub record FinalizeInput : Type 0 where
  pub key : StepKey
  pub lease_token : Text
  pub result_json : Text
  pub external_reference : Option Text

-- What a stored result reads as: `JSON.parse` is a parameter.
module _ {Json T : Type 0} (parse_json : Text → Option Json) (parse_result : Json → Option T) where
  abbrev pub parse_stored : Text → Result T
  parse_stored s = elim (parse_json s) [
    | none ↦ raise (permanent_error idempotency_result_invalid_json)
    | some j ↦ elim (parse_result j) [
      | none ↦ raise (permanent_error idempotency_result_invalid_payload)
      | some t ↦ ok t
    ]
  ]

  -- `readStoredResult`
  unfoldable pub read_stored_result : Row → Result T
  read_stored_result r = elim (r.result_payload_json) [
    | none ↦ raise (permanent_error idempotency_result_missing)
    | some s ↦ parse_stored s
  ]

module _ (col : Collation) {Json T : Type 0} (parse_json : Text → Option Json)
    (input : ReservationInput Json T) (token : Text) where
  -- what the branch of a pending row returns; `none` goes round the loop again
  unfoldable pub pending_outcome : (id count time : ℕ) → Row → Query Db (Option (Reservation T))
  pending_outcome id count time row =
      if count == 1 || not (is_expired_pending_reservation row.pending_expires_at time)
      then (do
        lift (read_attempt_count (column row.attempt_count))
        pure (some (if count == 1 then reserved id token else still_pending id row.updated_at)))
      else pure none

  -- the branch of a row that is pending, with `tryReclaimExpiredPendingReservation`
  unfoldable pub reserve_pending : Row → Query Db (Option (Reservation T))
  reserve_pending row = do
    id ← lift (read_row_id (column row.id))
    count ← statement (reclaim id input.workflow_id input.request_id input.payload_hash token)
    time ← now
    pending_outcome id count time row

  -- the branches of a row that is completed or failed
  unfoldable pub reserve_finished :
      (ℕ → ℕ → T → Reservation T) → Row → Query Db (Option (Reservation T))
  reserve_finished make row = do
    id ← lift (read_row_id (column row.id))
    lift (read_attempt_count (column row.attempt_count))
    result ← lift (read_stored_result parse_json input.parse_result row)
    pure (some (make id row.updated_at result))

  unfoldable pub reserve_by_status : Status → Row → Query Db (Option (Reservation T))
  reserve_by_status pending row = reserve_pending row
  reserve_by_status completed row = reserve_finished was_completed row
  reserve_by_status failed row = reserve_finished was_failed row

  unfoldable pub reserve_found : Option Row → Query Db (Option (Reservation T))
  reserve_found none = pure none
  reserve_found (some row) =
      if text_eq row.payload_hash input.payload_hash
      then reserve_by_status row.execution_status row
      else throw (permanent_error idempotency_payload_mismatch)

  unfoldable pub reserve_inserted : (count insert_id : ℕ) → Query Db (Option (Reservation T))
  reserve_inserted count insert_id =
      if count == 1
      then (do id ← lift (normalize_insert_id (whole insert_id)); pure (some (reserved id token)))
      else (do row ← statement (λ d. (find_row col input.key d.rows, d)); reserve_found row)

  -- one round of the loop
  unfoldable pub reserve_attempt : Query Db (Option (Reservation T))
  reserve_attempt = do
    inserted ←
        statement
          (insert_ignore col input.key input.workflow_id input.request_id input.payload_hash token)
    reserve_inserted inserted.0 inserted.1

  unfoldable pub reserve_loop : ℕ → Query Db (Reservation T)
  reserve_loop zero = throw (transient_error idempotency_reservation_race)
  reserve_loop (suc rounds) = do
    r ← reserve_attempt
    elim r [ some reservation ↦ pure reservation | none ↦ reserve_loop rounds ]

  -- `reserveWorkflowStepIdempotency`, with `MAX_RESERVATION_RELOAD_ATTEMPTS` rounds; `token` is
  -- its `randomUUID()`
  unfoldable pub reserve : Query Db (Reservation T)
  reserve = reserve_loop 3

-- `row.lease_token !== leaseToken`, negated
abbrev pub is_token : Text → Option Text → Bool
is_token token none = false
is_token token (some t) = text_eq t token

-- what `finalize…` and `cancel…` do with the row when the statement met none
unfoldable pub settle_unmatched : Code → (token : Text) → Row → Status → Result (Unit {0})
settle_unmatched code token row completed = ok tt
settle_unmatched code token row failed = ok tt
settle_unmatched code token row pending =
    if is_token token row.lease_token
    then raise (permanent_error code)
    else raise (transient_error idempotency_lease_lost)

abbrev pub loaded : Option Row → Query Db Row
loaded none = throw (permanent_error idempotency_record_not_found)
loaded (some row) = pure row

module _ (col : Collation) where
  -- `loadWorkflowStepIdempotencyRow`
  unfoldable pub load_row : StepKey → Query Db Row
  load_row k = do found ← statement (λ d. (find_row col k d.rows, d)); loaded found

  -- the rest of both functions, after the statement
  unfoldable pub settle : Code → StepKey → Text → ℕ → Query Db (Unit {0})
  settle code k token count =
      if count == 1
      then pure tt
      else (do row ← load_row k; lift (settle_unmatched code token row row.execution_status))

  -- `finalizeWorkflowStepIdempotency`
  unfoldable pub finalize_reservation : Status → FinalizeInput → Query Db (Unit {0})
  finalize_reservation status input = do
    count ←
        statement (
          finalize col status input.key input.lease_token input.external_reference
            input.result_json)
    settle idempotency_finalize_not_found input.key input.lease_token count

  -- `markWorkflowStepIdempotencyCompleted` and `markWorkflowStepIdempotencyFailed`
  unfoldable pub mark_completed : FinalizeInput → Query Db (Unit {0})
  mark_completed = finalize_reservation completed

  unfoldable pub mark_failed : FinalizeInput → Query Db (Unit {0})
  mark_failed = finalize_reservation failed

  -- `cancelWorkflowStepIdempotencyReservation`
  unfoldable pub cancel_reservation : (k : StepKey) (token : Text) → Query Db (Unit {0})
  cancel_reservation k token = do
    count ← statement (cancel col k token)
    settle idempotency_cancel_not_found k token count
