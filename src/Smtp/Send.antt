-- ===== src/Smtp/Send.antt =====
-- `sendSmtpEmailActivity`. The hashes, `JSON.parse` with `parseSendSmtpEmailActivityResult`, `JSON.stringify`,
-- `new Date()`, what an error says of itself, and the SMTP server are parameters. A run tells which
-- messages it has handed over to the server.
use automation_server_net.Base.{Option, none, some, List, [], ◌∷◌, if◌then◌else◌}
use automation_server_net.Js.Text.{Text, codes}
use automation_server_net.Integration.{Failure, Result, ok, raise, is_permanent_integration_error}
use automation_server_net.Session.{Environment, Session, Query, pure, throw, ◌>>=◌}
use automation_server_net.Idempotency.Table.{StepKey, Db, Collation}
use automation_server_net.Idempotency.Repository.{
  ReservationInput, Reservation, reserved, still_pending, was_completed, was_failed, FinalizeInput,
  reserve, mark_completed, mark_failed,
}
use automation_server_net.Dispatch.Lock.{scope_activity_idempotency_parts}
use automation_server_net.Smtp.{
  Message, SendInput, SendOutput, permanent_type, SendResult, success, failure, validate_send_input,
  pending_result, normalize_send_error,
}

-- what the activity takes from elsewhere
pub record Tools (Attachment Json : Type 0) : Type 0 where
  pub parse_json : Text → Option Json
  -- `parseSendSmtpEmailActivityResult`
  pub parse_result : Json → Option SendResult
  pub stringify : SendResult → Text
  -- `buildSmtpDurableIdempotencyKey` and `buildSmtpDurablePayloadHash`
  pub durable_key : List Text → Text
  pub payload_hash : Message Attachment → Text
  -- the `code` and the `message` of an error
  pub describe : Failure → Text × Text
  pub sent_at : Text
  pub server : Message Attachment → Result SendOutput

-- the messages that were handed over, and the outcome with the database
abbrev pub Sending : (Attachment : Type 0) → Type 0
Sending Attachment = List (Message Attachment) × (Result SendResult × Session Db)

module _ (col : Collation) {Attachment Json : Type 0} (tools : Tools Attachment Json)
    (token : Text) where
  abbrev pub send_key : SendInput Attachment → (key : Text) → StepKey
  send_key input key = record {
    workflow_name = input.workflow_name;
    step_name = codes "smtp-send-email";
    idempotency_key = key;
  }

  abbrev pub send_reservation :
      SendInput Attachment → (key : Text) → ReservationInput Json SendResult
  send_reservation input key = record {
    key = send_key input key;
    workflow_id = input.workflow_id;
    request_id = input.request_id;
    payload_hash = tools.payload_hash input.message;
    parse_result = tools.parse_result;
  }

  abbrev pub send_finalization :
      SendInput Attachment → (key lease : Text) → SendResult → Option Text → FinalizeInput
  send_finalization input key lease r reference = record {
    key = send_key input key;
    lease_token = lease;
    result_json = tools.stringify r;
    external_reference = reference;
  }

  abbrev pub failure_result : Failure → SendResult
  failure_result e = let (code, message) = tools.describe e in failure permanent_type code message

  -- the `catch`
  unfoldable pub fail_send :
      SendInput Attachment → (key lease : Text) → Failure → Query Db SendResult
  fail_send input key lease e =
      let e' = normalize_send_error e in
      if is_permanent_integration_error e'
      then (mark_failed col (send_finalization input key lease (failure_result e') none) >>= λ u.
          pure (failure_result e'))
      else throw e'

  abbrev pub recorded :
      SendInput Attachment
      → (key lease : Text) → SendResult
      → Environment Db
      → Result (Unit {0}) × Session Db
      → Result SendResult × Session Db
  recorded input key lease r env (ok u, s) = (ok r, s)
  recorded input key lease r env (raise e, s) = fail_send input key lease e env s

  -- the `try` once the server has answered, with its `catch`
  unfoldable pub after_send :
      SendInput Attachment → (key lease : Text) → Result SendOutput → Query Db SendResult
  after_send input key lease (raise e) env s = fail_send input key lease e env s
  after_send input key lease (ok out) env s =
      let r = success out tools.sent_at in
      recorded input key lease r env
        (mark_completed col (send_finalization input key lease r (some out.message_id)) env s)

  -- what follows the reservation
  abbrev pub by_reservation :
      SendInput Attachment
      → (key : Text) → Environment Db
      → Result (Reservation SendResult) × Session Db
      → Sending Attachment
  by_reservation input key env (ok (was_completed i u r), s) = ([], (ok r, s))
  by_reservation input key env (ok (was_failed i u r), s) = ([], (ok r, s))
  by_reservation input key env (ok (still_pending i u), s) = ([], (ok pending_result, s))
  by_reservation input key env (ok (reserved i lease), s) =
      (input.message ∷ [], after_send input key lease (tools.server input.message) env s)
  by_reservation input key env (raise e, s) = ([], (raise e, s))

  -- after the checks
  unfoldable pub send_checked :
      SendInput Attachment → (key : Text) → Environment Db → Session Db → Sending Attachment
  send_checked input key env s =
      by_reservation input key env
        (reserve col tools.parse_json (send_reservation input key) token env s)

  abbrev keyed :
      SendInput Attachment → Result (List Text) → Environment Db → Session Db → Sending Attachment
  keyed input (ok parts) env s = send_checked input (tools.durable_key parts) env s
  keyed input (raise e) env s = ([], (raise e, s))

  abbrev validated :
      Result (SendInput Attachment) → Environment Db → Session Db → Sending Attachment
  validated (ok input) env s =
      keyed input
        (scope_activity_idempotency_parts (input.workflow_id ∷ input.idempotency_key ∷ [])
          input.idempotency_scope)
        env s
  validated (raise e) env s = ([], (raise e, s))

  -- `sendSmtpEmailActivity`
  unfoldable pub send_smtp_email :
      SendInput Attachment → Environment Db → Session Db → Sending Attachment
  send_smtp_email input env s = validated (validate_send_input input) env s
