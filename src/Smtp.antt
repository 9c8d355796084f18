-- ===== src/Smtp.antt =====
-- src/temporal/activities/shared/send-smtp-email.activity.ts: the checks of the input, and the results.
-- An attachment is of any type, since it is only passed on.
pub mod Send
pub mod Once
mod Tests
use automation_server_net.Base.{
  ℕ, Bool, true, false, not, ◌&&◌, ◌||◌, Option, none, some, List, [], ◌∷◌, ◌++◌, if◌then◌else◌,
}
use automation_server_net.Js.Text.{Text, codes, is_empty, trim}
use automation_server_net.Integration.{
  Code, Failure, Result, ok, raise, permanent_error, ◌>>=◌, transient_error,
  is_permanent_integration_error, is_transient_integration_error, smtp_activity_failed,
  smtp_activity_invalid_request_id, smtp_activity_invalid_workflow_id,
  smtp_activity_invalid_workflow_name, smtp_activity_invalid_idempotency_key,
  smtp_activity_invalid_message,
}

-- `SmtpAddressInput`
pub data Address : Type 0 where
  one_address : Text → Address
  many_addresses : List Text → Address

-- `SmtpScopeSendInput`
pub record Message (Attachment : Type 0) : Type 0 where
  pub from : Option Text
  pub to : Option Address
  pub cc : Option Address
  pub bcc : Option Address
  pub reply_to : Option Address
  pub subject : Text
  pub text : Option Text
  pub html : Option Text
  pub attachments : Option (List Attachment)

-- `SendSmtpEmailActivityInput`, with the `SmtpActivityExecutionContext`
pub record SendInput (Attachment : Type 0) : Type 0 where
  pub request_id : Text
  pub workflow_id : Text
  pub workflow_name : Text
  pub idempotency_scope : Option Text
  pub idempotency_key : Text
  pub message : Message Attachment

-- what `smtpScope.send` returns, with the envelope left out
pub record SendOutput : Type 0 where
  pub message_id : Text
  pub accepted : List Text
  pub rejected : List Text
  pub pending : List Text
  pub response : Text

pub data FailureType : Type 0 where
  pending_type permanent_type : FailureType

-- `SendSmtpEmailActivityResult`
pub data SendResult : Type 0 where
  success : SendOutput → (sent_at : Text) → SendResult
  failure : FailureType → (code message : Text) → SendResult

-- a text that must not be empty
abbrev pub required : Code → Text → Result Text
required code value =
    let s = trim value in if is_empty s then raise (permanent_error code) else ok s

abbrev trimmed_addresses : List Text → List Text
trimmed_addresses [] = []
trimmed_addresses (a ∷ more) =
    let kept = trimmed_addresses more in if is_empty (trim a) then kept else trim a ∷ kept

abbrev some_address : List Text → Result Address
some_address [] = raise (permanent_error smtp_activity_invalid_message)
some_address (a ∷ []) = ok (one_address a)
some_address (a ∷ b ∷ more) = ok (many_addresses (a ∷ b ∷ more))

-- `normalizeAddressInput`
unfoldable pub normalize_address_input : Address → Result Address
normalize_address_input (one_address a) =
    required smtp_activity_invalid_message a >>= λ s. ok (one_address s)
normalize_address_input (many_addresses list) = some_address (trimmed_addresses list)

abbrev optional_address : Option Address → Result (Option Address)
optional_address none = ok none
optional_address (some a) = normalize_address_input a >>= λ n. ok (some n)

abbrev optional_text : Option Text → Option Text
optional_text none = none
optional_text (some s) = some (trim s)

module _ {Attachment : Type 0} where
  -- `normalizeSmtpScopeSendInput`
  unfoldable pub normalize_message : Message Attachment → Result (Message Attachment)
  normalize_message m = do
    to ← optional_address m.to
    cc ← optional_address m.cc
    bcc ← optional_address m.bcc
    reply_to ← optional_address m.reply_to
    subject ← required smtp_activity_invalid_message m.subject
    ok (record {
      from = optional_text m.from;
      to = to;
      cc = cc;
      bcc = bcc;
      reply_to = reply_to;
      subject = subject;
      text = optional_text m.text;
      html = optional_text m.html;
      attachments = m.attachments;
    })

  -- `validateSendSmtpEmailActivityInput`
  unfoldable pub validate_send_input : SendInput Attachment → Result (SendInput Attachment)
  validate_send_input input = do
    request_id ← required smtp_activity_invalid_request_id input.request_id
    workflow_id ← required smtp_activity_invalid_workflow_id input.workflow_id
    workflow_name ← required smtp_activity_invalid_workflow_name input.workflow_name
    idempotency_key ← required smtp_activity_invalid_idempotency_key input.idempotency_key
    message ← normalize_message input.message
    ok (record {
      request_id = request_id;
      workflow_id = workflow_id;
      workflow_name = workflow_name;
      idempotency_scope = input.idempotency_scope;
      idempotency_key = idempotency_key;
      message = message;
    })

-- what the activity answers while another attempt may still be sending
abbrev pub pending_result : SendResult
pending_result =
    failure pending_type (codes "SMTP_SEND_PENDING")
      (codes "SMTP email send is awaiting confirmation from a previous attempt")

-- `normalizeSendSmtpEmailActivityError`
unfoldable pub normalize_send_error : Failure → Failure
normalize_send_error e =
    if is_permanent_integration_error e || is_transient_integration_error e
    then e
    else transient_error smtp_activity_failed
