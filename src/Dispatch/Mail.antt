-- ===== src/Dispatch/Mail.antt =====
-- src/temporal/workflows/nfe/process-single-nfe-email-dispatch-sale.shared.ts, and what the activities of
-- the attempt answer.
use automation_server_net.Base.{
  ℕ, Bool, true, false, ◌&&◌, ◌||◌, Option, none, some, List, [], ◌∷◌, ◌++◌, if◌then◌else◌, leb,
  ◌==◌,
}
use automation_server_net.Js.Text.{Text, codes, is_empty, trim}
use automation_server_net.Nfe.Sale.{
  SaleStatus, pending, in_progress, sent, failed_transient, failed_final, delivery_unknown,
}
use automation_server_net.Nfe.DateTime.{decimal}
use automation_server_net.Temporal.{Thrown, read_workflow_failure_message}
use automation_server_net.Dispatch.Processing.{
  FailureClass, classify_processing_activity_failure, context_permanent_message,
  context_transient_message,
}

-- `NfeEmailDispatchProcessingStage`
pub data Stage : Type 0 where
  erp ixc render smtp : Stage

abbrev pub read_workflow_error_message : Thrown → Text
read_workflow_error_message = read_workflow_failure_message (codes "Unknown workflow error")

-- the message of a stage, from whether the failure is final
abbrev pub stage_message : Stage → (is_final_failure : Bool) → (technical : Text) → Text
stage_message erp true technical = context_permanent_message
stage_message erp false technical = context_transient_message
stage_message ixc true technical = technical
stage_message ixc false technical = codes "Falha no servidor ao buscar o PDF da NF-e na IXC."
stage_message render true technical = technical
stage_message render false technical = codes "Falha temporária ao montar o e-mail da NF-e."
stage_message smtp true technical = technical
stage_message smtp false technical = codes "Falha temporária ao enviar a NF-e por e-mail."

abbrev pub is_final_failure : SaleStatus → Bool
is_final_failure pending = false
is_final_failure in_progress = false
is_final_failure sent = false
is_final_failure failed_transient = false
is_final_failure failed_final = true
is_final_failure delivery_unknown = false

-- `classifyUnhandledProcessingFailure`
unfoldable pub classify_unhandled_processing_failure : Stage → Thrown → FailureClass
classify_unhandled_processing_failure stage e =
    let failure = classify_processing_activity_failure e in
    record {
      final_status = failure.final_status;
      message =
          stage_message stage (is_final_failure failure.final_status)
            (read_workflow_error_message e);
    }

-- `SendSmtpEmailActivityResult`
pub data SmtpResult : Type 0 where
  success : SmtpResult
  pending_failure : (message : Text) → SmtpResult
  permanent_failure : (message : Text) → SmtpResult

pub record Finalization : Type 0 where
  pub status : SaleStatus
  pub error_message : Option Text

-- `resolveSmtpResultToFinalization`
unfoldable pub resolve_smtp_result_to_finalization : SmtpResult → Finalization
resolve_smtp_result_to_finalization success = record { status = sent; error_message = none }
resolve_smtp_result_to_finalization (pending_failure m) = record {
  status = delivery_unknown;
  error_message = some m;
}
resolve_smtp_result_to_finalization (permanent_failure m) = record {
  status = failed_final;
  error_message = some m;
}

-- `buildSmtpIdempotencyKey`
unfoldable pub build_smtp_idempotency_key : (sale_id attempt_count : ℕ) → Text
build_smtp_idempotency_key sale_id attempt_count =
    codes "nfe-email-dispatch-sale-"
    ++ (decimal sale_id ++ (codes "-attempt-" ++ decimal attempt_count))

-- the class `[A-Za-z0-9_-]`
abbrev pub is_filename_code : ℕ → Bool
is_filename_code c =
    (leb 65 c && leb c 90)
    || ((leb 97 c && leb c 122) || ((leb 48 c && leb c 57) || (c == 95 || c == 45)))

-- the first `replace`: one dash for each run of other characters
abbrev pub replace_runs : (in_run : Bool) → Text → Text
replace_runs in_run [] = []
replace_runs in_run (c ∷ s) =
    let kept = replace_runs false s in
    let dropped = replace_runs true s in
    if is_filename_code c then c ∷ kept else (if in_run then dropped else 45 ∷ dropped)

-- the second: the dashes at the two ends
abbrev pub strip_leading : Text → Text
strip_leading [] = []
strip_leading (c ∷ s) = let rest = strip_leading s in if c == 45 then rest else c ∷ s

abbrev pub put_front : ℕ → Text → Text
put_front c [] = if c == 45 then [] else c ∷ []
put_front c (d ∷ s) = c ∷ d ∷ s

abbrev pub strip_trailing : Text → Text
strip_trailing [] = []
strip_trailing (c ∷ s) = put_front c (strip_trailing s)

unfoldable pub sanitize_numero_nf : Text → Text
sanitize_numero_nf s = strip_trailing (strip_leading (replace_runs false (trim s)))

-- `buildNfeAttachmentFilename`
unfoldable pub build_nfe_attachment_filename : Text → Text
build_nfe_attachment_filename s =
    let name = sanitize_numero_nf s in
    codes "nfe-" ++ ((if is_empty name then codes "sem-numero" else name) ++ codes ".pdf")

-- `NfeSaleEmailContext`, without the fields that only the template reads: `template` stands for them
pub record EmailContext : Type 0 where
  pub recipients : List Text
  pub numero_nf : Text
  pub template : Text

-- `FetchNfeSaleEmailContextFromErpResult`
pub data ContextResult : Type 0 where
  context_found : EmailContext → ContextResult
  context_failed_final : (message : Text) → ContextResult

pub record RenderedEmail : Type 0 where
  pub html : Text
  pub text : Text

-- `SendSmtpEmailActivityInput`, with its only attachment
pub record SmtpRequest : Type 0 where
  pub request_id : Text
  pub workflow_id : Text
  pub workflow_name : Text
  pub idempotency_scope : Text
  pub idempotency_key : Text
  pub recipients : List Text
  pub subject : Text
  pub html : Text
  pub text : Text
  pub filename : Text
  pub path : Text
  pub content_type : Text
  pub content_disposition : Text

-- the results of the activities on the lock of an attempt
pub data LockResult : Type 0 where
  acquired : (lease_token : Text) → LockResult
  lock_pending : LockResult
  already_processed : SaleStatus → LockResult

-- what a workflow knows of itself
pub record WorkflowInfo : Type 0 where
  pub workflow_id : Text
  pub workflow_type : Text
  -- `formatWorkflowNowAsDateTime3()`
  pub started_at : Text

-- the argument of `sendSmtpEmailActivity`, which both workflows build alike
unfoldable pub build_smtp_request :
    (request_id : Text)
    → WorkflowInfo
    → (scope : Text) → (sale_id attempt_count : ℕ) → EmailContext
    → RenderedEmail
    → (pdf_path : Text) → SmtpRequest
build_smtp_request request_id info scope sale_id attempt_count c mail pdf_path = record {
  request_id = request_id;
  workflow_id = info.workflow_id;
  workflow_name = info.workflow_type;
  idempotency_scope = scope;
  idempotency_key = build_smtp_idempotency_key sale_id attempt_count;
  recipients = c.recipients;
  subject = codes "Sua Nota Fiscal - NET3 WIFI";
  html = mail.html;
  text = mail.text;
  filename = build_nfe_attachment_filename c.numero_nf;
  path = pdf_path;
  content_type = codes "application/pdf";
  content_disposition = codes "attachment";
}
