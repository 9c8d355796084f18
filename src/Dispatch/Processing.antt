-- ===== src/Dispatch/Processing.antt =====
-- src/temporal/workflows/nfe/process-nfe-email-dispatch-sales.shared.ts, and the policy functions of
-- src/temporal/workflows/shared/automation-runtime-policy.workflow.ts that it uses. The id of the
-- current workflow is a parameter.
use automation_server_net.Base.{
  ℕ, ◌+◌, Bool, false, ◌&&◌, ◌||◌, Option, none, some, List, [], ◌∷◌, ◌++◌, if◌then◌else◌, length,
}
use automation_server_net.Js.Number.{JsNumber, is_safe_integer, is_positive, magnitude}
use automation_server_net.Js.Text.{Text, codes, text_eq, is_empty, trim}
use automation_server_net.Integration.{Result, ok, raise}
use automation_server_net.RuntimePolicy.{
  PolicyInput, Policy, normalize_automation_runtime_policy, scope_workflow_id, strip_prefix,
}
use automation_server_net.Nfe.Sale.{
  SaleStatus, pending, in_progress, sent, failed_transient, failed_final, delivery_unknown,
}
use automation_server_net.Nfe.DateTime.{decimal}
use automation_server_net.Temporal.{
  ApplicationInfo, Thrown, Outcome, done, thrown, non_retryable_failure,
  find_root_application_failure, find_root_workflow_failure, error_message,
}

-- `NfeEmailDispatchWorkflowSource`
pub data Source : Type 0 where
  manual schedule : Source

-- `ProcessNfeEmailDispatchSalesWorkflowInput`, and what it is normalized to
pub record ProcessInput : Type 0 where
  pub request_id : Text
  pub source : Source
  pub max_concurrent_children : Option JsNumber
  pub max_send_attempts : Option JsNumber
  pub discovery_workflow_id : Option Text
  pub runtime_policy : Option PolicyInput

pub record NormalizedProcessInput : Type 0 where
  pub request_id : Text
  pub source : Source
  pub max_concurrent_children : ℕ
  pub max_send_attempts : ℕ
  pub discovery_workflow_id : Text
  pub runtime_policy : Policy

-- `ProcessSingleNfeEmailDispatchSaleWorkflowResult`; no status is SKIPPED
pub record ChildResult : Type 0 where
  pub sale_id : ℕ
  pub erp_sale_id : ℕ
  pub status : Option SaleStatus
  pub attempt_count : Option ℕ
  pub error_message : Option Text

-- `ProcessNfeEmailDispatchSalesSummary`
pub record Summary : Type 0 where
  pub total_eligible_sales : ℕ
  pub completed_children : ℕ
  pub skipped_sales : ℕ
  pub sent_sales : ℕ
  pub failed_transient_sales : ℕ
  pub failed_final_sales : ℕ
  pub delivery_unknown_sales : ℕ
  pub child_workflow_failures : ℕ
  pub failed_sale_ids : List ℕ

abbrev invalid_workflow_input : Text
invalid_workflow_input = codes "INVALID_WORKFLOW_INPUT"

abbrev invalid_input : {A : Type 0} → (message : Text) → Outcome A
invalid_input message = thrown (non_retryable_failure message invalid_workflow_input)

-- the `try` around the policy functions; the message of a validation error is left out
abbrev pub as_workflow_input : {A : Type 0} → Result A → Outcome A
as_workflow_input (ok a) = done a
as_workflow_input (raise e) = invalid_input []

unfoldable pub normalize_runtime_policy : Option PolicyInput → Outcome Policy
normalize_runtime_policy input = as_workflow_input (normalize_automation_runtime_policy input)

unfoldable pub read_positive_integer_or_default : Option JsNumber → (fallback : ℕ) → Outcome ℕ
read_positive_integer_or_default none fallback = done fallback
read_positive_integer_or_default (some n) fallback =
    if is_safe_integer n && is_positive n
    then done (magnitude n)
    else invalid_input (codes "NF-e processing workflow requires a positive integer")

-- `resolveRequestId`
unfoldable pub resolve_request_id : (current : Text) → ProcessInput → Text
resolve_request_id current input = by_source input.source
  where
    by_source : Source → Text
    by_source schedule = current
    by_source manual = let s = trim input.request_id in if is_empty s then current else s

-- `includes` and `replace` of the first occurrence
abbrev replaced_front : Option Text → Text → Option Text → Option Text
replaced_front (some rest) new later = some (new ++ rest)
replaced_front none new later = later

abbrev under : ℕ → Option Text → Option Text
under c none = none
under c (some s) = some (c ∷ s)

unfoldable pub replace_first : (old new : Text) → Text → Option Text
replace_first old new [] = replaced_front (strip_prefix old []) new none
replace_first old new (c ∷ s) =
    replaced_front (strip_prefix old (c ∷ s)) new (under c (replace_first old new s))

abbrev or_missing : Option Text → Outcome Text
or_missing (some s) = done s
or_missing none = invalid_input (
    codes
      "NF-e processing workflow requires discoveryWorkflowId when the current workflowId does not encode the discovery pair")

abbrev given_text : Option Text → Text
given_text none = []
given_text (some s) = trim s

-- `resolveDiscoveryWorkflowId`
unfoldable pub resolve_discovery_workflow_id : (current : Text) → ProcessInput → Outcome Text
resolve_discovery_workflow_id current input =
    let given = given_text input.discovery_workflow_id in
    if is_empty given
    then or_missing (replace_first (codes "/processing/") (codes "/discovery/") current)
    else done given

-- `NFE_EMAIL_DISPATCH_DEFAULT_MAX_CONCURRENT_CHILDREN` and `…_MAX_SEND_ATTEMPTS`
abbrev pub default_max_concurrent_children : ℕ
default_max_concurrent_children = 5

abbrev pub default_max_send_attempts : ℕ
default_max_send_attempts = 3

infixl 5 ◌>>=◌
abbrev pub ◌>>=◌ : {A B : Type 0} → Outcome A → (A → Outcome B) → Outcome B
done a >>= f = f a
thrown e >>= f = thrown e

-- `normalizeProcessNfeEmailDispatchSalesWorkflowInput`
unfoldable pub normalize_process_input :
    (current : Text) → ProcessInput → Outcome NormalizedProcessInput
normalize_process_input current input = do
  children ←
      read_positive_integer_or_default input.max_concurrent_children default_max_concurrent_children
  attempts ← read_positive_integer_or_default input.max_send_attempts default_max_send_attempts
  discovery ← resolve_discovery_workflow_id current input
  policy ← normalize_runtime_policy input.runtime_policy
  done (record {
    request_id = resolve_request_id current input;
    source = input.source;
    max_concurrent_children = children;
    max_send_attempts = attempts;
    discovery_workflow_id = discovery;
    runtime_policy = policy;
  })

-- `buildProcessSingleNfeEmailDispatchSaleWorkflowId`
unfoldable pub process_sale_workflow_id : (sale_id attempt : ℕ) → Policy → Outcome Text
process_sale_workflow_id sale_id attempt policy = as_workflow_input (
    scope_workflow_id
      (codes "nfe-email-dispatch/process-sale/sale-"
        ++ (decimal sale_id ++ (codes "/attempt-" ++ decimal attempt)))
      policy)

abbrev pub empty_summary : Summary
empty_summary = record {
  total_eligible_sales = 0;
  completed_children = 0;
  skipped_sales = 0;
  sent_sales = 0;
  failed_transient_sales = 0;
  failed_final_sales = 0;
  delivery_unknown_sales = 0;
  child_workflow_failures = 0;
  failed_sale_ids = [];
}

-- the `switch` of `buildProcessNfeEmailDispatchSalesSummary`
unfoldable pub count_status : Option SaleStatus → Summary → Summary
count_status none s = record s { skipped_sales = s.skipped_sales + 1 }
count_status (some pending) s = s
count_status (some in_progress) s = s
count_status (some sent) s = record s { sent_sales = s.sent_sales + 1 }
count_status (some failed_transient) s = record s {
  failed_transient_sales = s.failed_transient_sales + 1;
}
count_status (some failed_final) s = record s { failed_final_sales = s.failed_final_sales + 1 }
count_status (some delivery_unknown) s = record s {
  delivery_unknown_sales = s.delivery_unknown_sales + 1;
}

unfoldable pub count_results : List ChildResult → Summary → Summary
count_results [] s = s
count_results (r ∷ rs) s =
    count_results rs
      (count_status r.status (record s { completed_children = s.completed_children + 1 }))

unfoldable pub build_summary : List ChildResult → (failures : ℕ) → (failed_ids : List ℕ) → Summary
build_summary results failures failed_ids = record (count_results results empty_summary) {
  total_eligible_sales = length results + failures;
  child_workflow_failures = failures;
  failed_sale_ids = failed_ids;
}

-- the two final statuses of a failure that nobody handled
pub record FailureClass : Type 0 where
  pub final_status : SaleStatus
  pub message : Text

abbrev pub context_permanent_message : Text
context_permanent_message = codes "Falha definitiva ao buscar informações da venda no ERP"

abbrev pub context_transient_message : Text
context_transient_message = codes "Falha no servidor ao buscar informações da venda"

abbrev pub is_permanent_type : Option Text → Bool
is_permanent_type none = false
is_permanent_type (some t) = text_eq t (codes "PermanentIntegrationError")

abbrev pub other_class : Option Text → FailureClass
other_class (some m) = record { final_status = failed_transient; message = m }
other_class none = record { final_status = failed_transient; message = context_transient_message }

unfoldable pub application_class : Option ApplicationInfo → Thrown → FailureClass
application_class none root = other_class (error_message root)
application_class (some i) root =
    if i.non_retryable || is_permanent_type i.type
    then record { final_status = failed_final; message = context_permanent_message }
    else record { final_status = failed_transient; message = context_transient_message }

-- `classifyProcessingActivityFailure`
unfoldable pub classify_processing_activity_failure : Thrown → FailureClass
classify_processing_activity_failure e =
    application_class (find_root_application_failure e) (find_root_workflow_failure e)
