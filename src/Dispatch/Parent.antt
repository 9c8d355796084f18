-- ===== src/Dispatch/Parent.antt =====
-- `processNfeEmailDispatchSalesWorkflow` and `runProcessSaleChild` of
-- src/temporal/workflows/nfe/process-nfe-email-dispatch-sales.workflow.ts. Its two activities and its
-- children are parameters.
pub mod Results
use automation_server_net.Base.{
  ℕ, ◌+◌, Bool, true, false, Option, none, some, List, [], ◌∷◌, length, ◌==◌, if◌then◌else◌,
}
use automation_server_net.Js.Number.{whole}
use automation_server_net.Js.Text.{Text}
use automation_server_net.RuntimePolicy.{Policy, PolicyInput}
use automation_server_net.Nfe.Rows.{SaleToProcess}
use automation_server_net.Temporal.{Outcome, done, thrown}
use automation_server_net.Dispatch.Processing.{
  Source, ProcessInput, NormalizedProcessInput, ChildResult, Summary, normalize_process_input,
  process_sale_workflow_id, empty_summary, build_summary, ◌>>=◌,
}
use automation_server_net.Dispatch.Children.{
  Settled, completed, failed, Children, Race, run_children, waiting_sales,
}
use automation_server_net.Dispatch.Single.{SingleInput}

-- `CheckNfeEmailDispatchDiscoveryRunningResult`
pub record DiscoveryState : Type 0 where
  pub is_running : Bool
  pub discovery_workflow_id : Text

pub data ProcessStatus : Type 0 where
  success partial_failure skipped_discovery_running : ProcessStatus

-- `ProcessNfeEmailDispatchSalesWorkflowResult`
pub record ProcessResult : Type 0 where
  pub request_id : Text
  pub source : Source
  pub max_concurrent_children : ℕ
  pub max_send_attempts : ℕ
  pub status : ProcessStatus
  pub summary : Summary
  pub blocked_by_workflow_id : Option Text

-- the argument of the child of a sale
abbrev pub child_input : (max_send_attempts : ℕ) → Option PolicyInput → SaleToProcess → SingleInput
child_input max policy sale = record {
  sale_id = sale.sale_id;
  erp_sale_id = sale.erp_sale_id;
  current_attempt_count = sale.current_attempt_count;
  max_send_attempts = max;
  runtime_policy = policy;
}

abbrev pub child_settled : ℕ → Outcome ChildResult → Settled
child_settled id (done r) = completed r
child_settled id (thrown e) = failed id

-- `runProcessSaleChild`; `child` starts the child workflow of an id and waits for its result
unfoldable pub run_process_sale_child :
    (child : (workflow_id : Text) → SingleInput → Outcome ChildResult)
    → SaleToProcess
    → (max_send_attempts : ℕ) → Policy
    → Option PolicyInput
    → Outcome Settled
run_process_sale_child child sale max policy policy_input = do
  id ← process_sale_workflow_id sale.sale_id (sale.current_attempt_count + 1) policy
  done (child_settled sale.sale_id (child id (child_input max policy_input sale)))

-- the outside: the two activities, and the children of a run
pub record Surroundings : Type 0 where
  pub check_discovery_running : (discovery_workflow_id : Text) → Outcome DiscoveryState
  pub load_eligible_sales : (max_send_attempts : ℕ) (scope : Text) → Outcome (List SaleToProcess)
  -- starts the child workflow of an id, and waits for its result
  pub child : (workflow_id : Text) → SingleInput → Outcome ChildResult
  -- which of the running children is the first to settle
  pub winner : List SaleToProcess → ℕ

module _ (around : Surroundings) (input : ProcessInput) (n : NormalizedProcessInput) where
  abbrev result : ProcessStatus → Summary → Option Text → ProcessResult
  result status summary blocked_by = record {
    request_id = n.request_id;
    source = n.source;
    max_concurrent_children = n.max_concurrent_children;
    max_send_attempts = n.max_send_attempts;
    status = status;
    summary = summary;
    blocked_by_workflow_id = blocked_by;
  }

  abbrev pub children_result : Children → ProcessResult
  children_result c =
      result (if c.child_workflow_failures == 0 then success else partial_failure)
        (build_summary c.results c.child_workflow_failures c.failed_sale_ids) none

  abbrev finished : Option (Outcome Children) → Option (Outcome ProcessResult)
  finished none = none
  finished (some (done c)) = some (done (children_result c))
  finished (some (thrown e)) = some (thrown e)

  -- the promises that `runProcessSaleChild` gives the loop
  abbrev pub sale_race : Race
  sale_race = record {
    settles = λ s.
        run_process_sale_child around.child s n.max_send_attempts n.runtime_policy
          input.runtime_policy;
    winner = around.winner;
  }

  -- after the sales are loaded; nothing if the loop over the children is not over after one round for
  -- each sale
  unfoldable pub process_loaded : List SaleToProcess → Option (Outcome ProcessResult)
  process_loaded [] = some (done (result success empty_summary none))
  process_loaded (s ∷ ss) =
      finished (
        run_children sale_race n.max_concurrent_children (length (s ∷ ss)) (waiting_sales (s ∷ ss)))

  abbrev after_loading : Outcome (List SaleToProcess) → Option (Outcome ProcessResult)
  after_loading (done sales) = process_loaded sales
  after_loading (thrown e) = some (thrown e)

  abbrev checked : Outcome DiscoveryState → Option (Outcome ProcessResult)
  checked (thrown e) = some (thrown e)
  checked (done state) =
      if state.is_running
      then some
          (done (result skipped_discovery_running empty_summary (some state.discovery_workflow_id)))
      else after_loading
          (around.load_eligible_sales n.max_send_attempts n.runtime_policy.idempotency_scope)

  unfoldable pub process_normalized : Option (Outcome ProcessResult)
  process_normalized = checked (around.check_discovery_running n.discovery_workflow_id)

abbrev normalized :
    Surroundings → ProcessInput → Outcome NormalizedProcessInput → Option (Outcome ProcessResult)
normalized around input (done n) = process_normalized around input n
normalized around input (thrown e) = some (thrown e)

unfoldable pub process_sales :
    (current : Text) → Surroundings → ProcessInput → Option (Outcome ProcessResult)
process_sales current around input = normalized around input (normalize_process_input current input)
