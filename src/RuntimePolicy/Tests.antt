-- ===== src/RuntimePolicy/Tests.antt =====
-- Examples of policies and scopes.
use automation_server_net.Base.{◌≡◌, refl, inr, none, some, [], ◌∷◌}
use automation_server_net.Js.Text.{codes, text_eq, trim, is_white_space}
use automation_server_net.Integration.{ok}
use automation_server_net.RuntimePolicy.{
  PolicyInput, Policy, normalize_automation_runtime_scope, strip_prefix, dev_scope, is_test_run_id,
  normalize_automation_runtime_policy, normalize_automation_runtime_mode,
  normalize_development_policy, normalize_test_run_id, normalize_non_empty_text, scope_workflow_id,
  scope_idempotency_parts_by_scope, normalize_parts, development_policy,
}
use automation_server_net.RuntimePolicy.Scopes.{
  normalize_scope_idem, normalize_policy-IsNormalized, IsNormalized, scope_workflow_id_apart,
  scope_parts_apart,
}

abbrev dev_input : PolicyInput
dev_input = record {
  mode = some (codes "development");
  test_run_id = some (codes " run-1 ");
  idempotency_scope_strategy = none;
  allow_completed_child_workflow_rerun = none;
}

abbrev dev_policy : Policy
dev_policy = development_policy (codes "run-scoped") none (codes "run-1")

normalize_scope_run :
    normalize_automation_runtime_scope (some (codes " dev:run-1")) ≡ ok (codes "dev:run-1")
unfolding normalize_automation_runtime_scope trim is_white_space text_eq strip_prefix dev_scope
    is_test_run_id
normalize_scope_run = refl

normalize_scope_idem_example :
    normalize_automation_runtime_scope (some (codes "dev:run-1")) ≡ ok (codes "dev:run-1")
normalize_scope_idem_example =
    normalize_scope_idem (some (codes " dev:run-1")) (codes "dev:run-1") normalize_scope_run

normalize_policy_run : normalize_automation_runtime_policy (some dev_input) ≡ ok dev_policy
unfolding normalize_automation_runtime_policy normalize_automation_runtime_mode
    normalize_development_policy normalize_test_run_id normalize_non_empty_text trim is_white_space
    text_eq is_test_run_id
normalize_policy_run = refl

normalize_policy-IsNormalized_example : IsNormalized dev_policy
normalize_policy-IsNormalized_example =
    normalize_policy-IsNormalized (some dev_input) dev_policy normalize_policy_run

dev_policy-IsNormalized : IsNormalized dev_policy
unfolding is_test_run_id
dev_policy-IsNormalized = inr (codes "run-1", refl, refl, refl, refl)

scope_workflow_id_run : scope_workflow_id (codes "nfe") dev_policy ≡ ok (codes "nfe/dev/run-1")
unfolding scope_workflow_id normalize_non_empty_text trim is_white_space
scope_workflow_id_run = refl

scope_workflow_id_apart_example : codes "dev:run-1" ≡ codes "dev:run-1"
scope_workflow_id_apart_example =
    scope_workflow_id_apart (codes "nfe") dev_policy dev_policy (codes "nfe/dev/run-1")
      dev_policy-IsNormalized dev_policy-IsNormalized scope_workflow_id_run scope_workflow_id_run

scope_parts_run :
    scope_idempotency_parts_by_scope (codes "7" ∷ []) (codes "dev:run-1")
    ≡ ok (codes "dev:run-1" ∷ codes "7" ∷ [])
unfolding scope_idempotency_parts_by_scope normalize_parts normalize_non_empty_text
    normalize_automation_runtime_scope trim is_white_space text_eq strip_prefix dev_scope
    is_test_run_id
scope_parts_run = refl

scope_parts_padded :
    scope_idempotency_parts_by_scope (codes "7" ∷ []) (codes " dev:run-1")
    ≡ ok (codes "dev:run-1" ∷ codes "7" ∷ [])
unfolding scope_idempotency_parts_by_scope normalize_parts normalize_non_empty_text
    normalize_automation_runtime_scope trim is_white_space text_eq strip_prefix dev_scope
    is_test_run_id
scope_parts_padded = refl

scope_parts_apart_example :
    normalize_automation_runtime_scope (some (codes "dev:run-1"))
    ≡ normalize_automation_runtime_scope (some (codes " dev:run-1"))
scope_parts_apart_example =
    scope_parts_apart (codes "7" ∷ []) (codes "dev:run-1" ∷ codes "7" ∷ []) (codes "dev:run-1")
      (codes " dev:run-1") scope_parts_run scope_parts_padded
