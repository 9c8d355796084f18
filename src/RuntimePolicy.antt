-- ===== src/RuntimePolicy.antt =====
-- src/domain/shared/automation-runtime-policy.ts: the runtime mode of an automation, and the scope
-- that keeps the records of development runs apart from those of production.
pub mod Scopes
mod Tests
use automation_server_net.Base.{
  ℕ, ◌≡◌, Bool, true, false, not, ◌&&◌, ◌||◌, Option, none, some, List, [], ◌∷◌, ◌++◌, leb, ◌==◌,
  if◌then◌else◌, every, length, or_else,
}
use automation_server_net.Js.Text.{Text, codes, text_eq, is_empty, is_digit, between, trim}
use automation_server_net.Integration.{Result, ok, raise, policy_validation, ◌>>=◌}

-- `AutomationRuntimeMode`
pub data Mode : Type 0 where
  production development : Mode

-- `AutomationRuntimePolicyInput`; the mode and the strategy are texts that are checked.
pub record PolicyInput : Type 0 where
  pub mode : Option Text
  pub test_run_id : Option Text
  pub idempotency_scope_strategy : Option Text
  pub allow_completed_child_workflow_rerun : Option Bool

-- `NormalizedAutomationRuntimePolicy`
pub record Policy : Type 0 where
  pub mode : Mode
  pub test_run_id : Option Text
  pub idempotency_scope : Text
  pub idempotency_scope_strategy : Text
  pub allow_completed_child_workflow_rerun : Bool

-- `PRODUCTION_RUNTIME_SCOPE`, and the front of a development scope
abbrev pub production_runtime_scope : Text
production_runtime_scope = codes "production"

abbrev pub dev_prefix : Text
dev_prefix = codes "dev:"

-- an undefined input has no field
abbrev pub no_input : PolicyInput
no_input = record {
  mode = none;
  test_run_id = none;
  idempotency_scope_strategy = none;
  allow_completed_child_workflow_rerun = none;
}

-- `[A-Za-z0-9._-]`
abbrev pub is_run_character : ℕ → Bool
is_run_character c =
    between b'A' b'Z' c || between b'a' b'z' c || is_digit c || c == b'.' || c == b'_' || c == b'-'

-- `TEST_RUN_ID_PATTERN`
unfoldable pub is_test_run_id : Text → Bool
is_test_run_id s = not (is_empty s) && leb (length s) 80 && every is_run_character s

unfoldable pub normalize_non_empty_text : Option Text → Result Text
normalize_non_empty_text none = raise policy_validation
normalize_non_empty_text (some value) =
    let s = trim value in if is_empty s then raise policy_validation else ok s

unfoldable pub normalize_test_run_id : Option Text → Result Text
normalize_test_run_id value = do
  s ← normalize_non_empty_text value
  if is_test_run_id s then ok s else raise policy_validation

unfoldable pub normalize_automation_runtime_mode : Option Text → Result Mode
normalize_automation_runtime_mode none = ok production
normalize_automation_runtime_mode (some m) =
    if text_eq m (codes "production")
    then ok production
    else if text_eq m (codes "development")
    then ok development
    else raise policy_validation

-- `input?.testRunId?.trim()` is a text that is not empty
abbrev pub is_given : Option Text → Bool
is_given none = false
is_given (some s) = not (is_empty (trim s))

abbrev is_true : Option Bool → Bool
is_true none = false
is_true (some b) = b

unfoldable pub normalize_production_policy : PolicyInput → Result Policy
normalize_production_policy input =
    let strategy = or_else input.idempotency_scope_strategy (codes "business") in
    if not (text_eq strategy (codes "business"))
    then raise policy_validation
    else if is_true input.allow_completed_child_workflow_rerun
    then raise policy_validation
    else if is_given input.test_run_id
    then raise policy_validation
    else ok (record {
      mode = production;
      test_run_id = none;
      idempotency_scope = production_runtime_scope;
      idempotency_scope_strategy = strategy;
      allow_completed_child_workflow_rerun = false;
    })

abbrev pub development_policy :
    (strategy : Text) (rerun : Option Bool) (test_run_id : Text) → Policy
development_policy strategy rerun test_run_id = record {
  mode = development;
  test_run_id = some test_run_id;
  idempotency_scope = dev_prefix ++ test_run_id;
  idempotency_scope_strategy = strategy;
  allow_completed_child_workflow_rerun = or_else rerun true;
}

unfoldable pub normalize_development_policy : PolicyInput → Result Policy
normalize_development_policy input =
    let strategy = or_else input.idempotency_scope_strategy (codes "run-scoped") in
    if not (text_eq strategy (codes "run-scoped")) then raise policy_validation else (do
      test_run_id ← normalize_test_run_id input.test_run_id
      ok (development_policy strategy input.allow_completed_child_workflow_rerun test_run_id))

abbrev pub normalize_by_mode : Mode → PolicyInput → Result Policy
normalize_by_mode production input = normalize_production_policy input
normalize_by_mode development input = normalize_development_policy input

-- `normalizeAutomationRuntimePolicy`
unfoldable pub normalize_automation_runtime_policy : Option PolicyInput → Result Policy
normalize_automation_runtime_policy input =
    let given = or_else input no_input in
    do mode ← normalize_automation_runtime_mode given.mode; normalize_by_mode mode given

-- the text behind a prefix
unfoldable pub strip_prefix : Text → Text → Option Text
strip_prefix [] s = some s
strip_prefix (c ∷ p) [] = none
strip_prefix (c ∷ p) (d ∷ s) = if c == d then strip_prefix p s else none

-- the match of `DEV_RUNTIME_SCOPE_PATTERN`
unfoldable pub dev_scope : Option Text → Result Text
dev_scope none = raise policy_validation
dev_scope (some s) = if is_test_run_id s then ok (dev_prefix ++ s) else raise policy_validation

-- `normalizeAutomationRuntimeScope`
unfoldable pub normalize_automation_runtime_scope : Option Text → Result Text
normalize_automation_runtime_scope none = ok production_runtime_scope
normalize_automation_runtime_scope (some value) =
    let s = trim value in
    if is_empty s || text_eq s production_runtime_scope
    then ok production_runtime_scope
    else dev_scope (strip_prefix dev_prefix s)

-- `scopeWorkflowId`
abbrev pub scoped_id : Mode → Option Text → Text → Text
scoped_id production test_run_id s = s
scoped_id development none s = s
scoped_id development (some id) s = s ++ (codes "/dev/" ++ id)

unfoldable pub scope_workflow_id : Text → Policy → Result Text
scope_workflow_id base policy = do
  s ← normalize_non_empty_text (some base)
  ok (scoped_id policy.mode policy.test_run_id s)

-- the `map` of `normalizeNonEmptyText`, which throws at the first part that is empty
unfoldable pub normalize_parts : List Text → Result (List Text)
normalize_parts [] = ok []
normalize_parts (part ∷ parts) = do
  s ← normalize_non_empty_text (some part)
  rest ← normalize_parts parts
  ok (s ∷ rest)

-- `scopeIdempotencyPartsByScope`
unfoldable pub scope_idempotency_parts_by_scope : List Text → Text → Result (List Text)
scope_idempotency_parts_by_scope base_parts scope = do
  parts ← normalize_parts base_parts
  s ← normalize_automation_runtime_scope (some scope)
  ok (if text_eq s production_runtime_scope then parts else s ∷ parts)

-- `scopeIdempotencyParts`
unfoldable pub scope_idempotency_parts : List Text → Policy → Result (List Text)
scope_idempotency_parts base_parts policy =
    scope_idempotency_parts_by_scope base_parts policy.idempotency_scope

pub data ReusePolicy : Type 0 where
  allow_duplicate allow_duplicate_failed_only : ReusePolicy

-- `resolveChildWorkflowIdReusePolicy`
unfoldable pub resolve_child_workflow_id_reuse_policy : Policy → ReusePolicy
resolve_child_workflow_id_reuse_policy policy =
    if policy.allow_completed_child_workflow_rerun
    then allow_duplicate
    else allow_duplicate_failed_only
