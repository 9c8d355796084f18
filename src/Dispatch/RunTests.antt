-- ===== src/Dispatch/RunTests.antt =====
-- A run over three sales, a manual run, and the lock of an attempt, on small examples.
use automation_server_net.Base.{
  ℕ, ◌+◌, ◌≤◌, ◌≡◌, refl, true, false, Option, none, some, List, [], ◌∷◌, arith, length,
}
use automation_server_net.Js.Number.{whole}
use automation_server_net.Js.Text.{
  Text, codes, text_eq, text_eq_refl, text_eq_sound, trim, is_white_space,
}
use automation_server_net.Integration.{ok}
use automation_server_net.Session.{Session, quiet, statement}
use automation_server_net.RuntimePolicy.{
  normalize_automation_runtime_policy, normalize_automation_runtime_mode,
  normalize_automation_runtime_scope, normalize_production_policy, scope_idempotency_parts_by_scope,
  normalize_parts, normalize_non_empty_text, production,
}
use automation_server_net.Nfe.Sale.{SaleStatus, sent, in_progress}
use automation_server_net.Nfe.Rows.{SaleToProcess}
use automation_server_net.Nfe.Activities.{FinalizeActivityResult, resolve_activity_runtime_scope}
use automation_server_net.Nfe.DateTime.{decimal}
use automation_server_net.Idempotency.Table.{Db, Collation, insert_ignore}
use automation_server_net.Idempotency.Interleaving.{Interferes, run}
use automation_server_net.Idempotency.WellFormed.{WellFormed}
use automation_server_net.Idempotency.Repository.{
  reserve, reserve_loop, reserve_attempt, reserve_inserted, normalize_insert_id,
}
use automation_server_net.Temporal.{Outcome, done, thrown, thrown_other}
use automation_server_net.Dispatch.Processing.{
  manual, ProcessInput, ChildResult, NormalizedProcessInput, normalize_process_input,
  read_positive_integer_or_default, resolve_request_id, resolve_discovery_workflow_id,
  normalize_runtime_policy,
}
use automation_server_net.Dispatch.Mail.{success, context_found, acquired, WorkflowInfo}
use automation_server_net.Dispatch.Children.{Children, run_children, waiting_sales}
use automation_server_net.Dispatch.Children.Total.{count, sale_ids, result_ids}
use automation_server_net.Dispatch.Single.{SingleInput, process_single_sale}
use automation_server_net.Dispatch.Single.Own.{process_single_sale_own}
use automation_server_net.Dispatch.Tests.{single_activities, finalizes_own}
use automation_server_net.Dispatch.Parent.{ProcessResult, Surroundings, process_sales, sale_race}
use automation_server_net.Dispatch.Parent.Results.{
  Totals, process_sales_total, run_sale_children_total,
}
use automation_server_net.Dispatch.Manual.{ManualInput, ManualActivities, process_manual_sale}
use automation_server_net.Dispatch.Manual.Promises.{mail_count, all_faithful, ends_with_mail}
use automation_server_net.Dispatch.Manual.Runs.{process_manual_sale_promises}
use automation_server_net.Dispatch.Lock.{
  Json, StoredResult, Attempt, AcquireInput, read_attempt, read_required_text,
  read_positive_integer, build_attempt_lock_idempotency_key, scope_activity_idempotency_parts,
  parse_attempt_lock_stored_result,
}
use automation_server_net.Dispatch.Lock.Stored.{parse-stored_json}
use automation_server_net.Dispatch.Lock.Queries.{stored_json, acquire_attempt_lock, acquire_checked}
use automation_server_net.Dispatch.Lock.Held.{Leased, acquire_attempt_lock-Leased}

abbrev sale : ℕ → SaleToProcess
sale id = record { sale_id = id; erp_sale_id = 100 + id; current_attempt_count = 0 }

abbrev info : WorkflowInfo
info = record { workflow_id = codes "w"; workflow_type = codes "t"; started_at = codes "now" }

-- the children are runs of the workflow of one sale; the child of sale 2 fails
abbrev child_of : SingleInput → Outcome ChildResult
child_of i = (process_single_sale single_activities info i (record { state = tt; log = [] })).0

child_of-own : (i : SingleInput) (r : ChildResult) → child_of i ≡ done r → r.sale_id ≡ i.sale_id
child_of-own i r = process_single_sale_own single_activities info i tt r finalizes_own

abbrev three_sales : List SaleToProcess
three_sales = sale 1 ∷ sale 2 ∷ sale 3 ∷ []

abbrev around : Surroundings
around = record {
  check_discovery_running = λ id. done (record { is_running = false; discovery_workflow_id = id });
  load_eligible_sales = λ max scope. done three_sales;
  child = λ id. child_of;
  winner = λ active. 0;
}

abbrev process_input : ProcessInput
process_input = record {
  request_id = codes "r";
  source = manual;
  max_concurrent_children = some (whole 2);
  max_send_attempts = none;
  discovery_workflow_id = some (codes "d");
  runtime_policy = none;
}

abbrev normalized_input : NormalizedProcessInput
normalized_input = record {
  request_id = codes "r";
  source = manual;
  max_concurrent_children = 2;
  max_send_attempts = 3;
  discovery_workflow_id = codes "d";
  runtime_policy = record {
    mode = production;
    test_run_id = none;
    idempotency_scope = codes "production";
    idempotency_scope_strategy = codes "business";
    allow_completed_child_workflow_rerun = false;
  };
}

process_input_accepted : normalize_process_input (codes "w") process_input ≡ done normalized_input
unfolding normalize_process_input read_positive_integer_or_default resolve_request_id
    resolve_discovery_workflow_id normalize_runtime_policy normalize_automation_runtime_policy
    normalize_automation_runtime_mode trim is_white_space normalize_production_policy text_eq
process_input_accepted = refl

process_sales_total_example :
    (r : ProcessResult) × (process_sales (codes "w") around process_input ≡ some (done r))
    × Totals three_sales r
process_sales_total_example =
    process_sales_total (codes "w") around process_input normalized_input
      (record { is_running = false; discovery_workflow_id = codes "d" }) three_sales
      process_input_accepted refl refl refl (λ id. child_of-own) (λ k. ground arith)

run_sale_children_total_example :
    (d : Children) × (run_children
        (sale_race around process_input normalized_input)
        2
        (length three_sales)
        (waiting_sales three_sales)
      ≡ some (done d))
    × ((k : ℕ)
        → count k (result_ids d.results) + count k d.failed_sale_ids
          ≡ count k (sale_ids three_sales))
    × (d.child_workflow_failures ≡ length d.failed_sale_ids)
    × (length d.results + length d.failed_sale_ids ≡ length three_sales)
run_sale_children_total_example =
    run_sale_children_total around process_input normalized_input three_sales (omega arith)
      (λ id. child_of-own) (λ k. ground arith)

-- a manual run, all of whose activities succeed but the finalization
abbrev finalization_of : SaleStatus → FinalizeActivityResult
finalization_of status = record {
  sale_id = 1;
  status = status;
  attempt_count = 1;
  error_message = none;
  sent_at = none;
}

abbrev manual_activities : ManualActivities (Unit {0})
manual_activities = record {
  load_sale = λ sale_id scope s. (
    done (
        some (record {
          sale_id = 1;
          erp_sale_id = 101;
          status = in_progress;
          attempt_count = 1;
          last_attempt_at = some (codes "now");
          last_error_message = none;
        })),
    s,
  );
  acquire_lock = λ request_id attempt s. (done (acquired (codes "lease")), s);
  fetch_context = λ erp_sale_id s. (
    done (
        context_found (record {
          recipients = codes "a@b.c" ∷ [];
          numero_nf = codes "12";
          template = codes "";
        })),
    s,
  );
  fetch_pdf = λ sale_id erp_sale_id attempt s. (done (codes "/tmp/a.pdf"), s);
  render_email = λ c s. (done (record { html = codes "<p>"; text = codes "p" }), s);
  send = λ request s. (done success, s);
  finalize = λ f s. (thrown thrown_other, s);
  recover = λ f s. (done (finalization_of f.status), s);
  complete_lock = λ attempt lease status s. (done tt, s);
}

abbrev manual_input : ManualInput
manual_input = record {
  request_id = codes "r";
  sale_id = 1;
  erp_sale_id = 101;
  attempt_count = 1;
  attempt_started_at = codes "now";
  runtime_policy = none;
}

process_manual_sale_promises_example :
    let log =
      (process_manual_sale manual_activities info manual_input
        (record { state = tt; log = [] })).1.log in
    (mail_count log ≤ 1) × (all_faithful manual_input log ≡ true) × (ends_with_mail log ≡ false)
process_manual_sale_promises_example =
    process_manual_sale_promises manual_activities info manual_input tt

-- the lock of an attempt
abbrev exact : Collation
exact = record {
  same = text_eq;
  same_refl = text_eq_refl;
  same_sym = λ s t e. rw (text_eq_sound s t e) (text_eq_refl t);
  same_trans = λ s t u e f. rw (text_eq_sound s t e) f;
}

alone : Interferes exact (λ t. Unit) (quiet 100)
unfolding run
alone = record {
  operations = λ n d. [];
  are_by = λ n d. tt;
  are_sound = λ n d. tt;
  are_run = λ n d. refl;
}

abbrev begin : Session Db
begin = record { db = record { rows = []; next_id = 1; time = 100 }; queries = 0 }

empty-WellFormed : WellFormed exact begin.db
empty-WellFormed = record { distinct = tt; numbered = tt; consistent = tt }

abbrev acquire_input : AcquireInput
acquire_input = record {
  request_id = codes "r";
  workflow_id = codes "w";
  sale_id = whole 1;
  attempt_number = whole 2;
  runtime_scope = none;
}

abbrev no_json : Text → Option Json
no_json s = none

abbrev no_hash : Attempt → Text
no_hash a = codes "h"

acquires :
    (acquire_attempt_lock exact no_json no_hash (codes "t") acquire_input (quiet 100) begin).0
    ≡ ok (acquired (codes "t"))
unfolding acquire_attempt_lock acquire_checked read_attempt read_required_text read_positive_integer
    resolve_activity_runtime_scope normalize_automation_runtime_scope
    build_attempt_lock_idempotency_key scope_activity_idempotency_parts
    scope_idempotency_parts_by_scope normalize_parts normalize_non_empty_text decimal reserve
    reserve_loop reserve_attempt reserve_inserted statement insert_ignore normalize_insert_id
    text_eq trim is_white_space
acquires = refl

acquire_attempt_lock-Leased_example :
    (a : Attempt) × (key : Text) × Leased exact no_json no_hash
      (codes "t")
      (quiet 100)
      alone
      acquire_input
      a
      key
      (codes "t")
      (acquire_attempt_lock exact no_json no_hash (codes "t") acquire_input (quiet 100) begin).1.db
acquire_attempt_lock-Leased_example =
    acquire_attempt_lock-Leased exact no_json no_hash (codes "t") (quiet 100) alone acquire_input
      begin (codes "t") empty-WellFormed acquires

abbrev stored : StoredResult
stored = record { final_status = sent; released_at = codes "2026" }

parse-stored_json_example : parse_attempt_lock_stored_result (stored_json stored) ≡ some stored
unfolding trim is_white_space
parse-stored_json_example = parse-stored_json stored refl refl refl
