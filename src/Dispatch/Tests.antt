-- ===== src/Dispatch/Tests.antt =====
-- Runs of the dispatch workflows on small examples.
use automation_server_net.Base.{
  ℕ, ◌+◌, ◌≤◌, ◌≡◌, refl, true, none, some, List, [], ◌∷◌, length, arith, every, ◌==◌,
  if◌then◌else◌,
}
use automation_server_net.Js.Text.{codes, text_eq}
use automation_server_net.Nfe.Sale.{
  SaleStatus, sent, failed_transient, failed_final, delivery_unknown,
}
use automation_server_net.Nfe.Rows.{SaleToProcess, claimed}
use automation_server_net.Nfe.Activities.{FinalizeActivityInput, FinalizeActivityResult}
use automation_server_net.Js.Number.{magnitude}
use automation_server_net.Temporal.{done, thrown, thrown_other}
use automation_server_net.Dispatch.Processing.{ChildResult, build_summary}
use automation_server_net.Dispatch.Mail.{
  is_filename_code, sanitize_numero_nf, build_smtp_idempotency_key, success, context_found,
  EmailContext, RenderedEmail, acquired, WorkflowInfo,
}
use automation_server_net.Dispatch.Keys.{read_smtp_key, read_smtp_key-build_smtp_idempotency_key}
use automation_server_net.Dispatch.Filename.{starts_clean, ends_clean, sanitize_numero_nf_safe}
use automation_server_net.Dispatch.Children.{completed, failed, Race, start_children, waiting_sales}
use automation_server_net.Dispatch.Children.Total.{count, sale_ids, start_children_bounded}
use automation_server_net.Dispatch.Parent.Results.{
  with_status, without_status, build_summary-classified,
}
use automation_server_net.Dispatch.Single.{
  SingleInput, Activities, process_single_sale, with_lock, run_claim, with_claim, run_attempt,
  with_context, send_mail, finish_attempt, finalize_attempt, finish,
}
use automation_server_net.Dispatch.Mail.{resolve_smtp_result_to_finalization}
use automation_server_net.RuntimePolicy.{
  normalize_automation_runtime_policy, normalize_automation_runtime_mode,
  normalize_production_policy,
}
use automation_server_net.Temporal.{call}
use automation_server_net.Dispatch.Single.Protocol.{mail_count}
use automation_server_net.Dispatch.Single.Reports.{Reported, process_single_sale-Reported}
use automation_server_net.Dispatch.Single.Own.{process_single_sale_own}
use automation_server_net.Dispatch.Single.Once.{process_single_sale_mails_once}
use automation_server_net.Dispatch.Single.Sent.{all_honest, process_single_sale_honest}

abbrev sale : ℕ → SaleToProcess
sale id = record { sale_id = id; erp_sale_id = 100 + id; current_attempt_count = 0 }

abbrev child_result : ℕ → ChildResult
child_result id = record {
  sale_id = id;
  erp_sale_id = 100 + id;
  status = some sent;
  attempt_count = some 1;
  error_message = none;
}

-- the child of sale 2 fails, and the longest running child is always the first to end
abbrev race : Race
race = record {
  settles =
      λ s. done (if s.sale_id == 2 then failed s.sale_id else completed (child_result s.sale_id));
  winner = λ active. 0;
}

abbrev three_sales : List SaleToProcess
three_sales = sale 1 ∷ sale 2 ∷ sale 3 ∷ []

three_sales_once : (k : ℕ) → count k (sale_ids three_sales) ≤ 1
three_sales_once k = ground arith

start_children_bounded_example :
    let started = start_children race 2 (waiting_sales three_sales) in
    (length started.active_children ≤ 2)
    × (length started.pending_sales + length started.active_children ≡ 3 + 0)
    × ((k : ℕ)
        → count k (sale_ids started.pending_sales) + count k (sale_ids started.active_children)
          ≡ count k (sale_ids three_sales) + 0)
start_children_bounded_example =
    start_children_bounded race 2 (waiting_sales three_sales) (omega arith)
      (λ k. omega (arith, three_sales_once k)) (omega arith)

build_summary-classified_example :
    let results = child_result 1 ∷ child_result 3 ∷ [] in
    let summary = build_summary results 1 (2 ∷ []) in
    (summary.skipped_sales ≡ without_status results)
    × (summary.sent_sales ≡ with_status sent results)
    × (summary.failed_transient_sales ≡ with_status failed_transient results)
    × (summary.failed_final_sales ≡ with_status failed_final results)
    × (summary.delivery_unknown_sales ≡ with_status delivery_unknown results)
    × (summary.completed_children ≡ 2)
    × (summary.total_eligible_sales ≡ summary.completed_children + summary.child_workflow_failures)
build_summary-classified_example =
    build_summary-classified (child_result 1 ∷ child_result 3 ∷ []) 1 (2 ∷ [])

read_smtp_key_example : read_smtp_key (build_smtp_idempotency_key 1207 3) ≡ some (1207, 3)
read_smtp_key_example = read_smtp_key-build_smtp_idempotency_key 1207 3

sanitize_numero_nf_example :
    (every is_filename_code (sanitize_numero_nf (codes " /12 3/ ")) ≡ true)
    × (starts_clean (sanitize_numero_nf (codes " /12 3/ ")) ≡ true)
    × (ends_clean (sanitize_numero_nf (codes " /12 3/ ")) ≡ true)
sanitize_numero_nf_example = sanitize_numero_nf_safe (codes " /12 3/ ")

-- a workflow of one sale, all of whose activities succeed but the claim of sale 2
abbrev mail_context : EmailContext
mail_context = record {
  recipients = codes "a@b.c" ∷ [];
  numero_nf = codes "12";
  template = codes "";
}

abbrev mail_html : RenderedEmail
mail_html = record { html = codes "<p>"; text = codes "p" }

abbrev pub finalization_of : ℕ → SaleStatus → FinalizeActivityResult
finalization_of sale_id status = record {
  sale_id = sale_id;
  status = status;
  attempt_count = 1;
  error_message = none;
  sent_at = none;
}

abbrev pub single_activities : Activities (Unit {0})
single_activities = record {
  acquire_lock = λ n scope s. (done (acquired (codes "lease")), s);
  claim = λ input s.
      (if magnitude input.sale_id == 2 then thrown thrown_other else done (claimed 1), s);
  fetch_context = λ id s. (done (context_found mail_context), s);
  fetch_pdf = λ id erp n s. (done (codes "/tmp/a.pdf"), s);
  render_email = λ c s. (done mail_html, s);
  send = λ request s. (done success, s);
  finalize = λ f s. (done (finalization_of (magnitude f.sale_id) f.status), s);
  complete_lock = λ lease status s. (done tt, s);
  cancel_lock = λ lease s. (done tt, s);
}

abbrev info : WorkflowInfo
info = record {
  workflow_id = codes "w";
  workflow_type = codes "t";
  started_at = codes "2026-05-04 12:00:00.000";
}

abbrev single_input : SingleInput
single_input = record {
  sale_id = 1;
  erp_sale_id = 101;
  current_attempt_count = 0;
  max_send_attempts = 3;
  runtime_policy = none;
}

process_single_sale-Reported_example :
    Reported single_input
      (process_single_sale single_activities info single_input (record { state = tt; log = [] }))
process_single_sale-Reported_example =
    process_single_sale-Reported single_activities info single_input tt

process_single_sale_mails_once_example :
    mail_count
      (process_single_sale single_activities info single_input
        (record { state = tt; log = [] })).1.log
    ≤ 1
process_single_sale_mails_once_example =
    process_single_sale_mails_once single_activities info single_input tt

process_single_sale_honest_example :
    all_honest 1
      (process_single_sale single_activities info single_input
        (record { state = tt; log = [] })).1.log
    ≡ true
process_single_sale_honest_example =
    process_single_sale_honest single_activities info single_input tt

-- the run mails once
single_run_mails :
    mail_count
      (process_single_sale single_activities info single_input
        (record { state = tt; log = [] })).1.log
    ≡ 1
unfolding process_single_sale normalize_automation_runtime_policy normalize_automation_runtime_mode
    call with_lock run_claim with_claim run_attempt with_context send_mail finish_attempt
    finalize_attempt finish resolve_smtp_result_to_finalization normalize_production_policy text_eq
single_run_mails = refl

-- the finalization answers for its sale
pub finalizes_own :
    (f : FinalizeActivityInput) (s : Unit {0}) (r : FinalizeActivityResult)
    → (single_activities.finalize f s).0 ≡ done r
    → r.sale_id ≡ magnitude f.sale_id
finalizes_own f s r e = ground (arith, e)

single_run_returns :
    (process_single_sale single_activities info single_input (record { state = tt; log = [] })).0
    ≡ done (child_result 1)
unfolding process_single_sale normalize_automation_runtime_policy normalize_automation_runtime_mode
    call with_lock run_claim with_claim run_attempt with_context send_mail finish_attempt
    finalize_attempt finish resolve_smtp_result_to_finalization normalize_production_policy text_eq
single_run_returns = refl

process_single_sale_own_example : (child_result 1).sale_id ≡ single_input.sale_id
process_single_sale_own_example =
    process_single_sale_own single_activities info single_input tt (child_result 1) finalizes_own
      single_run_returns
