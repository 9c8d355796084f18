-- ===== src/Dispatch/Parent/Results.antt =====
-- What the workflow over all eligible sales reports.
use automation_server_net.Base.{
  ℕ, ◌+◌, ◌≤◌, ◌<◌, ◌≡◌, refl, subst, false, ◌&&◌, Option, none, some, List, [], ◌∷◌, length, ◌++◌,
  arith, inl, inr, Bool-cases, ◌==◌, ltb, if◌then◌else◌,
}
use automation_server_net.Js.Number.{JsNumber, is_safe_integer, whole, negative, fraction}
use automation_server_net.Js.Text.{Text, codes, is_white_space, is_empty-trim, trim}
use automation_server_net.Nfe.Sale.{
  SaleStatus, pending, in_progress, sent, failed_transient, failed_final, delivery_unknown,
  status_eq,
}
use automation_server_net.Nfe.Rows.{SaleToProcess}
use automation_server_net.Temporal.{Outcome, done, thrown}
use automation_server_net.Dispatch.Processing.{
  ProcessInput, NormalizedProcessInput, ChildResult, Summary, count_status, count_results,
  build_summary, empty_summary, read_positive_integer_or_default, resolve_discovery_workflow_id,
  process_sale_workflow_id, normalize_runtime_policy, normalize_process_input,
  default_max_concurrent_children, default_max_send_attempts, ◌>>=◌,
}
use automation_server_net.Dispatch.Children.Total.{
  count, sale_ids, result_ids, settled_id, IsOwn, run_children_total,
}
use automation_server_net.Dispatch.Children.{Children, run_children, waiting_sales}
use automation_server_net.Dispatch.Single.{SingleInput}
use automation_server_net.RuntimePolicy.{
  Policy, scope_workflow_id, normalize_non_empty_text, scoped_id,
}
use automation_server_net.Nfe.DateTime.{decimal}
use automation_server_net.Dispatch.Parent.{
  DiscoveryState, success, partial_failure, ProcessResult, Surroundings, children_result, sale_race,
  child_input, child_settled, run_process_sale_child, process_loaded, process_normalized,
  process_sales,
}

abbrev equals : SaleStatus → Option SaleStatus → ℕ
equals x none = 0
equals x (some y) = if status_eq x y then 1 else 0

abbrev skips : Option SaleStatus → ℕ
skips none = 1
skips (some y) = 0

-- how many results have a status, and how many have none
abbrev pub with_status : SaleStatus → List ChildResult → ℕ
with_status x [] = 0
with_status x (r ∷ rs) = equals x r.status + with_status x rs

abbrev pub without_status : List ChildResult → ℕ
without_status [] = 0
without_status (r ∷ rs) = skips r.status + without_status rs

-- by how much the counters of a summary grow
record Grown (before after : Summary) (skipped_by sent_by transient_by final_by unknown_by : ℕ)
    : Type 0 where
  skipped : after.skipped_sales ≡ before.skipped_sales + skipped_by
  sent : after.sent_sales ≡ before.sent_sales + sent_by
  transient : after.failed_transient_sales ≡ before.failed_transient_sales + transient_by
  final : after.failed_final_sales ≡ before.failed_final_sales + final_by
  unknown : after.delivery_unknown_sales ≡ before.delivery_unknown_sales + unknown_by

abbrev GrownBy : Option SaleStatus → Summary → Summary → Type 0
GrownBy o before after =
    Grown before after (skips o) (equals sent o) (equals failed_transient o) (equals failed_final o)
      (equals delivery_unknown o)

count_status-Grown :
    (o : Option SaleStatus) (s : Summary)
    → GrownBy o s (count_status o s)
      × ((count_status o s).completed_children ≡ s.completed_children)
unfolding count_status
count_status-Grown none s = (grown, refl)
  where
    grown : GrownBy none s (count_status none s)
    grown = record {
      skipped = omega arith;
      sent = omega arith;
      transient = omega arith;
      final = omega arith;
      unknown = omega arith;
    }
count_status-Grown (some pending) s = (grown, refl)
  where
    grown : GrownBy (some pending) s (count_status (some pending) s)
    grown = record {
      skipped = omega arith;
      sent = omega arith;
      transient = omega arith;
      final = omega arith;
      unknown = omega arith;
    }
count_status-Grown (some in_progress) s = (grown, refl)
  where
    grown : GrownBy (some in_progress) s (count_status (some in_progress) s)
    grown = record {
      skipped = omega arith;
      sent = omega arith;
      transient = omega arith;
      final = omega arith;
      unknown = omega arith;
    }
count_status-Grown (some sent) s = (grown, refl)
  where
    grown : GrownBy (some sent) s (count_status (some sent) s)
    grown = record {
      skipped = omega arith;
      sent = omega arith;
      transient = omega arith;
      final = omega arith;
      unknown = omega arith;
    }
count_status-Grown (some failed_transient) s = (grown, refl)
  where
    grown : GrownBy (some failed_transient) s (count_status (some failed_transient) s)
    grown = record {
      skipped = omega arith;
      sent = omega arith;
      transient = omega arith;
      final = omega arith;
      unknown = omega arith;
    }
count_status-Grown (some failed_final) s = (grown, refl)
  where
    grown : GrownBy (some failed_final) s (count_status (some failed_final) s)
    grown = record {
      skipped = omega arith;
      sent = omega arith;
      transient = omega arith;
      final = omega arith;
      unknown = omega arith;
    }
count_status-Grown (some delivery_unknown) s = (grown, refl)
  where
    grown : GrownBy (some delivery_unknown) s (count_status (some delivery_unknown) s)
    grown = record {
      skipped = omega arith;
      sent = omega arith;
      transient = omega arith;
      final = omega arith;
      unknown = omega arith;
    }

count_results-Grown :
    (rs : List ChildResult) (s : Summary)
    → Grown s
        (count_results rs s)
        (without_status rs)
        (with_status sent rs)
        (with_status failed_transient rs)
        (with_status failed_final rs)
        (with_status delivery_unknown rs)
      × ((count_results rs s).completed_children ≡ s.completed_children + length rs)
unfolding count_results
count_results-Grown [] s = (
  record {
    skipped = omega arith;
    sent = omega arith;
    transient = omega arith;
    final = omega arith;
    unknown = omega arith;
  },
  omega arith,
)
count_results-Grown (r ∷ rs) s =
    let counted = record s { completed_children = s.completed_children + 1 } in
    let (one, same) = count_status-Grown r.status counted in
    let (all, completed) = count_results-Grown rs (count_status r.status counted) in
    (
      record {
        skipped = omega (arith, one.skipped, all.skipped);
        sent = omega (arith, one.sent, all.sent);
        transient = omega (arith, one.transient, all.transient);
        final = omega (arith, one.final, all.final);
        unknown = omega (arith, one.unknown, all.unknown);
      },
      omega (arith, same, completed),
    )

-- Each counter of the summary is the number of the results with its status: skipped those without one,
-- sent, failed for now, failed for good and unknown those of that status. Each result counts as
-- completed, and the failed children come on top of them in the total.
pub build_summary-classified :
    (rs : List ChildResult) (failures : ℕ) (failed_ids : List ℕ)
    → let summary = build_summary rs failures failed_ids in
      (summary.skipped_sales ≡ without_status rs)
      × (summary.sent_sales ≡ with_status sent rs)
      × (summary.failed_transient_sales ≡ with_status failed_transient rs)
      × (summary.failed_final_sales ≡ with_status failed_final rs)
      × (summary.delivery_unknown_sales ≡ with_status delivery_unknown rs)
      × (summary.completed_children ≡ length rs)
      × (summary.total_eligible_sales
          ≡ summary.completed_children + summary.child_workflow_failures)
unfolding build_summary
build_summary-classified rs failures failed_ids =
    let (all, completed) = count_results-Grown rs empty_summary in
    (
      omega (arith, all.skipped),
      omega (arith, all.sent),
      omega (arith, all.transient),
      omega (arith, all.final),
      omega (arith, all.unknown),
      omega (arith, completed),
      omega (arith, completed),
    )

abbrev PositiveOutcome : Outcome ℕ → Type 0
PositiveOutcome (done m) = 0 < m
PositiveOutcome (thrown e) = Unit {0}

-- there is room for a child where the input is accepted
abbrev HasRoom : Outcome NormalizedProcessInput → Type 0
HasRoom (done n) = 0 < n.max_concurrent_children
HasRoom (thrown e) = Unit {0}

read_positive_lem :
    (input : Option JsNumber)
    → PositiveOutcome (read_positive_integer_or_default input default_max_concurrent_children)
unfolding read_positive_integer_or_default
read_positive_lem none = omega arith
read_positive_lem (some (whole m)) = elim (Bool-cases (is_safe_integer (whole m) && ltb 0 m)) [
  | inl e ↦ rw e (ground (arith, e))
  | inr e ↦ rw e tt
]
read_positive_lem (some (negative m)) = elim (Bool-cases (is_safe_integer (negative m) && false)) [
  | inl e ↦ ground (arith, e)
  | inr e ↦ rw e tt
]
read_positive_lem (some fraction) = tt

bind_positive :
    (o : Outcome ℕ) (k : ℕ → Outcome NormalizedProcessInput)
    → PositiveOutcome o
    → ((m : ℕ) → 0 < m → HasRoom (k m))
    → HasRoom (o >>= k)
bind_positive (done m) k h next = next m h
bind_positive (thrown e) k h next = tt

bind_any :
    {A : Type 0} (o : Outcome A) (k : A → Outcome NormalizedProcessInput)
    → ((a : A) → HasRoom (k a))
    → HasRoom (o >>= k)
bind_any (done a) k next = next a
bind_any (thrown e) k next = tt

normalize_process_input-HasRoom :
    (current : Text) (input : ProcessInput) → HasRoom (normalize_process_input current input)
unfolding normalize_process_input
normalize_process_input-HasRoom current input =
    bind_positive
      (read_positive_integer_or_default input.max_concurrent_children
        default_max_concurrent_children)
      _ (read_positive_lem input.max_concurrent_children)
      (λ m positive.
        bind_any
          (read_positive_integer_or_default input.max_send_attempts default_max_send_attempts) _
          (λ attempts. bind_any (resolve_discovery_workflow_id current input) _ (λ discovery.
            bind_any (normalize_runtime_policy input.runtime_policy) _ (λ policy. positive))))

-- what a run over some sales reports
pub record Totals (sales : List SaleToProcess) (r : ProcessResult) : Type 0 where
  total : r.summary.total_eligible_sales ≡ length sales
  parts : r.summary.completed_children + r.summary.child_workflow_failures ≡ length sales
  status : r.status ≡ (if r.summary.child_workflow_failures == 0 then success else partial_failure)

-- The id of a child is always built.
process_sale_workflow_id-defined :
    (sale_id attempt : ℕ) (policy : Policy)
    → (id : Text) × (process_sale_workflow_id sale_id attempt policy ≡ done id)
unfolding process_sale_workflow_id scope_workflow_id normalize_non_empty_text is_white_space
process_sale_workflow_id-defined sale_id attempt policy = (
  scoped_id policy.mode policy.test_run_id (trim (b'n' ∷ base sale_id attempt)),
  rw (is_empty-trim b'n' (base sale_id attempt) refl) refl,
)
  where
    base : ℕ → ℕ → Text
    base s a =
        codes "fe-email-dispatch/process-sale/sale-"
        ++ (decimal s ++ (codes "/attempt-" ++ decimal a))

module _ (around : Surroundings) (input : ProcessInput) (n : NormalizedProcessInput)
    (own : (id : Text) (i : SingleInput) (r : ChildResult)
      → around.child id i ≡ done r
      → r.sale_id ≡ i.sale_id) where
  -- A child fails or is completed under its own sale, and its promise is never rejected.
  run_process_sale_child-IsOwn :
      (s : SaleToProcess) → IsOwn s ((sale_race around input n).settles s)
  unfolding run_process_sale_child
  run_process_sale_child-IsOwn s =
      let (id, built) =
        process_sale_workflow_id-defined s.sale_id (s.current_attempt_count + 1) n.runtime_policy in
      rw built
        (go id (around.child id (child_input n.max_send_attempts input.runtime_policy s)) refl)
    where
      go :
          (id : Text) (o : Outcome ChildResult)
          → around.child id (child_input n.max_send_attempts input.runtime_policy s) ≡ o
          → settled_id (child_settled s.sale_id o) ≡ s.sale_id
      go id (done r) e = own id (child_input n.max_send_attempts input.runtime_policy s) r e
      go id (thrown x) e = refl

-- With room for at least one child, where a child that returns a result returns it for the sale that it
-- was given, and no sale id is listed twice, the loop over the children that runProcessSaleChild starts
-- ends within as many rounds as there are sales, whichever child is the first to settle, and throws
-- nothing. Every sale id then stands as often among the results and the failed sale ids as among the
-- sales, the counted failures are the failed sale ids, and there are as many results and failures as
-- sales.
pub run_sale_children_total :
    (around : Surroundings) (input : ProcessInput) (n : NormalizedProcessInput)
    (sales : List SaleToProcess)
    → 0 < n.max_concurrent_children
    → ((id : Text) (i : SingleInput) (r : ChildResult)
        → around.child id i ≡ done r
        → r.sale_id ≡ i.sale_id)
    → ((k : ℕ) → count k (sale_ids sales) ≤ 1)
    → (d : Children) × (run_children
          (sale_race around input n)
          n.max_concurrent_children
          (length sales)
          (waiting_sales sales)
        ≡ some (done d))
      × ((k : ℕ)
          → count k (result_ids d.results) + count k d.failed_sale_ids ≡ count k (sale_ids sales))
      × (d.child_workflow_failures ≡ length d.failed_sale_ids)
      × (length d.results + length d.failed_sale_ids ≡ length sales)
run_sale_children_total around input n sales positive own once =
    run_children_total (sale_race around input n) n.max_concurrent_children sales positive
      (run_process_sale_child-IsOwn around input n own) once

module _ (around : Surroundings) (input : ProcessInput) (n : NormalizedProcessInput)
    (positive : 0 < n.max_concurrent_children)
    (own : (id : Text) (i : SingleInput) (r : ChildResult)
      → around.child id i ≡ done r
      → r.sale_id ≡ i.sale_id) where
  process_loaded-Totals :
      (sales : List SaleToProcess)
      → ((k : ℕ) → count k (sale_ids sales) ≤ 1)
      → (r : ProcessResult) × (process_loaded around input n sales ≡ some (done r)) × Totals sales r
  unfolding process_loaded build_summary
  process_loaded-Totals [] once = (_, refl, record { total = refl; parts = refl; status = refl })
  process_loaded-Totals (s ∷ ss) once =
      let (c, returned, each, counted, all) =
        run_sale_children_total around input n (s ∷ ss) positive own once in
      let (_, _, _, _, _, completed, total) =
        build_summary-classified c.results c.child_workflow_failures c.failed_sale_ids in
      (
        children_result around input n c,
        rw returned refl,
        record {
          total = omega (arith, total, completed, counted, all);
          parts = omega (arith, completed, counted, all);
          status = refl;
        },
      )

-- Where the input is accepted, no discovery runs and the sales are loaded, no sale id twice, and where a
-- child that returns a result returns it for the sale that it was given, the workflow over all eligible sales ends with a result. Its total is
-- the number of the sales, each of them a completed or a failed child, and it is a success exactly
-- if no child failed.
pub process_sales_total :
    (current : Text) (around : Surroundings) (input : ProcessInput) (n : NormalizedProcessInput)
    (state : DiscoveryState) (sales : List SaleToProcess)
    → normalize_process_input current input ≡ done n
    → around.check_discovery_running n.discovery_workflow_id ≡ done state
    → state.is_running ≡ false
    → around.load_eligible_sales n.max_send_attempts n.runtime_policy.idempotency_scope ≡ done sales
    → ((id : Text) (i : SingleInput) (r : ChildResult)
        → around.child id i ≡ done r
        → r.sale_id ≡ i.sale_id)
    → ((k : ℕ) → count k (sale_ids sales) ≤ 1)
    → (r : ProcessResult) × (process_sales current around input ≡ some (done r)) × Totals sales r
unfolding process_sales process_normalized
process_sales_total current around input n state sales accepted checked idle loaded own once =
    rw accepted (
      rw checked (
        rw idle (
          rw loaded (
            process_loaded-Totals around input n
              (subst HasRoom accepted (normalize_process_input-HasRoom current input)) own sales
              once))))
