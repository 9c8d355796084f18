-- ===== src/Dispatch/Single/Reports.antt =====
-- What a run of the workflow reports, by the events of its log.
use automation_server_net.Base.{
  ℕ, ◌+◌, ◌≡◌, refl, Bool, true, false, Option, some, List, [], ◌∷◌, if◌then◌else◌, ◌==◌, arith,
}
use automation_server_net.Js.Text.{Text, text_eq_refl}
use automation_server_net.RuntimePolicy.{Policy, normalize_automation_runtime_policy}
use automation_server_net.Nfe.Sale.{
  SaleStatus, pending, in_progress, sent, failed_final, failed_transient, delivery_unknown,
  status_eq,
}
use automation_server_net.Nfe.Rows.{ClaimResult, claimed, already_claimed_by_this_attempt, skipped}
use automation_server_net.Nfe.Activities.{FinalizeActivityResult}
use automation_server_net.Temporal.{
  Thrown, Outcome, done, thrown, World, Run, call, resume, ◌>>=◌, call_rule,
}
use automation_server_net.Dispatch.Processing.{ChildResult}
use automation_server_net.Dispatch.Mail.{
  LockResult, acquired, lock_pending, already_processed, WorkflowInfo,
}
use automation_server_net.Dispatch.Single.{
  SingleInput, Event, asked_lock, asked_claim, asked_lock_completion, asked_lock_cancellation,
  Activities, Ending, build_skipped_result, map_finalization_result, claim_input, claim_answered,
  to_failure, with_claim, run_claim, finish, with_lock, process_single_sale,
}
use automation_server_net.Dispatch.Single.Protocol.{
  Phase, idle, locked, refused, settled_sale, skipped_over, settled_over, broken_over,
  unclaimed_sale, next, phase_of,
}
use automation_server_net.Dispatch.Single.Follows.{
  Ended, with_result, with_refusal, with_failure, with_skip, with_claim_failure, EndedRun, at_phase,
  step_phase, run_attempt_lem,
}
use automation_server_net.Nfe.Activities.{ClaimActivityInput}

eqb_refl : (n : ℕ) → (n == n) ≡ true
eqb_refl n = ground arith

-- What the workflow reports, by the phase that its log leads to.
pub data Report (input : SingleInput) : Outcome ChildResult → Option Phase → Type 0 where
  not_started : (e : Thrown) → Report input (thrown e) (some idle)
  reports_skip : Report input (done (build_skipped_result input)) (some skipped_over)
  reports_result :
      (r : FinalizeActivityResult)
      → Report input (done (map_finalization_result r input.erp_sale_id)) (some (settled_over r))
  reports_refusal :
      (e : Thrown) (lease : Text) (n : ℕ) → Report input (thrown e) (some (refused lease n))
  reports_failure : (e : Thrown) → Report input (thrown e) (some broken_over)

abbrev pub Reported : {S : Type 0} → SingleInput → Outcome ChildResult × World S Event → Type 0
Reported input r = Report input r.0 (phase_of input r.1.log)

at_end :
    {input : SingleInput} {o : Outcome ChildResult} (log : List Event) {q : Phase}
    → phase_of input log ≡ some q
    → Report input o (some q)
    → Report input o (phase_of input log)
at_end log e h = rw e h

pub status_eq_refl : (s : SaleStatus) → status_eq s s ≡ true
status_eq_refl pending = refl
status_eq_refl in_progress = refl
status_eq_refl sent = refl
status_eq_refl failed_transient = refl
status_eq_refl failed_final = refl
status_eq_refl delivery_unknown = refl

module _ {S : Type 0} (act : Activities S) (info : WorkflowInfo) (input : SingleInput)
    (policy : Policy) (lease : Text) where
  with_claim_lem :
      (o : Outcome ClaimResult) (w : World S Event)
      → phase_of input (asked_claim (claim_input act info input policy) o ∷ w.log)
        ≡ next input (locked lease) (asked_claim (claim_input act info input policy) o)
      → (s : S)
      → EndedRun input lease (
          claim_answered act info input policy (
            o,
            record { state = s; log = asked_claim (claim_input act info input policy) o ∷ w.log },
          ))
  unfolding next with_claim
  with_claim_lem (done (claimed n)) w e s = run_attempt_lem act info input policy lease n _ e
  with_claim_lem (done (already_claimed_by_this_attempt n)) w e s =
      run_attempt_lem act info input policy lease n _ e
  with_claim_lem (done skipped) w e s = at_phase _ e with_skip
  with_claim_lem (thrown t) w e s = at_phase _ e (with_claim_failure t)

  run_claim_lem :
      (w : World S Event)
      → phase_of input w.log ≡ some (locked lease)
      → EndedRun input lease (run_claim act info input policy w)
  unfolding run_claim phase_of
  run_claim_lem w before =
      call_rule (EndedRun input lease) (asked_claim request) (act.claim request)
        (claim_answered act info input policy) w (λ o s. with_claim_lem o w (rw before refl) s)
    where
      request : ClaimActivityInput
      request = claim_input act info input policy

  key_refl :
      (r : FinalizeActivityResult) (o : Outcome (Unit {0}))
      → next input (settled_sale lease r) (asked_lock_completion lease r.status o)
        ≡ some (settled_over r)
  unfolding next
  key_refl r o = rw (text_eq_refl lease) (rw (status_eq_refl r.status) refl)

  cancel_admitted :
      (failed : Bool) (o : Outcome (Unit {0}))
      → next input (unclaimed_sale lease failed) (asked_lock_cancellation lease o)
        ≡ some (if failed then broken_over else skipped_over)
  unfolding next
  cancel_admitted failed o = rw (text_eq_refl lease) refl

  finish_lem :
      (o : Outcome Ending) (w : World S Event) (q : Option Phase)
      → phase_of input w.log ≡ q
      → Ended input lease o q
      → Reported input (resume (o, w) (finish act info input policy lease))
  unfolding finish
  finish_lem o w q e (with_result r) =
      call_rule (Reported input) (asked_lock_completion lease r.status)
        (act.complete_lock lease r.status)
        (λ a. (done (map_finalization_result r input.erp_sale_id), a.1)) w
        (λ a s.
          at_end _
            (step_phase input (asked_lock_completion lease r.status a) w.log e (key_refl r a))
            (reports_result r))
  finish_lem o w q e (with_refusal t n) = at_end w.log e (reports_refusal t lease n)
  finish_lem o w q e (with_failure t) = at_end w.log e (reports_failure t)
  finish_lem o w q e with_skip =
      call_rule (Reported input) (asked_lock_cancellation lease) (act.cancel_lock lease)
        (λ a. (done (build_skipped_result input), a.1)) w
        (λ a s.
          at_end _
            (step_phase input (asked_lock_cancellation lease a) w.log e (cancel_admitted false a))
            reports_skip)
  finish_lem o w q e (with_claim_failure t) =
      call_rule (Reported input) (asked_lock_cancellation lease) (act.cancel_lock lease)
        (λ a. (thrown t, a.1)) w
        (λ a s.
          at_end _
            (step_phase input (asked_lock_cancellation lease a) w.log e (cancel_admitted true a))
            (reports_failure t))

  finish_run :
      (r : Outcome Ending × World S Event)
      → EndedRun input lease r
      → Reported input (resume r (finish act info input policy lease))
  finish_run (o, w) h = finish_lem o w (phase_of input w.log) refl h

module _ {S : Type 0} (act : Activities S) (info : WorkflowInfo) (input : SingleInput)
    (policy : Policy) where
  lock_lem :
      (o : Outcome LockResult) (s : S)
      → Reported input (
          resume
            (
              o,
              record {
                state = s;
                log = asked_lock (input.current_attempt_count + 1) policy.idempotency_scope o ∷ [];
              },
            )
            (with_lock act info input policy))
  unfolding next with_lock phase_of
  lock_lem (done (acquired lease)) s = finish_run act info input policy lease _ (
      run_claim_lem act info input policy lease _
        (rw (eqb_refl (input.current_attempt_count + 1)) refl))
  lock_lem (done lock_pending) s = reports_skip
  lock_lem (done (already_processed status)) s = reports_skip
  lock_lem (thrown e) s = reports_failure e

-- Whatever its activities answer, a run of the workflow that handles one sale follows the protocol of an
-- attempt: its events lead to a phase. It reports a result only after it has asked to complete the lock
-- with the status of that result, whatever came of that call, a skip only where no sale was claimed,
-- and throws only where nothing was started, where the last finalization was refused, or where the
-- lock or the claim failed. After a mail whose sending threw, or a refused finalization, the protocol
-- admits every final status but SENT.
pub process_single_sale-Reported :
    {S : Type 0} (act : Activities S) (info : WorkflowInfo) (input : SingleInput) (s : S)
    → Reported input (process_single_sale act info input (record { state = s; log = [] }))
unfolding process_single_sale phase_of
process_single_sale-Reported {S} act info input s =
    policy_given (to_failure (normalize_automation_runtime_policy input.runtime_policy))
  where
    run : Policy → Run S Event ChildResult
    run policy =
        call (asked_lock (input.current_attempt_count + 1) policy.idempotency_scope)
          (act.acquire_lock (input.current_attempt_count + 1) policy.idempotency_scope)
        >>= with_lock act info input policy

    policy_given :
        (o : Outcome Policy) → Reported input (resume (o, record { state = s; log = [] }) run)
    policy_given (done policy) =
        call_rule (Reported input)
          (asked_lock (input.current_attempt_count + 1) policy.idempotency_scope)
          (act.acquire_lock (input.current_attempt_count + 1) policy.idempotency_scope)
          (λ r. resume r (with_lock act info input policy)) _ (lock_lem act info input policy)
    policy_given (thrown e) = not_started e
