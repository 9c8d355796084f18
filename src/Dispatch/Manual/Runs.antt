-- ===== src/Dispatch/Manual/Runs.antt =====
-- The promises of a manual run, for all of its ways.
use automation_server_net.Base.{
  ◌≤◌, ◌≡◌, refl, true, false, Option, none, some, List, [], ◌∷◌, arith, inl, inr, Bool-cases,
  or_else,
}
use automation_server_net.Js.Text.{Text}
use automation_server_net.RuntimePolicy.{Policy, normalize_automation_runtime_policy}
use automation_server_net.Nfe.Activities.{FinalizeActivityResult}
use automation_server_net.Nfe.ManualActivities.{ManualFinalizeInput}
use automation_server_net.Temporal.{Thrown, Outcome, done, thrown, World, call, call_rule, resume}
use automation_server_net.Dispatch.Processing.{ChildResult}
use automation_server_net.Dispatch.Mail.{
  Finalization, LockResult, acquired, lock_pending, already_processed, WorkflowInfo,
}
use automation_server_net.Dispatch.Single.{to_failure, map_finalization_result}
use automation_server_net.Dispatch.Manual.{
  ManualInput, ManualSnapshot, ManualEvent, loaded_sale, locked_attempt, manual_finalization,
  asked_lock, asked_recovery, asked_lock_completion, ManualActivities, unexpected_recovery_target,
  idempotent_result, is_invalid_input, should_rethrow_without_recovery, TryEnd, earlier, finalized,
  broken, lock_answered, with_earlier, run_try, complete_and_return, recovery_answered,
  recover_broken, after_try, process_manual_sale, reloaded_result,
}
use automation_server_net.Dispatch.Manual.Promises.{
  mail_count, ends_with_mail, all_faithful, may_be_recovered, is_for_refl, step-Fine, step-Recorded,
  Recorded, Fine, Tried, execute-Targeted, finalize_target-Tried, load-Tried,
}

module _ {S : Type 0} (act : ManualActivities S) (info : WorkflowInfo) (input : ManualInput)
    (policy : Policy) where
  reloaded-Tried :
      (r : Option ChildResult) (s : S) (log : List ManualEvent)
      (o : Outcome (Option ManualSnapshot))
      → Fine input 0 log
      → Tried act info input policy (
        reloaded_result act info input policy r,
        record { state = s; log = loaded_sale input.sale_id policy.idempotency_scope o ∷ log },
      )
  reloaded-Tried none s log o before = record {
    recorded = step-Recorded act info input policy _ log refl refl refl before;
    recoverable = refl;
  }
  reloaded-Tried (some r) s log o before = record {
    recorded = step-Recorded act info input policy _ log refl refl refl before;
    recoverable = tt;
  }

  lock-Tried :
      (w : World S ManualEvent)
      → Fine input 0 w.log
      → Tried act info input policy (
          lock_answered act info input policy (
            call
              (asked_lock input.request_id (locked_attempt info input policy))
              (act.acquire_lock input.request_id (locked_attempt info input policy))
              w))
  lock-Tried w before =
      call_rule (Tried act info input policy) event
        (act.acquire_lock input.request_id (locked_attempt info input policy))
        (lock_answered act info input policy) w answered
    where
      event : Outcome LockResult → ManualEvent
      event o = asked_lock input.request_id (locked_attempt info input policy) o

      fine : (o : Outcome LockResult) → Fine input 0 (event o ∷ w.log)
      fine o = step-Fine input (event o) w.log refl refl before

      answered :
          (o : Outcome LockResult) (s : S)
          → Tried act info input policy
              (lock_answered act info input policy (o, record { state = s; log = event o ∷ w.log }))
      answered (done (acquired lease)) s =
          finalize_target-Tried act info input policy lease _
            (execute-Targeted act info input policy _ (fine (done (acquired lease))))
      answered (done lock_pending) s = record {
        recorded = step-Recorded act info input policy _ w.log refl refl refl before;
        recoverable = refl;
      }
      answered (done (already_processed x)) s =
          load-Tried act info input policy _ _ (fine (done (already_processed x))) (λ sale s'.
            reloaded-Tried (idempotent_result input sale) s' _ _
              (fine (done (already_processed x))))
      answered (thrown e) s = record {
        recorded = step-Recorded act info input policy _ w.log refl refl refl before;
        recoverable = refl;
      }

  earlier-Tried :
      (r : Option ChildResult) (sale : ManualSnapshot) (s : S) (log : List ManualEvent)
      → Fine input 0 log
      → Tried act info input policy (
          with_earlier act info input policy r sale (record {
            state = s;
            log = loaded_sale input.sale_id policy.idempotency_scope (done (some sale)) ∷ log;
          }))
  earlier-Tried (some r) sale s log before = record {
    recorded = step-Recorded act info input policy _ log refl refl refl before;
    recoverable = tt;
  }
  earlier-Tried none sale s log before = elim (Bool-cases (is_invalid_input input sale)) [
    | inl invalid ↦ rw invalid (record {
      recorded = step-Recorded act info input policy _ log refl refl refl before;
      recoverable = refl;
    })
    | inr valid ↦ rw valid (lock-Tried _ (step-Fine input _ log refl refl before))
  ]

  try-Tried :
      (s : S)
      → Tried act info input policy (run_try act info input policy (record { state = s; log = [] }))
  unfolding run_try
  try-Tried s =
      load-Tried act info input policy _ _ (record { mails = omega arith; faithful = refl })
        (λ sale s'.
          earlier-Tried (idempotent_result input sale) sale s' []
            (record { mails = omega arith; faithful = refl }))

  abbrev RecordedRun : Outcome ChildResult × World S ManualEvent → Type 0
  RecordedRun r = Recorded input r.1.log

  complete-Recorded :
      (lease : Option Text) (r : FinalizeActivityResult) (w : World S ManualEvent)
      → Recorded input w.log
      → RecordedRun (complete_and_return act info input policy lease r w)
  unfolding complete_and_return
  complete-Recorded none r w before = before
  complete-Recorded (some lease) r w before =
      call_rule RecordedRun
        (asked_lock_completion (locked_attempt info input policy) lease r.status)
        (act.complete_lock (locked_attempt info input policy) lease r.status)
        (λ a. (done (map_finalization_result r input.erp_sale_id), a.1)) w
        (λ o s. record {
          fine = record {
            mails = omega (arith, before.fine.mails);
            faithful = rw before.no_mail before.fine.faithful;
          };
          no_mail = refl;
        })

  recover-Recorded :
      (e : Thrown) (lease : Option Text) (target : Option Finalization) (w : World S ManualEvent)
      → Recorded input w.log
      → may_be_recovered (or_else target (unexpected_recovery_target e)).status w.log ≡ true
      → RecordedRun (recover_broken act info input policy e lease target w)
  unfolding recover_broken
  recover-Recorded e lease target w before fits =
      elim (Bool-cases (should_rethrow_without_recovery e)) [
        | inl rethrown ↦ rw rethrown before
        | inr recovered ↦ rw recovered (
            call_rule RecordedRun (asked_recovery request) (act.recover request)
              (recovery_answered act info input policy lease) w answered)
      ]
    where
      wanted : Finalization
      wanted = or_else target (unexpected_recovery_target e)

      request : ManualFinalizeInput
      request = manual_finalization input policy wanted

      asked :
          (o : Outcome FinalizeActivityResult) → Recorded input (asked_recovery request o ∷ w.log)
      asked o = record {
        fine = record {
          mails = omega (arith, before.fine.mails);
          faithful = rw (is_for_refl input policy wanted, fits) before.fine.faithful;
        };
        no_mail = refl;
      }

      answered :
          (o : Outcome FinalizeActivityResult) (s : S)
          → RecordedRun (
              recovery_answered act info input policy lease
                (o, record { state = s; log = asked_recovery request o ∷ w.log }))
      answered (done r) s = complete-Recorded lease r _ (asked (done r))
      answered (thrown t) s = asked (thrown t)

  after_try-Recorded :
      (r : TryEnd × World S ManualEvent)
      → Tried act info input policy r
      → RecordedRun (after_try act info input policy r)
  after_try-Recorded (earlier r, w) t = t.recorded
  after_try-Recorded (finalized lease r, w) t = complete-Recorded (some lease) r w t.recorded
  after_try-Recorded (broken e lease target, w) t =
      recover-Recorded e lease target w t.recorded t.recoverable

-- Whatever its activities answer, a manual run hands over at most one mail, under the key of its attempt,
-- and asks to record that attempt directly after it: SENT after a success, DELIVERY_UNKNOWN after a
-- pending failure, FAILED_FINAL after a permanent failure, and no SENT after a mail that threw. Where
-- no mail came directly before, it asks to record a failure only. A recovery asks for the status of
-- the finalization of the attempt that threw directly before it, and for a failure where there was
-- none. No run ends directly after a mail.
pub process_manual_sale_promises :
    {S : Type 0} (act : ManualActivities S) (info : WorkflowInfo) (input : ManualInput) (s : S)
    → let log = (process_manual_sale act info input (record { state = s; log = [] })).1.log in
      (mail_count log ≤ 1) × (all_faithful input log ≡ true) × (ends_with_mail log ≡ false)
unfolding process_manual_sale
process_manual_sale_promises {S} act info input s =
    given (to_failure (normalize_automation_runtime_policy input.runtime_policy))
  where
    given :
        (o : Outcome Policy)
        → let log =
            (resume
              (o, record { state = s; log = [] })
              (λ policy w'.
                after_try act info input policy (run_try act info input policy w'))).1.log in
          (mail_count log ≤ 1) × (all_faithful input log ≡ true) × (ends_with_mail log ≡ false)
    given (done policy) =
        let run = after_try-Recorded act info input policy _ (try-Tried act info input policy s) in
        (run.fine.mails, run.fine.faithful, run.no_mail)
    given (thrown e) = (omega arith, refl, refl)
