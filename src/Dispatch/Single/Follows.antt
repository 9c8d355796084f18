-- ===== src/Dispatch/Single/Follows.antt =====
-- Every run of the workflow follows the protocol of an attempt.
use automation_server_net.Base.{
  ℕ, ◌≡◌, refl, true, false, Option, none, some, List, ◌∷◌, ◌==◌, arith, ◌||◌, inl, inr, Bool-cases,
}
use automation_server_net.Js.Text.{Text, text_eq_refl}
use automation_server_net.RuntimePolicy.{Policy}
use automation_server_net.Nfe.Sale.{failed_final}
use automation_server_net.Nfe.Activities.{FinalizeActivityInput, FinalizeActivityResult}
use automation_server_net.Temporal.{
  ApplicationInfo, Thrown, Outcome, done, thrown, World, Run, call, call_rule,
  find_root_application_failure, find_root_workflow_failure, error_message,
}
use automation_server_net.Dispatch.Processing.{
  FailureClass, application_class, other_class, is_permanent_type,
  classify_processing_activity_failure,
}
use automation_server_net.Dispatch.Mail.{
  Stage, erp, ixc, render, smtp, classify_unhandled_processing_failure, SmtpResult, success,
  pending_failure, permanent_failure, Finalization, resolve_smtp_result_to_finalization,
  EmailContext, ContextResult, context_found, context_failed_final, RenderedEmail, SmtpRequest,
  WorkflowInfo, build_smtp_request, build_smtp_idempotency_key,
}
use automation_server_net.Dispatch.Single.{
  SingleInput, Event, fetched_context, fetched_pdf, rendered, mailed, asked_finalization,
  Activities, Ending, cancel, complete, keep_pending, build_skipped_result, map_finalization_result,
  finalization_input, finalize_attempt, unsettled, conclude, fail_attempt, continue_stage, at_stage,
  finish_attempt, send_mail, with_context, run_attempt,
}
use automation_server_net.Dispatch.Single.Protocol.{
  Phase, claimed_sale, handed_over, refused, settled_sale, broken_over, unclaimed_sale,
  finalization_fits, is_failure, after_finalization, next, phase_of,
}

other_class-is_failure : (m : Option Text) → is_failure (other_class m).final_status ≡ true
other_class-is_failure none = refl
other_class-is_failure (some m) = refl

application_class-is_failure :
    (i : Option ApplicationInfo) (root : Thrown)
    → is_failure (application_class i root).final_status ≡ true
unfolding application_class
application_class-is_failure none root = other_class-is_failure (error_message root)
application_class-is_failure (some i) root =
    elim (Bool-cases (i.non_retryable || is_permanent_type i.type)) [
      | inl e ↦ rw e refl
      | inr e ↦ rw e refl
    ]

pub classify-is_failure :
    (stage : Stage) (e : Thrown)
    → is_failure (classify_unhandled_processing_failure stage e).final_status ≡ true
unfolding classify_unhandled_processing_failure classify_processing_activity_failure
classify-is_failure stage e =
    application_class-is_failure (find_root_application_failure e) (find_root_workflow_failure e)

-- How the outer `try` may end, in the phase of the log.
pub data Ended (input : SingleInput) (lease : Text) : Outcome Ending → Option Phase → Type 0 where
  with_result :
      (r : FinalizeActivityResult)
      → Ended input lease
          (done (record {
            returned = done (map_finalization_result r input.erp_sale_id);
            lock_disposition = complete;
            final_result = some (map_finalization_result r input.erp_sale_id);
          }))
          (some (settled_sale lease r))
  with_refusal :
      (e : Thrown) (n : ℕ)
      → Ended input lease
          (done
            (record { returned = thrown e; lock_disposition = keep_pending; final_result = none }))
          (some (refused lease n))
  with_failure :
      (e : Thrown)
      → Ended input lease
          (done
            (record { returned = thrown e; lock_disposition = keep_pending; final_result = none }))
          (some broken_over)
  with_skip :
      Ended input lease
        (done (record {
          returned = done (build_skipped_result input);
          lock_disposition = cancel;
          final_result = none;
        }))
        (some (unclaimed_sale lease false))
  with_claim_failure :
      (e : Thrown)
      → Ended input lease
          (done (record { returned = thrown e; lock_disposition = cancel; final_result = none }))
          (some (unclaimed_sale lease true))

abbrev pub EndedRun : {S : Type 0} → SingleInput → Text → Outcome Ending × World S Event → Type 0
EndedRun input lease r = Ended input lease r.0 (phase_of input r.1.log)

pub at_phase :
    {input : SingleInput} {lease : Text} {o : Outcome Ending} (log : List Event) {q : Phase}
    → phase_of input log ≡ some q
    → Ended input lease o (some q)
    → Ended input lease o (phase_of input log)
at_phase log e h = rw e h

pub step_phase :
    (input : SingleInput) (e : Event) (log : List Event) {p q : Phase}
    → phase_of input log ≡ some p
    → next input p e ≡ some q
    → phase_of input (e ∷ log) ≡ some q
unfolding phase_of
step_phase input e log before step = rw before step

eqb_refl : (n : ℕ) → (n == n) ≡ true
eqb_refl n = ground arith

module _ (input : SingleInput) (lease : Text) (n : ℕ) where
  context_admitted :
      (o : Outcome ContextResult)
      → next input (claimed_sale lease n) (fetched_context input.erp_sale_id o)
        ≡ some (claimed_sale lease n)
  unfolding next
  context_admitted o = rw (eqb_refl input.erp_sale_id) refl

  pdf_admitted :
      (o : Outcome Text)
      → next input (claimed_sale lease n) (fetched_pdf input.sale_id input.erp_sale_id n o)
        ≡ some (claimed_sale lease n)
  unfolding next
  pdf_admitted o =
      rw (eqb_refl input.sale_id) (rw (eqb_refl input.erp_sale_id) (rw (eqb_refl n) refl))

  render_admitted :
      (c : EmailContext) (o : Outcome RenderedEmail)
      → next input (claimed_sale lease n) (rendered c o) ≡ some (claimed_sale lease n)
  unfolding next
  render_admitted c o = refl

  request_admitted :
      (info : WorkflowInfo) (scope : Text) (c : EmailContext) (mail : RenderedEmail)
      (pdf_path : Text) (o : Outcome SmtpResult)
      → next input (claimed_sale lease n) (
          mailed (build_smtp_request info.workflow_id info scope input.sale_id n c mail pdf_path) o)
        ≡ some (handed_over lease n o)
  unfolding next build_smtp_request
  request_admitted info scope c mail pdf_path o =
      rw (text_eq_refl (build_smtp_idempotency_key input.sale_id n)) refl

module _ {S : Type 0} (act : Activities S) (info : WorkflowInfo) (input : SingleInput)
    (policy : Policy) (lease : Text) (n : ℕ) where
  own_fits :
      (f : Finalization)
      → finalization_fits input n (finalization_input act info input policy n f) ≡ true
  own_fits f = rw (eqb_refl input.sale_id) (eqb_refl n)

  -- a phase in which the failure of an attempt may be recorded
  TakesFailure : Phase → Phase → Type 0
  TakesFailure p other =
      (f : FinalizeActivityInput) (o : Outcome FinalizeActivityResult)
      → finalization_fits input n f ≡ true
      → is_failure f.status ≡ true
      → next input p (asked_finalization f o) ≡ some (after_finalization lease o other)

  claimed-TakesFailure : TakesFailure (claimed_sale lease n) (refused lease n)
  unfolding next TakesFailure
  claimed-TakesFailure f o fits failed = rw fits (rw failed refl)

  refused-TakesFailure : TakesFailure (refused lease n) broken_over
  unfolding next TakesFailure
  refused-TakesFailure f o fits failed = rw fits (rw failed refl)

  handed_over-TakesFailure :
      (e : Thrown) → TakesFailure (handed_over lease n (thrown e)) (refused lease n)
  unfolding next TakesFailure
  handed_over-TakesFailure e f o fits failed = rw fits (rw failed refl)

  -- how a refused finalization ends an attempt
  fail_attempt_lem :
      (stage : Stage) (e : Thrown) (w : World S Event) (p other : Phase)
      → phase_of input w.log ≡ some p
      → TakesFailure p other
      → ((e' : Thrown)
          → Ended input lease (done (unsettled act info input policy n e')) (some other))
      → EndedRun input lease (fail_attempt act info input policy n stage e w)
  unfolding fail_attempt finalize_attempt TakesFailure
  fail_attempt_lem stage e w p other before takes over =
      call_rule (EndedRun input lease) (asked_finalization request) (act.finalize request)
        (conclude act info input policy n) w ended
    where
      failure : FailureClass
      failure = classify_unhandled_processing_failure stage e

      request : FinalizeActivityInput
      request =
          finalization_input act info input policy n
            (record { status = failure.final_status; error_message = some failure.message })

      taken :
          (o : Outcome FinalizeActivityResult)
          → phase_of input (asked_finalization request o ∷ w.log)
            ≡ some (after_finalization lease o other)
      taken o = step_phase input (asked_finalization request o) w.log before (
          takes request o
            (own_fits
              (record { status = failure.final_status; error_message = some failure.message }))
            (classify-is_failure stage e))

      ended :
          (o : Outcome FinalizeActivityResult) (s : S)
          → EndedRun input lease (
              conclude act info input policy n
                (o, record { state = s; log = asked_finalization request o ∷ w.log }))
      ended (done r) s =
          at_phase (asked_finalization request (done r) ∷ w.log) (taken (done r)) (with_result r)
      ended (thrown e') s =
          at_phase (asked_finalization request (thrown e') ∷ w.log) (taken (thrown e')) (over e')

  -- a call at a stage: what follows an answer, and the failure
  at_stage_lem :
      {A : Type 0} (stage : Stage) (event : Outcome A → Event) (f : S → Outcome A × S)
      (k : A → Run S Event Ending) (w : World S Event)
      → ((a : A) (s : S)
          → EndedRun input lease (k a (record { state = s; log = event (done a) ∷ w.log })))
      → ((e : Thrown) (s : S)
          → EndedRun input lease (
              fail_attempt act info input policy n stage e
                (record { state = s; log = event (thrown e) ∷ w.log })))
      → EndedRun input lease (at_stage act info input policy n stage (call event f) k w)
  at_stage_lem {A} stage event f k w answer failure =
      call_rule (EndedRun input lease) event f
        (λ r. continue_stage act info input policy n stage r k) w ended
    where
      ended :
          (o : Outcome A) (s : S)
          → EndedRun input lease (
              continue_stage act info input policy n stage
                (o, record { state = s; log = event o ∷ w.log })
                k)
      ended (done a) s = answer a s
      ended (thrown e) s = failure e s

  -- a finalization that the phase admits, and the failure after it
  finish_attempt_lem :
      (stage : Stage) (f : Finalization) (w : World S Event) (p : Phase)
      → phase_of input w.log ≡ some p
      → ((o : Outcome FinalizeActivityResult)
          → next input p (asked_finalization (finalization_input act info input policy n f) o)
            ≡ some (after_finalization lease o (refused lease n)))
      → EndedRun input lease (finish_attempt act info input policy n stage f w)
  unfolding finish_attempt finalize_attempt
  finish_attempt_lem stage f w p before admitted =
      at_stage_lem stage (asked_finalization request) (act.finalize request) _ w
        (λ r s.
          at_phase (asked_finalization request (done r) ∷ w.log) (taken (done r)) (with_result r))
        (λ e s.
          fail_attempt_lem stage e _ (refused lease n) broken_over (taken (thrown e))
            refused-TakesFailure with_failure)
    where
      request : FinalizeActivityInput
      request = finalization_input act info input policy n f

      taken :
          (o : Outcome FinalizeActivityResult)
          → phase_of input (asked_finalization request o ∷ w.log)
            ≡ some (after_finalization lease o (refused lease n))
      taken o = step_phase input (asked_finalization request o) w.log before (admitted o)

  resolved_fits :
      (r : SmtpResult) (o : Outcome FinalizeActivityResult)
      → next input (handed_over lease n (done r)) (
          asked_finalization
            (finalization_input act info input policy n (resolve_smtp_result_to_finalization r))
            o)
        ≡ some (after_finalization lease o (refused lease n))
  unfolding next resolve_smtp_result_to_finalization
  resolved_fits success o = rw (eqb_refl input.sale_id) (rw (eqb_refl n) refl)
  resolved_fits (pending_failure m) o = rw (eqb_refl input.sale_id) (rw (eqb_refl n) refl)
  resolved_fits (permanent_failure m) o = rw (eqb_refl input.sale_id) (rw (eqb_refl n) refl)

  fail_claimed :
      (stage : Stage) (e : Thrown) (w : World S Event)
      → phase_of input w.log ≡ some (claimed_sale lease n)
      → EndedRun input lease (fail_attempt act info input policy n stage e w)
  fail_claimed stage e w before =
      fail_attempt_lem stage e w (claimed_sale lease n) (refused lease n) before
        claimed-TakesFailure (λ e'. with_refusal e' n)

  send_mail_lem :
      (c : EmailContext) (pdf_path : Text) (mail : RenderedEmail) (w : World S Event)
      → phase_of input w.log ≡ some (claimed_sale lease n)
      → EndedRun input lease (send_mail act info input policy n c pdf_path mail w)
  unfolding send_mail
  send_mail_lem c pdf_path mail w before =
      at_stage_lem smtp (mailed request) (act.send request) _ w
        (λ r s.
          finish_attempt_lem smtp (resolve_smtp_result_to_finalization r) _
            (handed_over lease n (done r)) (over (done r)) (resolved_fits r))
        (λ e s.
          fail_attempt_lem smtp e _ (handed_over lease n (thrown e)) (refused lease n)
            (over (thrown e)) (handed_over-TakesFailure e) (λ e'. with_refusal e' n))
    where
      request : SmtpRequest
      request =
          build_smtp_request info.workflow_id info policy.idempotency_scope input.sale_id n c mail
            pdf_path

      over :
          (o : Outcome SmtpResult)
          → phase_of input (mailed request o ∷ w.log) ≡ some (handed_over lease n o)
      over o =
          step_phase input (mailed request o) w.log before
            (request_admitted input lease n info policy.idempotency_scope c mail pdf_path o)

  with_context_lem :
      (r : ContextResult) (w : World S Event)
      → phase_of input w.log ≡ some (claimed_sale lease n)
      → EndedRun input lease (with_context act info input policy n r w)
  unfolding with_context TakesFailure
  with_context_lem (context_failed_final message) w before =
      finish_attempt_lem erp _ w (claimed_sale lease n) before (λ o.
        claimed-TakesFailure _ o
          (own_fits (record { status = failed_final; error_message = some message })) refl)
  with_context_lem (context_found c) w before =
      at_stage_lem ixc (fetched_pdf input.sale_id input.erp_sale_id n) _ _ w
        (λ pdf_path s.
          at_stage_lem render (rendered c) (act.render_email c) _ _
            (λ mail s'. send_mail_lem c pdf_path mail _ (drawn pdf_path (done mail)))
            (λ e s'. fail_claimed render e _ (drawn pdf_path (thrown e))))
        (λ e s. fail_claimed ixc e _ (found (thrown e)))
    where
      found :
          (o : Outcome Text)
          → phase_of input (fetched_pdf input.sale_id input.erp_sale_id n o ∷ w.log)
            ≡ some (claimed_sale lease n)
      found o =
          step_phase input (fetched_pdf input.sale_id input.erp_sale_id n o) w.log before
            (pdf_admitted input lease n o)

      drawn :
          (pdf_path : Text) (o : Outcome RenderedEmail)
          → phase_of input
              (rendered c o ∷ fetched_pdf input.sale_id input.erp_sale_id n (done pdf_path) ∷ w.log)
            ≡ some (claimed_sale lease n)
      drawn pdf_path o =
          step_phase input (rendered c o) _ (found (done pdf_path))
            (render_admitted input lease n c o)

  pub run_attempt_lem :
      (w : World S Event)
      → phase_of input w.log ≡ some (claimed_sale lease n)
      → EndedRun input lease (run_attempt act info input policy n w)
  unfolding run_attempt
  run_attempt_lem w before =
      at_stage_lem erp (fetched_context input.erp_sale_id) _ _ w
        (λ r s. with_context_lem r _ (found (done r)))
        (λ e s. fail_claimed erp e _ (found (thrown e)))
    where
      found :
          (o : Outcome ContextResult)
          → phase_of input (fetched_context input.erp_sale_id o ∷ w.log)
            ≡ some (claimed_sale lease n)
      found o =
          step_phase input (fetched_context input.erp_sale_id o) w.log before
            (context_admitted input lease n o)
