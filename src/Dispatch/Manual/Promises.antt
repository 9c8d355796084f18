-- ===== src/Dispatch/Manual/Promises.antt =====
-- What a manual run is to ask of the outside: which events may follow which.
use automation_server_net.Base.{
  ℕ, ◌+◌, ◌≤◌, ◌≡◌, refl, Bool, true, false, not, ◌==◌, ◌&&◌, Option, none, some, List, [], ◌∷◌,
  arith, or_else,
}
use automation_server_net.Js.Number.{magnitude}
use automation_server_net.Js.Text.{Text, text_eq, text_eq_refl}
use automation_server_net.RuntimePolicy.{Policy}
use automation_server_net.Nfe.Sale.{SaleStatus, status_eq}
use automation_server_net.Nfe.Activities.{FinalizeActivityResult}
use automation_server_net.Nfe.ManualActivities.{ManualFinalizeInput}
use automation_server_net.Temporal.{Thrown, Outcome, done, thrown, World, call, call_rule}
use automation_server_net.Dispatch.Mail.{
  Stage, erp, ixc, render, smtp, SmtpResult, success, pending_failure, permanent_failure,
  Finalization, resolve_smtp_result_to_finalization, EmailContext, ContextResult, context_found,
  context_failed_final, RenderedEmail, SmtpRequest, WorkflowInfo, build_smtp_request,
  build_smtp_idempotency_key,
}
use automation_server_net.Dispatch.Single.Protocol.{fits_mail, is_failure}
use automation_server_net.Dispatch.Single.Follows.{classify-is_failure}
use automation_server_net.Dispatch.Single.Reports.{status_eq_refl}
use automation_server_net.Dispatch.Manual.{
  ManualInput, ManualSnapshot, ManualEvent, loaded_sale, asked_lock, asked_lock_completion,
  manual_finalization, fetched_context, fetched_pdf, rendered, mailed, asked_finalization,
  asked_recovery, ManualActivities, unexpected_recovery_target, TryEnd, earlier, finalized, broken,
  classified, continue_stage, send_mail, with_context, execute, finalize_answered, finalize_target,
  load_answered,
}

abbrev is_mailed : ManualEvent → ℕ
is_mailed (mailed r o) = 1
is_mailed other = 0

abbrev pub mail_count : List ManualEvent → ℕ
mail_count [] = 0
mail_count (e ∷ log) = is_mailed e + mail_count log

-- whether the last event is a mail
abbrev pub ends_with_mail : List ManualEvent → Bool
ends_with_mail [] = false
ends_with_mail (mailed request o ∷ log) = true
ends_with_mail (e ∷ log) = false

-- a status that may be recorded next: after a mail what fits it, and else a failure
abbrev pub may_be_recorded : SaleStatus → List ManualEvent → Bool
may_be_recorded s [] = false
may_be_recorded s (mailed request r ∷ log) = fits_mail r s
may_be_recorded s (e ∷ log) = is_failure s

-- a status that may be recovered with next: after a finalization that threw its own, and else a failure
abbrev pub may_be_recovered : SaleStatus → List ManualEvent → Bool
may_be_recovered s [] = false
may_be_recovered s (mailed request r ∷ log) = false
may_be_recovered s (asked_finalization t (done r) ∷ log) = false
may_be_recovered s (asked_finalization t (thrown e) ∷ log) = status_eq s t.status
may_be_recovered s (e ∷ log) = is_failure s

module _ (input : ManualInput) where
  -- a request about the attempt of the input
  abbrev pub is_for : ManualFinalizeInput → Bool
  is_for f =
      magnitude f.sale_id == input.sale_id && magnitude f.attempt_count == input.attempt_count

  -- whether an event fits the events before it
  abbrev pub is_faithful : ManualEvent → List ManualEvent → Bool
  is_faithful (mailed request o) log =
      text_eq request.idempotency_key (build_smtp_idempotency_key input.sale_id input.attempt_count)
  is_faithful (asked_finalization f o) log = is_for f && may_be_recorded f.status log
  is_faithful (asked_recovery f o) log = is_for f && may_be_recovered f.status log
  is_faithful e log = not (ends_with_mail log)

  abbrev pub all_faithful : List ManualEvent → Bool
  all_faithful [] = true
  all_faithful (e ∷ log) = is_faithful e log && all_faithful log

pub record Fine (input : ManualInput) (k : ℕ) (log : List ManualEvent) : Type 0 where
  pub mails : mail_count log ≤ k
  pub faithful : all_faithful input log ≡ true

-- a log after which a failure may be recovered from
pub record Recorded (input : ManualInput) (log : List ManualEvent) : Type 0 where
  pub fine : Fine input 1 log
  pub no_mail : ends_with_mail log ≡ false

eqb_refl : (n : ℕ) → (n == n) ≡ true
eqb_refl n = ground arith

no_mail_yet : (log : List ManualEvent) → mail_count log ≤ 0 → ends_with_mail log ≡ false
no_mail_yet [] h = refl
no_mail_yet (loaded_sale i c o ∷ log) h = refl
no_mail_yet (asked_lock r a o ∷ log) h = refl
no_mail_yet (fetched_context i o ∷ log) h = refl
no_mail_yet (fetched_pdf i e a o ∷ log) h = refl
no_mail_yet (rendered c o ∷ log) h = refl
no_mail_yet (mailed request o ∷ log) h = absurd (omega (arith, h))
no_mail_yet (asked_finalization f o ∷ log) h = refl
no_mail_yet (asked_recovery f o ∷ log) h = refl
no_mail_yet (asked_lock_completion a l s o ∷ log) h = refl

module _ (input : ManualInput) where
  pub more : (log : List ManualEvent) → Fine input 0 log → Fine input 1 log
  more log f = record { mails = omega (arith, f.mails); faithful = f.faithful }

  -- an event that is no mail and asks to record nothing, before any mail
  pub step-Fine :
      (e : ManualEvent) (log : List ManualEvent)
      → is_mailed e ≡ 0
      → is_faithful input e log ≡ not (ends_with_mail log)
      → Fine input 0 log
      → Fine input 0 (e ∷ log)
  step-Fine e log mailless plain f = record {
    mails = omega (arith, mailless, f.mails);
    faithful = rw (plain, no_mail_yet log f.mails) f.faithful;
  }

  pub is_for_refl :
      (policy : Policy) (f : Finalization)
      → is_for input (manual_finalization input policy f) ≡ true
  is_for_refl policy f = rw (eqb_refl input.sale_id) (eqb_refl input.attempt_count)

module _ {S : Type 0} (act : ManualActivities S) (info : WorkflowInfo) (input : ManualInput)
    (policy : Policy) where
  pub record Targeted (r : Finalization × World S ManualEvent) : Type 0 where
    fine : Fine input 1 r.1.log
    fits : may_be_recorded r.0.status r.1.log ≡ true

  resolved_fits :
      (r : SmtpResult) → fits_mail (done r) (resolve_smtp_result_to_finalization r).status ≡ true
  unfolding resolve_smtp_result_to_finalization
  resolved_fits success = refl
  resolved_fits (pending_failure m) = refl
  resolved_fits (permanent_failure m) = refl

  -- a call at a stage: what follows an answer, and the failure
  stage-Targeted :
      {A : Type 0} (stage : Stage) (event : Outcome A → ManualEvent) (f : S → Outcome A × S)
      (k : A → World S ManualEvent → Finalization × World S ManualEvent) (w : World S ManualEvent)
      → ((a : A) (s : S) → Targeted (k a (record { state = s; log = event (done a) ∷ w.log })))
      → ((e : Thrown)
          → Targeted (
            classified act info input policy stage e,
            record { state = w.state; log = event (thrown e) ∷ w.log },
          ))
      → Targeted (continue_stage act info input policy stage (call event f w) k)
  stage-Targeted {A} stage event f k w answer failed =
      call_rule Targeted event f (λ r. continue_stage act info input policy stage r k) w answered
    where
      answered :
          (o : Outcome A) (s : S)
          → Targeted (
              continue_stage act info input policy stage
                (o, record { state = s; log = event o ∷ w.log })
                k)
      answered (done a) s = answer a s
      answered (thrown e) s = record { fine = (failed e).fine; fits = (failed e).fits }

  send_mail-Targeted :
      (c : EmailContext) (pdf_path : Text) (mail : RenderedEmail) (w : World S ManualEvent)
      → Fine input 0 w.log
      → Targeted (send_mail act info input policy c pdf_path mail w)
  unfolding send_mail build_smtp_request
  send_mail-Targeted c pdf_path mail w before =
      stage-Targeted smtp (mailed request) (act.send request) _ w
        (λ r s. record { fine = sent (done r); fits = resolved_fits r })
        (λ e. record { fine = sent (thrown e); fits = rw (classify-is_failure smtp e) refl })
    where
      request : SmtpRequest
      request =
          build_smtp_request input.request_id info policy.idempotency_scope input.sale_id
            input.attempt_count c mail pdf_path

      sent : (o : Outcome SmtpResult) → Fine input 1 (mailed request o ∷ w.log)
      sent o = record {
        mails = omega (arith, before.mails);
        faithful =
            rw (text_eq_refl (build_smtp_idempotency_key input.sale_id input.attempt_count))
              before.faithful;
      }

  context-Targeted :
      (r : ContextResult) (s : S) (log : List ManualEvent)
      → Fine input 0 log
      → Targeted (
          with_context act info input policy r
            (record { state = s; log = fetched_context input.erp_sale_id (done r) ∷ log }))
  unfolding with_context
  context-Targeted (context_failed_final message) s log before = record {
    fine = more input _ (step-Fine input _ log refl refl before);
    fits = refl;
  }
  context-Targeted (context_found c) s log before =
      let context = step-Fine input _ log refl refl before in
      stage-Targeted ixc (fetched_pdf input.sale_id input.erp_sale_id input.attempt_count)
        (act.fetch_pdf input.sale_id input.erp_sale_id input.attempt_count) _ _
        (λ pdf_path s1.
          let pdf = step-Fine input _ _ refl refl context in
          stage-Targeted render (rendered c) (act.render_email c) _ _
            (λ mail s2. send_mail-Targeted c pdf_path mail _ (step-Fine input _ _ refl refl pdf))
            (λ e. record {
              fine = more input _ (step-Fine input _ _ refl refl pdf);
              fits = classify-is_failure render e;
            }))
        (λ e. record {
          fine = more input _ (step-Fine input _ _ refl refl context);
          fits = classify-is_failure ixc e;
        })

  pub execute-Targeted :
      (w : World S ManualEvent) → Fine input 0 w.log → Targeted (execute act info input policy w)
  unfolding execute
  execute-Targeted w before =
      stage-Targeted erp (fetched_context input.erp_sale_id) (act.fetch_context input.erp_sale_id) _
        w (λ r s. context-Targeted r s w.log before)
        (λ e. record {
          fine = more input _ (step-Fine input _ _ refl refl before);
          fits = classify-is_failure erp e;
        })

  -- a recovery of an error, with the target that is known by then, fits the log
  abbrev Recoverable : TryEnd → List ManualEvent → Type 0
  Recoverable (earlier r) log = Unit {0}
  Recoverable (finalized lease r) log = Unit {0}
  Recoverable (broken e lease target) log =
      may_be_recovered (or_else target (unexpected_recovery_target e)).status log ≡ true

  pub record Tried (r : TryEnd × World S ManualEvent) : Type 0 where
    pub recorded : Recorded input r.1.log
    pub recoverable : Recoverable r.0 r.1.log

  pub finalize_target-Tried :
      (lease : Text) (r : Finalization × World S ManualEvent)
      → Targeted r
      → Tried (finalize_target act info input policy lease r)
  finalize_target-Tried lease (target, w) t =
      call_rule Tried (asked_finalization request) (act.finalize request)
        (finalize_answered act info input policy lease target) w answered
    where
      request : ManualFinalizeInput
      request = manual_finalization input policy target

      asked :
          (o : Outcome FinalizeActivityResult)
          → Recorded input (asked_finalization request o ∷ w.log)
      asked o = record {
        fine = record {
          mails = omega (arith, t.fine.mails);
          faithful = rw (is_for_refl input policy target, t.fits) t.fine.faithful;
        };
        no_mail = refl;
      }

      answered :
          (o : Outcome FinalizeActivityResult) (s : S)
          → Tried (
              finalize_answered act info input policy lease target
                (o, record { state = s; log = asked_finalization request o ∷ w.log }))
      answered (done r) s = record { recorded = asked (done r); recoverable = tt }
      answered (thrown e) s = record {
        recorded = asked (thrown e);
        recoverable = status_eq_refl target.status;
      }

  -- a step before any mail and any finalization
  pub step-Recorded :
      (e : ManualEvent) (log : List ManualEvent)
      → is_mailed e ≡ 0
      → is_faithful input e log ≡ not (ends_with_mail log)
      → ends_with_mail (e ∷ log) ≡ false
      → Fine input 0 log
      → Recorded input (e ∷ log)
  step-Recorded e log mailless plain no_mail before = record {
    fine = more input (e ∷ log) (step-Fine input e log mailless plain before);
    no_mail = no_mail;
  }

  pub load-Tried :
      (k : ManualSnapshot → World S ManualEvent → TryEnd × World S ManualEvent)
      (w : World S ManualEvent)
      → Fine input 0 w.log
      → ((sale : ManualSnapshot) (s : S)
          → Tried (
              k sale (record {
                state = s;
                log = loaded_sale input.sale_id policy.idempotency_scope (done (some sale)) ∷ w.log;
              })))
      → Tried (
          load_answered act info input policy k (
            call
              (loaded_sale input.sale_id policy.idempotency_scope)
              (act.load_sale input.sale_id policy.idempotency_scope)
              w))
  load-Tried k w before next =
      call_rule Tried (loaded_sale input.sale_id policy.idempotency_scope)
        (act.load_sale input.sale_id policy.idempotency_scope)
        (load_answered act info input policy k) w answered
    where
      answered :
          (o : Outcome (Option ManualSnapshot)) (s : S)
          → Tried (
              load_answered act info input policy k (
                o,
                record {
                  state = s;
                  log = loaded_sale input.sale_id policy.idempotency_scope o ∷ w.log;
                },
              ))
      answered (done (some sale)) s = next sale s
      answered (done none) s = record {
        recorded = step-Recorded _ w.log refl refl refl before;
        recoverable = refl;
      }
      answered (thrown e) s = record {
        recorded = step-Recorded _ w.log refl refl refl before;
        recoverable = refl;
      }
