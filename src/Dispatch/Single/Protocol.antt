-- ===== src/Dispatch/Single/Protocol.antt =====
-- The protocol of an attempt: in which order it may ask what of the outside, and with which arguments. A
-- log stands for the phase that its events lead to, where the protocol allows them.
use automation_server_net.Base.{
  ℕ, ◌+◌, Bool, true, false, ◌&&◌, Option, none, some, List, [], ◌∷◌, if◌then◌else◌, ◌==◌,
}
use automation_server_net.Js.Text.{Text, text_eq}
use automation_server_net.Js.Number.{magnitude}
use automation_server_net.Nfe.Sale.{
  SaleStatus, sent, failed_final, failed_transient, delivery_unknown, status_eq,
}
use automation_server_net.Nfe.Rows.{claimed, already_claimed_by_this_attempt, skipped}
use automation_server_net.Nfe.Activities.{FinalizeActivityInput, FinalizeActivityResult}
use automation_server_net.Temporal.{Outcome, done, thrown}
use automation_server_net.Dispatch.Mail.{
  SmtpResult, success, pending_failure, permanent_failure, acquired, lock_pending,
  already_processed, build_smtp_idempotency_key,
}
use automation_server_net.Dispatch.Single.{
  SingleInput, Event, asked_lock, asked_claim, fetched_context, fetched_pdf, rendered, mailed,
  asked_finalization, asked_lock_completion, asked_lock_cancellation,
}

pub data Phase : Type 0 where
  -- nothing has been asked
  idle : Phase
  -- the lock is held, and the sale is not claimed
  locked : (lease_token : Text) → Phase
  -- nothing was claimed, so that the lock is to be given back; was the claim refused or did it fail
  unclaimed_sale : (lease_token : Text) (failed : Bool) → Phase
  -- the sale is claimed, and nothing has been mailed
  claimed_sale : (lease_token : Text) (attempt_count : ℕ) → Phase
  -- the mail has been handed over, with what came of it
  handed_over : (lease_token : Text) (attempt_count : ℕ) → Outcome SmtpResult → Phase
  -- the first finalization was refused
  refused : (lease_token : Text) (attempt_count : ℕ) → Phase
  -- the result stands
  settled_sale : (lease_token : Text) → FinalizeActivityResult → Phase
  -- over: without a claim, with a result, and with neither
  skipped_over : Phase
  settled_over : FinalizeActivityResult → Phase
  broken_over : Phase

-- a status for a failure that nobody handled
abbrev pub is_failure : SaleStatus → Bool
is_failure s = if status_eq s failed_final then true else status_eq s failed_transient

-- a status that does not tell that a mail was sent: a failure, or that it is not known
abbrev pub is_unconfirmed : SaleStatus → Bool
is_unconfirmed s = if is_failure s then true else status_eq s delivery_unknown

-- what may be recorded after the mail was handed over
abbrev pub fits_mail : Outcome SmtpResult → SaleStatus → Bool
fits_mail (done success) s = status_eq s sent
fits_mail (done (pending_failure m)) s = status_eq s delivery_unknown
fits_mail (done (permanent_failure m)) s = status_eq s failed_final
fits_mail (thrown e) s = is_unconfirmed s

abbrev pub after_finalization : Text → Outcome FinalizeActivityResult → Phase → Phase
after_finalization lease (done r) other = settled_sale lease r
after_finalization lease (thrown e) other = other

abbrev pub when : Bool → Phase → Option Phase
when true p = some p
when false p = none

module _ (input : SingleInput) where
  abbrev pub finalization_fits : ℕ → FinalizeActivityInput → Bool
  finalization_fits n f = magnitude f.sale_id == input.sale_id && magnitude f.attempt_count == n

  abbrev from_idle : Event → Option Phase
  from_idle (asked_lock n scope (done (acquired lease))) =
      when (n == input.current_attempt_count + 1) (locked lease)
  from_idle (asked_lock n scope (done lock_pending)) = some skipped_over
  from_idle (asked_lock n scope (done (already_processed s))) = some skipped_over
  from_idle (asked_lock n scope (thrown e)) = some broken_over
  from_idle other = none

  abbrev from_locked : Text → Event → Option Phase
  from_locked lease (asked_claim c (done (claimed n))) = some (claimed_sale lease n)
  from_locked lease (asked_claim c (done (already_claimed_by_this_attempt n))) =
      some (claimed_sale lease n)
  from_locked lease (asked_claim c (done skipped)) = some (unclaimed_sale lease false)
  from_locked lease (asked_claim c (thrown e)) = some (unclaimed_sale lease true)
  from_locked lease other = none

  abbrev from_unclaimed_sale : Text → Bool → Event → Option Phase
  from_unclaimed_sale lease failed (asked_lock_cancellation t o) =
      when (text_eq t lease) (if failed then broken_over else skipped_over)
  from_unclaimed_sale lease failed other = none

  abbrev from_claimed : Text → ℕ → Event → Option Phase
  from_claimed lease n (fetched_context erp_id o) =
      when (erp_id == input.erp_sale_id) (claimed_sale lease n)
  from_claimed lease n (fetched_pdf id erp_id a o) =
      when (id == input.sale_id && (erp_id == input.erp_sale_id && a == n)) (claimed_sale lease n)
  from_claimed lease n (rendered c o) = some (claimed_sale lease n)
  from_claimed lease n (mailed request o) =
      when (text_eq request.idempotency_key (build_smtp_idempotency_key input.sale_id n))
        (handed_over lease n o)
  from_claimed lease n (asked_finalization f o) =
      when (finalization_fits n f && is_failure f.status)
        (after_finalization lease o (refused lease n))
  from_claimed lease n other = none

  abbrev from_handed_over : Text → ℕ → Outcome SmtpResult → Event → Option Phase
  from_handed_over lease n r (asked_finalization f o) =
      when (finalization_fits n f && fits_mail r f.status)
        (after_finalization lease o (refused lease n))
  from_handed_over lease n r other = none

  abbrev from_refused : Text → ℕ → Event → Option Phase
  from_refused lease n (asked_finalization f o) =
      when (finalization_fits n f && is_unconfirmed f.status)
        (after_finalization lease o broken_over)
  from_refused lease n other = none

  abbrev from_settled : Text → FinalizeActivityResult → Event → Option Phase
  from_settled lease r (asked_lock_completion t s o) =
      when (text_eq t lease && status_eq s r.status) (settled_over r)
  from_settled lease r other = none

  unfoldable pub next : Phase → Event → Option Phase
  next idle e = from_idle e
  next (locked lease) e = from_locked lease e
  next (unclaimed_sale lease failed) e = from_unclaimed_sale lease failed e
  next (claimed_sale lease n) e = from_claimed lease n e
  next (handed_over lease n r) e = from_handed_over lease n r e
  next (refused lease n) e = from_refused lease n e
  next (settled_sale lease r) e = from_settled lease r e
  next skipped_over e = none
  next (settled_over r) e = none
  next broken_over e = none

  abbrev pub advance : Event → Option Phase → Option Phase
  advance e none = none
  advance e (some p) = next p e

  -- the phase of a log, which has its last event first
  unfoldable pub phase_of : List Event → Option Phase
  phase_of [] = some idle
  phase_of (e ∷ log) = advance e (phase_of log)

-- how often a mail was handed over
abbrev pub is_mailed : Event → ℕ
is_mailed (mailed r o) = 1
is_mailed other = 0

abbrev pub mail_count : List Event → ℕ
mail_count [] = 0
mail_count (e ∷ log) = is_mailed e + mail_count log
