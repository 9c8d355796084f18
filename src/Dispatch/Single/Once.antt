-- ===== src/Dispatch/Single/Once.antt =====
-- What the protocol of an attempt promises by itself: at most one mail, in the name of a claimed attempt.
use automation_server_net.Base.{
  ℕ, ◌+◌, ◌≤◌, Bool, true, false, Option, none, some, List, [], ◌∷◌, arith,
}
use automation_server_net.Nfe.Rows.{claimed, already_claimed_by_this_attempt, skipped}
use automation_server_net.Temporal.{Outcome, done, thrown}
use automation_server_net.Dispatch.Processing.{ChildResult}
use automation_server_net.Dispatch.Mail.{acquired, lock_pending, already_processed, WorkflowInfo}
use automation_server_net.Dispatch.Single.{
  SingleInput, Event, Activities, process_single_sale, asked_lock, asked_claim, fetched_context,
  fetched_pdf, rendered, mailed, asked_finalization, asked_lock_completion, asked_lock_cancellation,
}
use automation_server_net.Dispatch.Single.Protocol.{
  Phase, idle, locked, unclaimed_sale, claimed_sale, handed_over, refused, settled_sale,
  skipped_over, settled_over, broken_over, when, next, advance, phase_of, mail_count, is_mailed,
}
use automation_server_net.Dispatch.Single.Reports.{
  Report, not_started, reports_skip, reports_result, reports_refusal, reports_failure,
  process_single_sale-Reported,
}

-- the mails that a phase leaves room for
abbrev mails_of : Phase → ℕ
mails_of idle = 0
mails_of (locked lease) = 0
mails_of (unclaimed_sale lease failed) = 0
mails_of (claimed_sale lease n) = 0
mails_of (handed_over lease n r) = 1
mails_of (refused lease n) = 1
mails_of (settled_sale lease r) = 1
mails_of skipped_over = 0
mails_of (settled_over r) = 1
mails_of broken_over = 1

abbrev Room : ℕ → Option Phase → Type 0
Room k none = Unit {0}
Room k (some q) = k ≤ mails_of q

when-Room : (k : ℕ) (b : Bool) (q : Phase) → k ≤ mails_of q → Room k (when b q)
when-Room k true q h = h
when-Room k false q h = tt

next-Room :
    (input : SingleInput) (p : Phase) (e : Event) → Room (is_mailed e + mails_of p) (next input p e)
unfolding next
next-Room input idle (asked_lock n scope (done (acquired lease))) = when-Room _ _ _ (omega arith)
next-Room input idle (asked_lock n scope (done lock_pending)) = omega arith
next-Room input idle (asked_lock n scope (done (already_processed s))) = omega arith
next-Room input idle (asked_lock n scope (thrown t)) = omega arith
next-Room input idle other = tt
next-Room input (locked lease) (asked_claim c (done (claimed n))) = omega arith
next-Room input (locked lease) (asked_claim c (done (already_claimed_by_this_attempt n))) =
    omega arith
next-Room input (locked lease) (asked_claim c (done skipped)) = omega arith
next-Room input (locked lease) (asked_claim c (thrown t)) = omega arith
next-Room input (locked lease) other = tt
next-Room input (unclaimed_sale lease false) (asked_lock_cancellation t o) =
    when-Room _ _ _ (omega arith)
next-Room input (unclaimed_sale lease true) (asked_lock_cancellation t o) =
    when-Room _ _ _ (omega arith)
next-Room input (unclaimed_sale lease failed) other = tt
next-Room input (claimed_sale lease n) (fetched_context i o) = when-Room _ _ _ (omega arith)
next-Room input (claimed_sale lease n) (fetched_pdf i j a o) = when-Room _ _ _ (omega arith)
next-Room input (claimed_sale lease n) (rendered c o) = omega arith
next-Room input (claimed_sale lease n) (mailed r o) = when-Room _ _ _ (omega arith)
next-Room input (claimed_sale lease n) (asked_finalization f (done r)) =
    when-Room _ _ _ (omega arith)
next-Room input (claimed_sale lease n) (asked_finalization f (thrown t)) =
    when-Room _ _ _ (omega arith)
next-Room input (claimed_sale lease n) other = tt
next-Room input (handed_over lease n r) (asked_finalization f (done x)) =
    when-Room _ _ _ (omega arith)
next-Room input (handed_over lease n r) (asked_finalization f (thrown t)) =
    when-Room _ _ _ (omega arith)
next-Room input (handed_over lease n r) other = tt
next-Room input (refused lease n) (asked_finalization f (done x)) = when-Room _ _ _ (omega arith)
next-Room input (refused lease n) (asked_finalization f (thrown t)) = when-Room _ _ _ (omega arith)
next-Room input (refused lease n) other = tt
next-Room input (settled_sale lease r) (asked_lock_completion t s o) = when-Room _ _ _ (omega arith)
next-Room input (settled_sale lease r) other = tt
next-Room input skipped_over e = tt
next-Room input (settled_over r) e = tt
next-Room input broken_over e = tt

widen : (k j : ℕ) (q : Option Phase) → k ≤ j → Room j q → Room k q
widen k j none h r = tt
widen k j (some q) h r = omega arith

phase_of-Room :
    (input : SingleInput) (log : List Event) → Room (mail_count log) (phase_of input log)
unfolding phase_of
phase_of-Room input [] = omega arith
phase_of-Room input (e ∷ log) = advanced (phase_of input log) (phase_of-Room input log)
  where
    advanced :
        (p : Option Phase)
        → Room (mail_count log) p
        → Room (is_mailed e + mail_count log) (advance input e p)
    advanced none r = tt
    advanced (some p) r = widen _ _ (next input p e) (omega (arith, r)) (next-Room input p e)

Report-Room :
    (input : SingleInput) (k : ℕ) {o : Outcome ChildResult} {q : Option Phase}
    → Report input o q
    → Room k q
    → k ≤ 1
Report-Room input k (not_started e) r = omega arith
Report-Room input k reports_skip r = omega arith
Report-Room input k (reports_result x) r = r
Report-Room input k (reports_refusal e lease n) r = r
Report-Room input k (reports_failure e) r = r

-- Whatever its activities answer, a run of the workflow that handles one sale hands over at most one mail.
pub process_single_sale_mails_once :
    {S : Type 0} (act : Activities S) (info : WorkflowInfo) (input : SingleInput) (s : S)
    → mail_count (process_single_sale act info input (record { state = s; log = [] })).1.log ≤ 1
process_single_sale_mails_once act info input s =
    Report-Room input _ (process_single_sale-Reported act info input s) (phase_of-Room input _)
