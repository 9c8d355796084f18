-- ===== src/Dispatch/Single/Sent.antt =====
-- A sale is recorded as sent only after its mail was handed over with success.
use automation_server_net.Base.{
  ℕ, ◌≡◌, refl, sym, subst, Bool, true, false, not, ◌&&◌, ◌||◌, Option, none, some, List, [], ◌∷◌,
  ◌==◌, arith,
}
use automation_server_net.Js.Text.{Text, text_eq}
use automation_server_net.Js.Number.{magnitude}
use automation_server_net.Nfe.Activities.{FinalizeActivityInput, FinalizeActivityResult}
use automation_server_net.Nfe.Rows.{claimed, already_claimed_by_this_attempt, skipped}
use automation_server_net.Nfe.Sale.{
  SaleStatus, pending, in_progress, sent, failed_transient, failed_final, delivery_unknown,
  status_eq,
}
use automation_server_net.Temporal.{Outcome, done, thrown}
use automation_server_net.Dispatch.Mail.{
  acquired, lock_pending, already_processed, WorkflowInfo, SmtpRequest, SmtpResult, success,
  pending_failure, permanent_failure, build_smtp_idempotency_key,
}
use automation_server_net.Dispatch.Processing.{ChildResult}
use automation_server_net.Dispatch.Single.{
  SingleInput, Event, Activities, process_single_sale, asked_lock, asked_claim, fetched_context,
  fetched_pdf, rendered, mailed, asked_finalization, asked_lock_completion, asked_lock_cancellation,
}
use automation_server_net.Dispatch.Single.Protocol.{
  Phase, idle, locked, unclaimed_sale, claimed_sale, handed_over, refused, settled_sale,
  skipped_over, settled_over, broken_over, is_failure, is_unconfirmed, fits_mail, finalization_fits,
  after_finalization, when, next, advance, phase_of,
}
use automation_server_net.Dispatch.Single.Reports.{
  Report, not_started, reports_skip, reports_result, reports_refusal, reports_failure,
  process_single_sale-Reported,
}

-- whether the last event of a log is a mail handed over with success, under the key of an attempt
abbrev pub has_delivered : (sale_id attempt_count : ℕ) → List Event → Bool
has_delivered id n (mailed request (done success) ∷ log) =
    text_eq request.idempotency_key (build_smtp_idempotency_key id n)
has_delivered id n log = false

-- whether an event after a log is no record of a mail sent, or stands after the delivery
abbrev pub is_honest : (sale_id : ℕ) → Event → List Event → Bool
is_honest id (asked_finalization f o) log =
    not (status_eq f.status sent) || has_delivered id (magnitude f.attempt_count) log
is_honest id other log = true

abbrev pub all_honest : (sale_id : ℕ) → List Event → Bool
all_honest id [] = true
all_honest id (e ∷ log) = is_honest id e log && all_honest id log

Shown : (sale_id : ℕ) → List Event → Phase → Type 0
Shown id log (handed_over lease n (done success)) = has_delivered id n log ≡ true
Shown id log other = Unit {0}

Kept : (sale_id : ℕ) → List Event → Event → Option Phase → Type 0
Kept id log e none = Unit {0}
Kept id log e (some q) = (is_honest id e log ≡ true) × Shown id (e ∷ log) q

when-Kept :
    (id : ℕ) (log : List Event) (e : Event) (b : Bool) (q : Phase)
    → (b ≡ true → Kept id log e (some q))
    → Kept id log e (when b q)
unfolding Kept
when-Kept id log e true q h = h refl
when-Kept id log e false q h = tt

failure_is_not_sent : (s : SaleStatus) → is_failure s ≡ true → not (status_eq s sent) ≡ true
failure_is_not_sent pending h = refl
failure_is_not_sent in_progress h = refl
failure_is_not_sent sent h = h
failure_is_not_sent failed_transient h = refl
failure_is_not_sent failed_final h = refl
failure_is_not_sent delivery_unknown h = refl

final_is_not_sent :
    (s : SaleStatus) → status_eq s failed_final ≡ true → not (status_eq s sent) ≡ true
final_is_not_sent s h = failure_is_not_sent s (rw h refl)

unknown_is_not_sent :
    (s : SaleStatus) → status_eq s delivery_unknown ≡ true → not (status_eq s sent) ≡ true
unknown_is_not_sent pending h = refl
unknown_is_not_sent in_progress h = refl
unknown_is_not_sent sent h = h
unknown_is_not_sent failed_transient h = refl
unknown_is_not_sent failed_final h = refl
unknown_is_not_sent delivery_unknown h = refl

unconfirmed_is_not_sent : (s : SaleStatus) → is_unconfirmed s ≡ true → not (status_eq s sent) ≡ true
unconfirmed_is_not_sent pending h = refl
unconfirmed_is_not_sent in_progress h = refl
unconfirmed_is_not_sent sent h = h
unconfirmed_is_not_sent failed_transient h = refl
unconfirmed_is_not_sent failed_final h = refl
unconfirmed_is_not_sent delivery_unknown h = refl

or_left : (a b : Bool) → a ≡ true → (a || b) ≡ true
or_left a b h = rw h refl

and_right : (a b : Bool) → (a && b) ≡ true → b ≡ true
and_right a b h = ground (arith, h)

or_right : (a b : Bool) → b ≡ true → (a || b) ≡ true
or_right true b h = refl
or_right false b h = h

own_attempt : (a : Bool) (m n : ℕ) (b : Bool) → ((a && m == n) && b) ≡ true → m ≡ n
own_attempt a m n b h = ground (arith, h)

-- the phases after a finalization show nothing
after-Kept :
    (id : ℕ) (log : List Event) (f : FinalizeActivityInput) (o : Outcome FinalizeActivityResult)
    (lease : Text) (n : ℕ)
    → is_honest id (asked_finalization f o) log ≡ true
    → Kept id log (asked_finalization f o) (some (after_finalization lease o (refused lease n)))
unfolding Kept Shown
after-Kept id log f (done r) lease n h = (h, tt)
after-Kept id log f (thrown e) lease n h = (h, tt)

after_second-Kept :
    (id : ℕ) (log : List Event) (f : FinalizeActivityInput) (o : Outcome FinalizeActivityResult)
    (lease : Text)
    → is_honest id (asked_finalization f o) log ≡ true
    → Kept id log (asked_finalization f o) (some (after_finalization lease o broken_over))
unfolding Kept Shown
after_second-Kept id log f (done r) lease h = (h, tt)
after_second-Kept id log f (thrown e) lease h = (h, tt)

mailed-Kept :
    (input : SingleInput) (log : List Event) (request : SmtpRequest) (o : Outcome SmtpResult)
    (lease : Text) (n : ℕ)
    → text_eq request.idempotency_key (build_smtp_idempotency_key input.sale_id n) ≡ true
    → Kept input.sale_id log (mailed request o) (some (handed_over lease n o))
unfolding Kept Shown
mailed-Kept input log request (done success) lease n h = (refl, h)
mailed-Kept input log request (done (pending_failure m)) lease n h = (refl, tt)
mailed-Kept input log request (done (permanent_failure m)) lease n h = (refl, tt)
mailed-Kept input log request (thrown e) lease n h = (refl, tt)

-- what is recorded after the mail
delivered_honest :
    (input : SingleInput) (log : List Event) (lease : Text) (n : ℕ) (r : Outcome SmtpResult)
    (f : FinalizeActivityInput) (o : Outcome FinalizeActivityResult)
    → Shown input.sale_id log (handed_over lease n r)
    → (finalization_fits input n f && fits_mail r f.status) ≡ true
    → is_honest input.sale_id (asked_finalization f o) log ≡ true
unfolding Shown
delivered_honest input log lease n (done success) f o shown h =
    or_right _ _
      (subst (λ k. has_delivered input.sale_id k log ≡ true) (sym (own_attempt _ _ n _ h)) shown)
delivered_honest input log lease n (done (pending_failure m)) f o shown h =
    or_left _ _ (unknown_is_not_sent f.status (and_right _ _ h))
delivered_honest input log lease n (done (permanent_failure m)) f o shown h =
    or_left _ _ (final_is_not_sent f.status (and_right _ _ h))
delivered_honest input log lease n (thrown e) f o shown h =
    or_left _ _ (unconfirmed_is_not_sent f.status (and_right _ _ h))

next-Kept :
    (input : SingleInput) (log : List Event) (p : Phase) (e : Event)
    → Shown input.sale_id log p
    → Kept input.sale_id log e (next input p e)
unfolding next Kept Shown
next-Kept input log idle (asked_lock n scope (done (acquired lease))) h =
    when-Kept input.sale_id log (asked_lock n scope (done (acquired lease))) _ _ (λ e. (refl, tt))
next-Kept input log idle (asked_lock n scope (done lock_pending)) h = (refl, tt)
next-Kept input log idle (asked_lock n scope (done (already_processed s))) h = (refl, tt)
next-Kept input log idle (asked_lock n scope (thrown t)) h = (refl, tt)
next-Kept input log idle other h = tt
next-Kept input log (locked lease) (asked_claim c (done (claimed n))) h = (refl, tt)
next-Kept input log (locked lease) (asked_claim c (done (already_claimed_by_this_attempt n))) h =
    (refl, tt)
next-Kept input log (locked lease) (asked_claim c (done skipped)) h = (refl, tt)
next-Kept input log (locked lease) (asked_claim c (thrown t)) h = (refl, tt)
next-Kept input log (locked lease) other h = tt
next-Kept input log (unclaimed_sale lease false) (asked_lock_cancellation t o) h =
    when-Kept input.sale_id log (asked_lock_cancellation t o) _ _ (λ e. (refl, tt))
next-Kept input log (unclaimed_sale lease true) (asked_lock_cancellation t o) h =
    when-Kept input.sale_id log (asked_lock_cancellation t o) _ _ (λ e. (refl, tt))
next-Kept input log (unclaimed_sale lease failed) other h = tt
next-Kept input log (claimed_sale lease n) (fetched_context i o) h =
    when-Kept input.sale_id log (fetched_context i o) _ _ (λ e. (refl, tt))
next-Kept input log (claimed_sale lease n) (fetched_pdf i j a o) h =
    when-Kept input.sale_id log (fetched_pdf i j a o) _ _ (λ e. (refl, tt))
next-Kept input log (claimed_sale lease n) (rendered c o) h = (refl, tt)
next-Kept input log (claimed_sale lease n) (mailed r o) h =
    when-Kept input.sale_id log (mailed r o) _ _ (mailed-Kept input log r o lease n)
next-Kept input log (claimed_sale lease n) (asked_finalization f o) h =
    when-Kept input.sale_id log (asked_finalization f o) _ _ (λ e.
      after-Kept _ log f o lease n (or_left _ _ (failure_is_not_sent f.status (and_right _ _ e))))
next-Kept input log (claimed_sale lease n) other h = tt
next-Kept input log (handed_over lease n r) (asked_finalization f o) h =
    when-Kept input.sale_id log (asked_finalization f o) _ _
      (λ e. after-Kept _ log f o lease n (delivered_honest input log lease n r f o h e))
next-Kept input log (handed_over lease n r) other h = tt
next-Kept input log (refused lease n) (asked_finalization f o) h =
    when-Kept input.sale_id log (asked_finalization f o) _ _ (λ e.
      after_second-Kept _ log f o lease
        (or_left _ _ (unconfirmed_is_not_sent f.status (and_right _ _ e))))
next-Kept input log (refused lease n) other h = tt
next-Kept input log (settled_sale lease r) (asked_lock_completion t s o) h =
    when-Kept input.sale_id log (asked_lock_completion t s o) _ _ (λ e. (refl, tt))
next-Kept input log (settled_sale lease r) other h = tt
next-Kept input log skipped_over e h = tt
next-Kept input log (settled_over r) e h = tt
next-Kept input log broken_over e h = tt

Honest : (sale_id : ℕ) → List Event → Option Phase → Type 0
Honest id log none = Unit {0}
Honest id log (some p) = (all_honest id log ≡ true) × Shown id log p

extend-Honest :
    (id : ℕ) (e : Event) (log : List Event) (q : Option Phase)
    → all_honest id log ≡ true
    → Kept id log e q
    → Honest id (e ∷ log) q
unfolding Honest Kept
extend-Honest id e log none h k = tt
extend-Honest id e log (some q) h k = (rw k.0 h, k.1)

phase_of-Honest :
    (input : SingleInput) (log : List Event) → Honest input.sale_id log (phase_of input log)
unfolding phase_of Honest Shown
phase_of-Honest input [] = (refl, tt)
phase_of-Honest input (e ∷ log) = advanced (phase_of input log) (phase_of-Honest input log)
  where
    advanced :
        (p : Option Phase)
        → Honest input.sale_id log p
        → Honest input.sale_id (e ∷ log) (advance input e p)
    advanced none h = tt
    advanced (some p) h =
        extend-Honest input.sale_id e log (next input p e) h.0 (next-Kept input log p e h.1)

all_honest-Report :
    (input : SingleInput) (log : List Event) {o : Outcome ChildResult} {q : Option Phase}
    → Report input o q
    → Honest input.sale_id log q
    → all_honest input.sale_id log ≡ true
unfolding Honest
all_honest-Report input log (not_started e) h = h.0
all_honest-Report input log reports_skip h = h.0
all_honest-Report input log (reports_result x) h = h.0
all_honest-Report input log (reports_refusal e lease n) h = h.0
all_honest-Report input log (reports_failure e) h = h.0

-- Whatever its activities answer, a run of the workflow that handles one sale asks to record a sale as
-- sent only right after its mail was handed over with success, under the key of the recorded attempt.
pub process_single_sale_honest :
    {S : Type 0} (act : Activities S) (info : WorkflowInfo) (input : SingleInput) (s : S)
    → all_honest input.sale_id
        (process_single_sale act info input (record { state = s; log = [] })).1.log
      ≡ true
process_single_sale_honest act info input s =
    all_honest-Report input _ (process_single_sale-Reported act info input s)
      (phase_of-Honest input _)
