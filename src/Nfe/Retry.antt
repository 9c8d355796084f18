-- ===== src/Nfe/Retry.antt =====
-- What follows an attempt: when a failed sale is taken up again.
use automation_server_net.Base.{ℕ, ◌≡◌, ◌<◌, ◌≤◌, ◌↔◌, true, Option, arith}
use automation_server_net.Js.Text.{Text}
use automation_server_net.Nfe.Sale.{
  SaleStatus, pending, in_progress, sent, failed_transient, failed_final, delivery_unknown, Sale,
  is_final,
}
use automation_server_net.Nfe.Statements.{is_eligible, finalized_sale}
use automation_server_net.Nfe.Activities.{resolve_effective_final_status}

-- A sale that the finalization activity leaves with the status it resolves, for an attempt whose count
-- is the row's, is eligible for another attempt exactly if the attempt failed transiently and attempts
-- are left. No sale is left FAILED_TRANSIENT that is not eligible, and a transient failure of the last
-- attempt leaves it FAILED_FINAL.
pub eligible_after_finalization :
    (asked : SaleStatus) (max : ℕ) (s : Sale) (sent_at error : Option Text) (time : Text)
    → is_final asked ≡ true
    → let after =
        finalized_sale
          (resolve_effective_final_status asked s.attempt_count max)
          sent_at
          error
          time
          s in
      ((is_eligible max after ≡ true) ↔ ((asked ≡ failed_transient) × (s.attempt_count < max)))
      × (after.status ≡ failed_transient → is_eligible max after ≡ true)
      × (asked ≡ failed_transient → max ≤ s.attempt_count → after.status ≡ failed_final)
unfolding resolve_effective_final_status
eligible_after_finalization pending max s sent_at error time f = ground (arith, f)
eligible_after_finalization in_progress max s sent_at error time f = ground (arith, f)
eligible_after_finalization sent max s sent_at error time f =
    ((λ h. cc, λ h. cc (h.0)), λ h. cc (h), λ h. cc (h))
eligible_after_finalization failed_transient max s sent_at error time f =
    (ground arith, ground arith, ground arith)
eligible_after_finalization failed_final max s sent_at error time f =
    ((λ h. cc, λ h. cc (h.0)), λ h. cc (h), λ h. cc (h))
eligible_after_finalization delivery_unknown max s sent_at error time f =
    ((λ h. cc, λ h. cc (h.0)), λ h. cc (h), λ h. cc (h))
