-- ===== src/Dispatch/Lock/Stored.antt =====
-- The stored result of a lock reads back as it was written.
use automation_server_net.Base.{◌≡◌, refl, Bool, true, false, some, arith}
use automation_server_net.Js.Text.{is_empty, trim, text_eq}
use automation_server_net.Nfe.Sale.{
  SaleStatus, pending, in_progress, sent, failed_transient, failed_final, delivery_unknown,
}
use automation_server_net.Dispatch.Lock.{
  StoredResult, status_name, final_status_of, parse_attempt_lock_stored_result,
}
use automation_server_net.Dispatch.Lock.Queries.{stored_json}

-- the statuses that an attempt ends with
abbrev pub ends_attempt : SaleStatus → Bool
ends_attempt pending = false
ends_attempt in_progress = false
ends_attempt sent = true
ends_attempt failed_transient = true
ends_attempt failed_final = true
ends_attempt delivery_unknown = true

final_status_of-status_name :
    (s : SaleStatus) → ends_attempt s ≡ true → final_status_of (status_name s) ≡ some s
unfolding text_eq
final_status_of-status_name pending h = ground (arith, h)
final_status_of-status_name in_progress h = ground (arith, h)
final_status_of-status_name sent h = refl
final_status_of-status_name failed_transient h = refl
final_status_of-status_name failed_final h = refl
final_status_of-status_name delivery_unknown h = refl

-- A final status with a time of release that has no space around it reads back from the object that is
-- stored for it.
pub parse-stored_json :
    (r : StoredResult)
    → ends_attempt r.final_status ≡ true
    → trim r.released_at ≡ r.released_at
    → is_empty r.released_at ≡ false
    → parse_attempt_lock_stored_result (stored_json r) ≡ some r
unfolding parse_attempt_lock_stored_result text_eq
parse-stored_json r final trimmed given =
    rw (final_status_of-status_name r.final_status final) (rw trimmed (rw given refl))
