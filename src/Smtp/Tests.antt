-- ===== src/Smtp/Tests.antt =====
-- The step of one e-mail on small tables.
use automation_server_net.Base.{
  ℕ, ◌+◌, ◌<◌, ◌≡◌, refl, false, none, some, List, [], ◌∷◌, arith, inl,
}
use automation_server_net.Js.Text.{Text, codes, text_eq, text_eq_refl, text_eq_sound}
use automation_server_net.Integration.{ok}
use automation_server_net.Session.{Session, quiet, statement}
use automation_server_net.Idempotency.Table.{
  pending, completed, Row, Db, StepKey, Collation, insert_ignore, find_row, reclaim,
  pending_reservation_ttl_seconds,
}
use automation_server_net.Idempotency.Repository.{
  reserve, reserve_loop, reserve_attempt, reserve_inserted, normalize_insert_id, reserve_found,
  reserve_by_status, reserve_pending, pending_outcome, read_row_id, read_attempt_count,
  is_expired_pending_reservation,
}
use automation_server_net.Idempotency.Interleaving.{Interferes, run}
use automation_server_net.Idempotency.WellFormed.{WellFormed}
use automation_server_net.Idempotency.Exclusive.{Held, HeldRow}
use automation_server_net.Idempotency.Recorded.{Recorded, RecordedRow}
use automation_server_net.Smtp.{Message, SendInput, SendOutput, success}
use automation_server_net.Smtp.Send.{Tools, send_key, send_reservation, send_checked}
use automation_server_net.Smtp.Once.{
  send_checked-Held, send_checked_excluded, send_checked-replayed,
}

abbrev exact : Collation
exact = record {
  same = text_eq;
  same_refl = text_eq_refl;
  same_sym = λ s t e. rw (text_eq_sound s t e) (text_eq_refl t);
  same_trans = λ s t u e f. rw (text_eq_sound s t e) f;
}

alone : (P : Text → Type 0) → Interferes exact P (quiet 100)
unfolding run
alone P = record {
  operations = λ n d. [];
  are_by = λ n d. tt;
  are_sound = λ n d. tt;
  are_run = λ n d. refl;
}

abbrev message : Message (Unit {0})
message = record {
  from = none;
  to = none;
  cc = none;
  bcc = none;
  reply_to = none;
  subject = codes "s";
  text = none;
  html = none;
  attachments = none;
}

abbrev send_input : SendInput (Unit {0})
send_input = record {
  request_id = codes "r";
  workflow_id = codes "w";
  workflow_name = codes "n";
  idempotency_scope = none;
  idempotency_key = codes "i";
  message = message;
}

abbrev output : SendOutput
output = record {
  message_id = codes "m";
  accepted = [];
  rejected = [];
  pending = [];
  response = [];
}

abbrev tools : Tools (Unit {0}) (Unit {0})
tools = record {
  parse_json = λ s. some tt;
  parse_result = λ j. some (success output (codes "now"));
  stringify = λ r. codes "j";
  durable_key = λ parts. codes "k";
  payload_hash = λ m. codes "h";
  describe = λ e. (codes "c", codes "m");
  sent_at = codes "now";
  server = λ m. ok output;
}

abbrev step_key : StepKey
step_key = record {
  workflow_name = codes "n";
  step_name = codes "smtp-send-email";
  idempotency_key = codes "k";
}

abbrev held_row : Row
held_row = record {
  id = 1;
  key = step_key;
  workflow_id = codes "w";
  request_id = codes "r";
  payload_hash = codes "h";
  execution_status = pending;
  lease_token = some (codes "a");
  attempt_count = 1;
  last_attempted_at = some 100;
  pending_expires_at = some 190;
  external_reference = none;
  result_payload_json = none;
  created_at = 100;
  updated_at = 100;
  completed_at = none;
}

abbrev done_row : Row
done_row = record held_row {
  execution_status = completed;
  lease_token = none;
  pending_expires_at = none;
  result_payload_json = some (codes "j");
  completed_at = some 110;
}

abbrev begin : List Row → Session Db
begin rows = record { db = record { rows = rows; next_id = 2; time = 120 }; queries = 0 }

empty-WellFormed : WellFormed exact (begin []).db
empty-WellFormed = record { distinct = tt; numbered = tt; consistent = tt }

held_row-HeldRow : HeldRow exact step_key 1 (codes "a") 190 held_row
unfolding text_eq
held_row-HeldRow = record {
  keyed = refl;
  identified = refl;
  in_progress = refl;
  leased = refl;
  expires = refl;
}

owner_step : Held exact step_key 1 (codes "a") 190 (begin (held_row ∷ [])).db
owner_step = record {
  exists = inl held_row-HeldRow;
  sole = (λ claims. held_row-HeldRow, tt);
  taken = omega arith;
}

done_row-RecordedRow : RecordedRow exact step_key 1 completed (codes "j") (codes "h") refl done_row
unfolding text_eq
done_row-RecordedRow = record {
  keyed = refl;
  identified = refl;
  finished = refl;
  stored = refl;
  hashed = refl;
  tried = omega arith;
  countable = omega arith;
}

done-Recorded :
    Recorded exact step_key 1 completed (codes "j") (codes "h") refl (begin (done_row ∷ [])).db
done-Recorded = record {
  exists = inl done_row-RecordedRow;
  sole = (λ claims. done_row-RecordedRow, tt);
  taken = omega arith;
}

sends :
    (send_checked exact tools (codes "b") send_input (codes "k") (quiet 100) (begin [])).0
    ≡ message ∷ []
unfolding send_checked reserve reserve_loop reserve_attempt reserve_inserted statement insert_ignore
    normalize_insert_id
sends = refl

send_checked-Held_example :
    let d =
      (reserve exact tools.parse_json
        (send_reservation exact tools (codes "b") send_input (codes "k"))
        (codes "b")
        (quiet 100)
        (begin [])).1.db in
    (i : ℕ) × Held exact
      (send_key exact tools (codes "b") send_input (codes "k"))
      i
      (codes "b")
      (d.time + pending_reservation_ttl_seconds)
      d
send_checked-Held_example =
    send_checked-Held exact tools (codes "b") send_input (codes "k") (quiet 100) (alone (λ t. Unit))
      (begin []) message [] empty-WellFormed sends

reservation_time :
    (reserve exact tools.parse_json
      (send_reservation exact tools (codes "b") send_input (codes "k"))
      (codes "b")
      (quiet 100)
      (begin (held_row ∷ []))).1.db.time
    < 190
unfolding reserve reserve_loop reserve_attempt reserve_inserted statement insert_ignore text_eq
    find_row reserve_found reserve_by_status reserve_pending pending_outcome read_row_id
    read_attempt_count is_expired_pending_reservation reclaim
reservation_time = omega arith

other_token : text_eq (codes "a") (codes "b") ≡ false
unfolding text_eq
other_token = refl

send_checked_excluded_example :
    (send_checked exact tools
      (codes "b")
      send_input
      (codes "k")
      (quiet 100)
      (begin (held_row ∷ []))).0
    ≡ []
send_checked_excluded_example =
    send_checked_excluded exact tools (codes "b") send_input (codes "k") (quiet 100) 1 (codes "a")
      190 (alone (λ t. text_eq (codes "a") t ≡ false)) (begin (held_row ∷ [])) other_token
      held_row-HeldRow.keyed owner_step reservation_time

send_checked-replayed_example :
    ((send_checked exact tools
        (codes "b")
        send_input
        (codes "k")
        (quiet 100)
        (begin (done_row ∷ []))).0
      ≡ [])
    × ((send_checked exact tools
          (codes "b")
          send_input
          (codes "k")
          (quiet 100)
          (begin (done_row ∷ []))).1.0
        ≡ ok (success output (codes "now")))
send_checked-replayed_example =
    send_checked-replayed exact tools (codes "b") send_input (codes "k") (quiet 100)
      (alone (λ t. Unit)) 1 completed (codes "j") (success output (codes "now")) refl
      (begin (done_row ∷ [])) (λ n. refl) (omega arith) (omega arith) refl done-Recorded
