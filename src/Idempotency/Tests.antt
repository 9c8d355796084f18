-- ===== src/Idempotency/Tests.antt =====
-- A step of a workflow in a table of one row: data and examples.
use automation_server_net.Base.{
  ℕ, ◌+◌, ◌<◌, ◌≡◌, ◌≢◌, ◌⊎◌, refl, inl, false, Option, none, some, List, [], ◌∷◌, arith,
}
use automation_server_net.Js.Text.{Text, codes, text_eq, text_eq_refl, text_eq_sound}
use automation_server_net.Integration.{ok, raise, Failure, transient_error, idempotency_lease_lost}
use automation_server_net.Session.{Session, statement, quiet}
use automation_server_net.Idempotency.Table.{
  pending, completed, StepKey, Row, Db, Collation, insert_ignore, find_row, reclaim, finalize,
  pending_reservation_ttl_seconds,
}
use automation_server_net.Idempotency.Repository.{
  ReservationInput, reserved, FinalizeInput, reserve, reserve_loop, reserve_attempt,
  reserve_inserted, reserve_found, reserve_by_status, reserve_pending, pending_outcome,
  normalize_insert_id, read_row_id, read_attempt_count, is_expired_pending_reservation,
  finalize_reservation, settle, load_row, settle_unmatched,
}
use automation_server_net.Idempotency.Interleaving.{
  Interferes, Operation, insert_operation, cancel_operation, tick, run,
}
use automation_server_net.Idempotency.WellFormed.{WellFormed, run-WellFormed}
use automation_server_net.Idempotency.Exclusive.{Held, HeldRow}
use automation_server_net.Idempotency.Contention.{reserve_excluded}
use automation_server_net.Idempotency.Owner.{reserve-Held}
use automation_server_net.Idempotency.Recorded.{Recorded, RecordedRow, Recorded-run}
use automation_server_net.Idempotency.Replay.{reserve-replayed, replayed}
use automation_server_net.Idempotency.Settlement.{finalize_reservation-Recorded}
use automation_server_net.Idempotency.Refusal.{finalize_refused}

-- A collation that tells all texts apart.
abbrev exact : Collation
exact = record {
  same = text_eq;
  same_refl = text_eq_refl;
  same_sym = λ s t e. rw (text_eq_sound s t e) (text_eq_refl t);
  same_trans = λ s t u e f. rw (text_eq_sound s t e) f;
}

abbrev step_key : StepKey
step_key = record {
  workflow_name = codes "nfe";
  step_name = codes "send";
  idempotency_key = codes "sale 7";
}

abbrev held_row : Row
held_row = record {
  id = 1;
  key = step_key;
  workflow_id = codes "w";
  request_id = codes "r";
  payload_hash = codes "h";
  execution_status = pending;
  lease_token = some (codes "a");
  attempt_count = 1;
  last_attempted_at = some 100;
  pending_expires_at = some 190;
  external_reference = none;
  result_payload_json = none;
  created_at = 100;
  updated_at = 100;
  completed_at = none;
}

abbrev done_row : Row
done_row = record held_row {
  execution_status = completed;
  lease_token = none;
  pending_expires_at = none;
  result_payload_json = some (codes "{}");
  completed_at = some 110;
}

abbrev empty_db : Db
empty_db = record { rows = []; next_id = 1; time = 100 }

abbrev held_db : Db
held_db = record { rows = held_row ∷ []; next_id = 2; time = 120 }

abbrev done_db : Db
done_db = record { rows = done_row ∷ []; next_id = 2; time = 120 }

abbrev begin : Db → Session Db
begin d = record { db = d; queries = 0 }

-- JSON as its text, and results as they stand
abbrev parse_json : Text → Option Text
parse_json s = some s

abbrev reservation_input : ReservationInput Text Text
reservation_input = record {
  key = step_key;
  workflow_id = codes "w";
  request_id = codes "r";
  payload_hash = codes "h";
  parse_result = λ j. some j;
}

abbrev finalize_input : (token : Text) → FinalizeInput
finalize_input token = record {
  key = step_key;
  lease_token = token;
  result_json = codes "{}";
  external_reference = none;
}

-- Nobody else acts.
alone : (P : Text → Type 0) → Interferes exact P (quiet 100)
unfolding run
alone P = record {
  operations = λ n d. [];
  are_by = λ n d. tt;
  are_sound = λ n d. tt;
  are_run = λ n d. refl;
}

empty_db-WellFormed : WellFormed exact empty_db
empty_db-WellFormed = record { distinct = tt; numbered = tt; consistent = tt }

held_db-WellFormed : WellFormed exact held_db
held_db-WellFormed = record {
  distinct = (tt, tt);
  numbered = (omega arith, tt);
  consistent = ((refl, refl, refl, refl), tt);
}

held_row-HeldRow : HeldRow exact step_key 1 (codes "a") 190 held_row
unfolding text_eq
held_row-HeldRow = record {
  keyed = refl;
  identified = refl;
  in_progress = refl;
  leased = refl;
  expires = refl;
}

held_db-Held : Held exact step_key 1 (codes "a") 190 held_db
held_db-Held = record {
  exists = inl held_row-HeldRow;
  sole = (λ claims. held_row-HeldRow, tt);
  taken = omega arith;
}

done_row-RecordedRow : RecordedRow exact step_key 1 completed (codes "{}") (codes "h") refl done_row
unfolding text_eq
done_row-RecordedRow = record {
  keyed = refl;
  identified = refl;
  finished = refl;
  stored = refl;
  hashed = refl;
  tried = omega arith;
  countable = omega arith;
}

done_db-Recorded : Recorded exact step_key 1 completed (codes "{}") (codes "h") refl done_db
done_db-Recorded = record {
  exists = inl done_row-RecordedRow;
  sole = (λ claims. done_row-RecordedRow, tt);
  taken = omega arith;
}

reserve_empty :
    (reserve exact parse_json reservation_input (codes "a") (quiet 100) (begin empty_db)).0
    ≡ ok (reserved 1 (codes "a"))
unfolding reserve reserve_loop reserve_attempt reserve_inserted statement insert_ignore
    normalize_insert_id
reserve_empty = refl

reserve-Held_example :
    let d =
      (reserve exact parse_json reservation_input (codes "a") (quiet 100) (begin empty_db)).1.db in
    WellFormed exact d
    × (codes "a" ≡ codes "a")
    × Held exact step_key 1 (codes "a") (d.time + pending_reservation_ttl_seconds) d
reserve-Held_example =
    reserve-Held exact parse_json reservation_input (codes "a") (quiet 100) (alone (λ t. Unit))
      (begin empty_db) 1 (codes "a") empty_db-WellFormed reserve_empty

-- Another client comes while the lease runs, and finds the step pending.
reserve_held-time :
    (reserve exact parse_json reservation_input (codes "b") (quiet 100) (begin held_db)).1.db.time
    < 190
unfolding reserve reserve_loop reserve_attempt reserve_inserted statement insert_ignore text_eq
    find_row reserve_found reserve_by_status reserve_pending pending_outcome read_row_id
    read_attempt_count is_expired_pending_reservation reclaim
reserve_held-time = omega arith

other_token : text_eq (codes "a") (codes "b") ≡ false
unfolding text_eq
other_token = refl

reserve_excluded_example :
    Held exact step_key 1
      (codes "a")
      190
      (reserve exact parse_json reservation_input (codes "b") (quiet 100) (begin held_db)).1.db
    × ((i : ℕ) (t : Text)
        → (reserve exact parse_json reservation_input (codes "b") (quiet 100) (begin held_db)).0
          ≢ ok (reserved i t))
reserve_excluded_example =
    reserve_excluded exact step_key 1 (codes "a") 190 parse_json reservation_input (codes "b")
      (quiet 100) (alone (λ t. text_eq (codes "a") t ≡ false)) other_token (held_row-HeldRow.keyed)
      (begin held_db) held_db-Held reserve_held-time

reserve-replayed_example :
    (u : ℕ) × ((reserve exact parse_json reservation_input
        (codes "b")
        (quiet 100)
        (begin done_db)).0
      ≡ ok (replayed completed 1 u (codes "{}")))
reserve-replayed_example =
    reserve-replayed exact parse_json reservation_input (codes "b") (quiet 100) (alone (λ t. Unit))
      (λ n. refl) 1 completed (codes "{}") (codes "{}") refl (omega arith) (omega arith) refl
      (begin done_db) done_db-Recorded

finalize_reservation-Recorded_example :
    let (r, s) =
      finalize_reservation exact completed
        (finalize_input (codes "a"))
        (quiet 100)
        (begin held_db) in
    (r ≡ ok tt) × Recorded exact step_key 1 completed (codes "{}") (codes "h") refl s.db
finalize_reservation-Recorded_example =
    finalize_reservation-Recorded exact completed (finalize_input (codes "a")) (quiet 100)
      (begin held_db) 1 190 (codes "h") refl held_db-WellFormed held_db-Held
      (λ named. (refl, omega arith, omega arith), tt) refl

finalize_held-time :
    (finalize_reservation exact completed
      (finalize_input (codes "b"))
      (quiet 100)
      (begin held_db)).1.db.time
    < 190
unfolding finalize_reservation settle statement finalize text_eq load_row find_row settle_unmatched
finalize_held-time = omega arith

finalize_refused_example :
    let (r, s) =
      finalize_reservation exact completed
        (finalize_input (codes "b"))
        (quiet 100)
        (begin held_db) in
    Held exact step_key 1 (codes "a") 190 s.db
    × ((r ≡ raise (transient_error idempotency_lease_lost))
        ⊎ ((n : ℕ) × (e : Failure) × ((quiet {S = Db} 100).fault n ≡ some e) × (r ≡ raise e)))
finalize_refused_example =
    finalize_refused exact completed (finalize_input (codes "b")) (quiet 100) 1 (codes "a") 190
      (alone (λ t. text_eq (codes "a") t ≡ false)) other_token (begin held_db) refl held_db-Held
      finalize_held-time

-- The lease runs out, another client asks for the step, and the record is cancelled.
abbrev later : List Operation
later =
    tick 90
    ∷ insert_operation step_key (codes "w") (codes "r") (codes "h") (codes "b")
    ∷ cancel_operation step_key (codes "a")
    ∷ []

run-WellFormed_example : WellFormed exact (run exact later held_db)
run-WellFormed_example = run-WellFormed exact later held_db (tt, (tt, (tt, tt))) held_db-WellFormed

Recorded-run_example :
    Recorded exact step_key 1 completed (codes "{}") (codes "h") refl (run exact later done_db)
Recorded-run_example =
    Recorded-run exact step_key 1 completed (codes "{}") (codes "h") refl later done_db
      done_db-Recorded
