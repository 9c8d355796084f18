-- ===== src/Idempotency/Replay.antt =====
-- The caller's result is recorded once, and every later call of `reserve` is given it back.
use automation_server_net.Base.{
  ℕ, ◌+◌, ◌≤◌, ◌<◌, ◌≡◌, true, false, Option, none, some, inl, arith, any_of_Any,
}
use automation_server_net.Js.Number.{max_safe_integer}
use automation_server_net.Js.Text.{Text, text_eq, text_eq_refl}
use automation_server_net.Integration.{Result, ok}
use automation_server_net.Session.{Environment, Session, resume, pure, bind_statement}
use automation_server_net.Idempotency.Table.{
  Status, pending, completed, failed, is_pending, Row, Db, Collation, insert_ignore, find_row,
  same_key,
}
use automation_server_net.Idempotency.Rows.{find_row_lem, find_row-some}
use automation_server_net.Idempotency.Columns.{
  read_row_id-column, read_attempt_count-column, read_stored_result-some,
}
use automation_server_net.Idempotency.Repository.{
  ReservationInput, Reservation, was_completed, was_failed, still_pending, parse_stored,
  reserve_finished, reserve_by_status, reserve_found, reserve_inserted, reserve_attempt,
  reserve_loop, reserve,
}
use automation_server_net.Idempotency.Interleaving.{Interferes}
use automation_server_net.Idempotency.Recorded.{RecordedRow, Recorded, Recorded-run, IsSole}

-- the outcome that stands for a status
abbrev pub replayed : {T : Type 0} → Status → ℕ → ℕ → T → Reservation T
replayed pending i u x = still_pending i u
replayed completed i u x = was_completed i u x
replayed failed i u x = was_failed i u x

module _ (col : Collation) {Json T : Type 0} (parse_json : Text → Option Json)
    (input : ReservationInput Json T) (token : Text) (env : Environment Db)
    (clients : Interferes col (λ t. Unit) env) (faultless : (n : ℕ) → env.fault n ≡ none) (id : ℕ)
    (status : Status) (json : Text) (x : T) (final : is_pending status ≡ false) (numbered : 0 < id)
    (countable : id ≤ max_safe_integer)
    (readable : parse_stored parse_json input.parse_result json ≡ ok x) where
  open input use {key, workflow_id, request_id, payload_hash, parse_result}

  abbrev Kept : Db → Type 0
  Kept = Recorded col key id status json payload_hash final

  abbrev KeptRow : Row → Type 0
  KeptRow = RecordedRow col key id status json payload_hash final

  before-Kept : (n : ℕ) (d : Db) → Kept d → Kept (env.before n d)
  before-Kept n d kept =
      rw (clients.are_run n d)
        (Recorded-run col key id status json payload_hash final (clients.operations n d) d kept)

  abbrev Replays : Result (Option (Reservation T)) × Session Db → Type 0
  Replays (r, s) = (u : ℕ) × (r ≡ ok (some (replayed status id u x)))

  insert-Kept :
      (d : Db)
      → Kept d
      → insert_ignore col key workflow_id request_id payload_hash token d ≡ ((0, 0), d)
  unfolding insert_ignore
  insert-Kept d kept =
      rw (any_of_Any KeptRow (λ r. same_key col r.key key) d.rows (λ r h. h.keyed) kept.exists)

  find-Kept : (d : Db) → Kept d → (row : Row) × (find_row col key d.rows ≡ some row) × KeptRow row
  find-Kept d kept =
      let (row, found) =
        find_row-some col key d.rows
          (any_of_Any KeptRow (λ r. same_key col r.key key) d.rows (λ r h. h.keyed) kept.exists) in
      let (sole, keyed) =
        find_row_lem col (IsSole col key id status json payload_hash final) key d.rows found
          kept.sole in
      (row, found, sole (inl keyed))

  finished-Replays :
      (row : Row) (s : Session Db)
      → KeptRow row
      → (make : ℕ → ℕ → T → Reservation T) → ((u : ℕ) → make id u x ≡ replayed status id u x)
      → Replays (reserve_finished col parse_json input token make row env s)
  unfolding reserve_finished
  finished-Replays row s kept make same =
      rw
        (
          read_row_id-column row.id (omega arith) (omega arith),
          read_attempt_count-column row.attempt_count kept.tried kept.countable,
          read_stored_result-some parse_json parse_result row json kept.stored,
          readable,
        )
        (row.updated_at, rw (kept.identified, same row.updated_at))

  by_status-Replays :
      (st : Status) (row : Row) (s : Session Db)
      → st ≡ status
      → KeptRow row
      → Replays (reserve_by_status col parse_json input token st row env s)
  unfolding reserve_by_status
  by_status-Replays pending row s e kept = absurd (ground (arith, e, final))
  by_status-Replays completed row s e kept =
      finished-Replays row s kept was_completed (λ u. rw (← e))
  by_status-Replays failed row s e kept = finished-Replays row s kept was_failed (λ u. rw (← e))

  found-Replays :
      (row : Row) (s : Session Db)
      → KeptRow row
      → Replays (reserve_found col parse_json input token (some row) env s)
  unfolding reserve_found
  found-Replays row s kept =
      let same : text_eq row.payload_hash payload_hash ≡ true =
        rw kept.hashed (text_eq_refl payload_hash) in
      rw same (by_status-Replays row.execution_status row s kept.finished kept)

  attempt-Replays :
      (s : Session Db) → Kept s.db → Replays (reserve_attempt col parse_json input token env s)
  unfolding reserve_attempt reserve_inserted
  attempt-Replays s kept =
      bind_statement Replays env s (insert_ignore col key workflow_id request_id payload_hash token)
        _ (λ e fault. cc (fault, faultless s.queries))
        (rw (insert-Kept d kept') (
          bind_statement Replays env (record { db = d; queries = s.queries + 1 })
            (λ d'. (find_row col key d'.rows, d')) _
            (λ e fault. cc (fault, faultless (s.queries + 1)))
            (let (row, found, kept_row) = find-Kept d2 kept2 in
              rw found (found-Replays row _ kept_row))))
    where
      d : Db
      d = env.before s.queries s.db

      kept' : Kept d
      kept' = before-Kept s.queries s.db kept

      d2 : Db
      d2 = env.before (s.queries + 1) d

      kept2 : Kept d2
      kept2 = before-Kept (s.queries + 1) d kept'

  -- Once a step is recorded as completed or failed with a result that reads back as `x`, every call
  -- of `reserve` for its key with the same payload hash returns `x` with that status, and never
  -- raises, whatever other clients do meanwhile, if no query fails.
  pub reserve-replayed :
      (s : Session Db)
      → Kept s.db
      → (u : ℕ) × ((reserve col parse_json input token env s).0 ≡ ok (replayed status id u x))
  unfolding reserve reserve_loop
  reserve-replayed s kept =
      go (reserve_attempt col parse_json input token env s) (attempt-Replays s kept)
    where
      go :
          (r : Result (Option (Reservation T)) × Session Db)
          → Replays r
          → (u : ℕ) × ((resume r
                (λ o. elim o [ some y ↦ pure y | none ↦ reserve_loop col parse_json input token 2 ])
                env).0
              ≡ ok (replayed status id u x))
      go (r, s') (u, e) = (u, rw e)
