-- ===== src/Dispatch/Lock/Held.antt =====
-- A lock that an attempt acquires is its lease of the step that stands for the attempt.
use automation_server_net.Base.{ℕ, ◌+◌, ◌≡◌, refl, subst, Option}
use automation_server_net.Js.Text.{Text}
use automation_server_net.Integration.{Result, ok, raise, attempt_lock_failed}
use automation_server_net.Session.{Environment, Session, resume, caught, pure, bind_lift}
use automation_server_net.Idempotency.Table.{Db, Collation, pending_reservation_ttl_seconds}
use automation_server_net.Idempotency.Repository.{
  ReservationInput, Reservation, reserved, still_pending, was_completed, was_failed, reserve,
}
use automation_server_net.Idempotency.Interleaving.{Interferes}
use automation_server_net.Idempotency.WellFormed.{WellFormed}
use automation_server_net.Idempotency.Exclusive.{Held}
use automation_server_net.Idempotency.Owner.{reserve-Held}
use automation_server_net.Nfe.Activities.{activity_failure}
use automation_server_net.Dispatch.Mail.{LockResult, acquired, lock_pending, already_processed}
use automation_server_net.Dispatch.Lock.{
  Json, StoredResult, Attempt, read_attempt, read_required_text, build_attempt_lock_idempotency_key,
  AcquireInput, lock_key, lock_result,
}
use automation_server_net.Dispatch.Lock.Queries.{
  lock_reservation, reserve_lock, acquire_checked, acquire_attempt_lock,
}

module _ (col : Collation) (parse_json : Text → Option Json) (payload_hash : Attempt → Text)
    (token : Text) (env : Environment Db) (clients : Interferes col (λ t. Unit) env)
    (input : AcquireInput) where
  -- the lease that a call that acquires has, at its end
  pub record Leased (a : Attempt) (key t : Text) (d : Db) : Type 0 where
    pub own : t ≡ token
    pub formed : WellFormed col d
    pub read : read_attempt input.sale_id input.attempt_number input.runtime_scope ≡ ok a
    pub built : build_attempt_lock_idempotency_key a.sale_id a.attempt_number a.scope ≡ ok key
    pub record_id : ℕ
    pub held : Held col (lock_key key) record_id token (d.time + pending_reservation_ttl_seconds) d

  abbrev Leases : Result LockResult × Session Db → Type 0
  Leases (ok (acquired t), s) = (a : Attempt) × (key : Text) × Leased a key t s.db
  Leases (ok lock_pending, s) = Unit {0}
  Leases (ok (already_processed x), s) = Unit {0}
  Leases (raise e, s) = Unit {0}

  reserved-Leases :
      (request_id workflow_id key : Text) (a : Attempt) (s : Session Db)
      → WellFormed col s.db
      → read_attempt input.sale_id input.attempt_number input.runtime_scope ≡ ok a
      → build_attempt_lock_idempotency_key a.sale_id a.attempt_number a.scope ≡ ok key
      → Leases (
          caught
            (activity_failure attempt_lock_failed)
            (reserve_lock col parse_json payload_hash token request_id workflow_id a key env s))
  reserved-Leases request_id workflow_id key a s v read built =
      go (reserve col parse_json reservation token env s).0
        (reserve col parse_json reservation token env s).1
        (reserve-Held col parse_json reservation token env clients s)
    where
      reservation : ReservationInput Json StoredResult
      reservation = lock_reservation col parse_json payload_hash token request_id workflow_id a key

      go :
          (r : Result (Reservation StoredResult)) (s' : Session Db)
          → ((i : ℕ) (t : Text)
              → WellFormed col s.db
              → r ≡ ok (reserved i t)
              → WellFormed col s'.db
                × (t ≡ token)
                × Held col
                    (lock_key key)
                    i
                    token
                    (s'.db.time + pending_reservation_ttl_seconds)
                    s'.db)
          → Leases (
              caught
                (activity_failure attempt_lock_failed)
                (resume (r, s') (λ x. pure (lock_result x)) env))
      go (ok (reserved i t)) s' good =
          let (formed, own, held) = good i t v refl in
          (
            a,
            key,
            record {
              own = own;
              formed = formed;
              read = read;
              built = built;
              record_id = i;
              held = held;
            },
          )
      go (ok (still_pending i u)) s' good = tt
      go (ok (was_completed i u x)) s' good = tt
      go (ok (was_failed i u x)) s' good = tt
      go (raise e) s' good = tt

  checked-Leases :
      (request_id workflow_id : Text) (a : Attempt) (s : Session Db)
      → WellFormed col s.db
      → read_attempt input.sale_id input.attempt_number input.runtime_scope ≡ ok a
      → Leases (acquire_checked col parse_json payload_hash token request_id workflow_id a env s)
  unfolding acquire_checked
  checked-Leases request_id workflow_id a s v read =
      bind_lift (λ r. Leases (caught (activity_failure attempt_lock_failed) r)) env s
        (build_attempt_lock_idempotency_key a.sale_id a.attempt_number a.scope) _ (λ e failed. tt)
        (λ key built. reserved-Leases request_id workflow_id key a s v read built)

  acquire-Leases :
      (s : Session Db)
      → WellFormed col s.db
      → Leases (acquire_attempt_lock col parse_json payload_hash token input env s)
  unfolding acquire_attempt_lock
  acquire-Leases s v =
      bind_lift Leases env s (read_required_text input.request_id) _ (λ e failed. tt)
        (λ request_id given.
          bind_lift Leases env s (read_required_text input.workflow_id) _ (λ e failed. tt)
            (λ workflow_id named.
              bind_lift Leases env s
                (read_attempt input.sale_id input.attempt_number input.runtime_scope) _
                (λ e failed. tt) (λ a read. checked-Leases request_id workflow_id a s v read)))

  -- Whatever other clients do between its queries, a call of the activity on a well-formed table that
  -- reports an acquired lock does so with its own token, and the step of the attempt is then held
  -- under that token as its only record, for 90 seconds by the database's clock.
  pub acquire_attempt_lock-Leased :
      (s : Session Db) (t : Text)
      → WellFormed col s.db
      → (acquire_attempt_lock col parse_json payload_hash token input env s).0 ≡ ok (acquired t)
      → (a : Attempt) × (key : Text) × Leased a key t
          (acquire_attempt_lock col parse_json payload_hash token input env s).1.db
  acquire_attempt_lock-Leased s t v e =
      subst
        (λ r. Leases (r, (acquire_attempt_lock col parse_json payload_hash token input env s).1)) e
        (acquire-Leases s v)
