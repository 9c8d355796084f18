-- ===== src/Smtp/Once.antt =====
-- When the activity hands a message to the server, and when it does not.
use automation_server_net.Base.{
  ℕ, ◌+◌, ◌≤◌, ◌<◌, ◌≡◌, ◌≢◌, refl, true, false, none, List, [], ◌∷◌, arith,
}
use automation_server_net.Js.Number.{max_safe_integer}
use automation_server_net.Js.Text.{Text}
use automation_server_net.Integration.{Result, ok, raise}
use automation_server_net.Session.{Environment, Session}
use automation_server_net.Idempotency.Table.{
  Status, pending, completed, failed, is_pending, Db, Collation, same_key,
  pending_reservation_ttl_seconds,
}
use automation_server_net.Idempotency.Repository.{
  Reservation, reserved, still_pending, was_completed, was_failed, parse_stored, reserve,
}
use automation_server_net.Idempotency.Interleaving.{Interferes}
use automation_server_net.Idempotency.WellFormed.{WellFormed}
use automation_server_net.Idempotency.Exclusive.{Held, Other}
use automation_server_net.Idempotency.Owner.{reserve-Held}
use automation_server_net.Idempotency.Contention.{reserve_excluded}
use automation_server_net.Idempotency.Recorded.{Recorded}
use automation_server_net.Idempotency.Replay.{reserve-replayed, replayed}
use automation_server_net.Smtp.{Message, SendInput, SendResult}
use automation_server_net.Smtp.Send.{
  Tools, send_key, send_reservation, by_reservation, send_checked,
}

module _ (col : Collation) {Attachment Json : Type 0} (tools : Tools Attachment Json) (token : Text)
    (input : SendInput Attachment) (key : Text) (env : Environment Db) where
  abbrev sent_by : Result (Reservation SendResult) × Session Db → List (Message Attachment)
  sent_by r = (by_reservation col tools token input key env r).0

  sent_only_reserved :
      (r : Result (Reservation SendResult)) (s : Session Db) (m : Message Attachment)
      (rest : List (Message Attachment))
      → sent_by (r, s) ≡ m ∷ rest
      → (i : ℕ) × (t : Text) × (r ≡ ok (reserved i t))
  sent_only_reserved (ok (reserved i t)) s m rest e = (i, t, refl)
  sent_only_reserved (ok (still_pending i u)) s m rest e = absurd (cc (e))
  sent_only_reserved (ok (was_completed i u x)) s m rest e = absurd (cc (e))
  sent_only_reserved (ok (was_failed i u x)) s m rest e = absurd (cc (e))
  sent_only_reserved (raise x) s m rest e = absurd (cc (e))

  unreserved_sends_nothing :
      (r : Result (Reservation SendResult)) (s : Session Db)
      → ((i : ℕ) (t : Text) → r ≢ ok (reserved i t))
      → sent_by (r, s) ≡ []
  unreserved_sends_nothing (ok (reserved i t)) s h = absurd (h i t refl)
  unreserved_sends_nothing (ok (still_pending i u)) s h = refl
  unreserved_sends_nothing (ok (was_completed i u x)) s h = refl
  unreserved_sends_nothing (ok (was_failed i u x)) s h = refl
  unreserved_sends_nothing (raise x) s h = refl

  replay_sends_nothing :
      (status : Status) (r : Result (Reservation SendResult)) (s : Session Db) (i u : ℕ)
      (x : SendResult)
      → is_pending status ≡ false
      → r ≡ ok (replayed status i u x)
      → (sent_by (r, s) ≡ []) × ((by_reservation col tools token input key env (r, s)).1.0 ≡ ok x)
  replay_sends_nothing pending r s i u x final e = absurd (ground (arith, final))
  replay_sends_nothing completed r s i u x final e = rw e (refl, refl)
  replay_sends_nothing failed r s i u x final e = rw e (refl, refl)

  -- Whatever other clients do between its queries, the activity on a well-formed table hands a message to
  -- the server only while the step of its key is held under its own token, as its only record, for
  -- 90 seconds by the database's clock from the end of the reservation.
  pub send_checked-Held :
      (clients : Interferes col (λ t. Unit) env) (s : Session Db) (m : Message Attachment)
      (rest : List (Message Attachment))
      → WellFormed col s.db
      → (send_checked col tools token input key env s).0 ≡ m ∷ rest
      → let d =
          (reserve col tools.parse_json
            (send_reservation col tools token input key)
            token
            env
            s).1.db in
        (i : ℕ) × Held col
          (send_key col tools token input key)
          i
          token
          (d.time + pending_reservation_ttl_seconds)
          d
  unfolding send_checked
  send_checked-Held clients s m rest v e =
      let (i, t, got) = sent_only_reserved _ _ m rest e in
      let (formed, own, held) =
        reserve-Held col tools.parse_json (send_reservation col tools token input key) token env
          clients s i t v got in
      (i, held)

  -- While another client holds the step of the key and its lease has not expired when the reservation
  -- ends, the activity hands no message to the server, whatever other clients do.
  pub send_checked_excluded :
      (id : ℕ) (owner : Text) (expiry : ℕ)
      (others : Interferes col (Other col (send_key col tools token input key) id owner expiry) env)
      (s : Session Db)
      → Other col (send_key col tools token input key) id owner expiry token
      → same_key col (send_key col tools token input key) (send_key col tools token input key)
        ≡ true
      → Held col (send_key col tools token input key) id owner expiry s.db
      → (reserve col tools.parse_json
          (send_reservation col tools token input key)
          token
          env
          s).1.db.time
        < expiry
      → (send_checked col tools token input key env s).0 ≡ []
  unfolding send_checked
  send_checked_excluded id owner expiry others s other same held early =
      unreserved_sends_nothing _ _
        (reserve_excluded col (send_key col tools token input key) id owner expiry tools.parse_json
          (send_reservation col tools token input key) token env others other same s held early).1

  -- Once the step of the key is recorded as completed or failed with a readable result for the same message,
  -- the activity hands no message to the server and answers that result, whatever other clients do,
  -- if no query fails.
  pub send_checked-replayed :
      (clients : Interferes col (λ t. Unit) env) (id : ℕ) (status : Status) (json : Text)
      (x : SendResult) (final : is_pending status ≡ false) (s : Session Db)
      → ((n : ℕ) → env.fault n ≡ none)
      → 0 < id
      → id ≤ max_safe_integer
      → parse_stored tools.parse_json tools.parse_result json ≡ ok x
      → Recorded col
          (send_key col tools token input key)
          id
          status
          json
          (tools.payload_hash input.message)
          final
          s.db
      → ((send_checked col tools token input key env s).0 ≡ [])
        × ((send_checked col tools token input key env s).1.0 ≡ ok x)
  unfolding send_checked
  send_checked-replayed clients id status json x final s faultless numbered countable readable
        kept =
      let (u, got) =
        reserve-replayed col tools.parse_json (send_reservation col tools token input key) token env
          clients faultless id status json x final numbered countable readable s kept in
      replay_sends_nothing status _ _ id u x final got
