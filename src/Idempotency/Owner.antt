-- ===== src/Idempotency/Owner.antt =====
-- What a successful call of `reserve` gives its caller: the record, pending and leased to its token
-- for 90 seconds of the database's clock.
use automation_server_net.Base.{
  ℕ, ◌+◌, ◌<◌, ◌≡◌, refl, true, Option, some, inl, inr, arith, All-map, Any, Any-append_right,
  Bool-cases, any,
}
use automation_server_net.Js.Text.{Text}
use automation_server_net.Integration.{ok}
use automation_server_net.Session.{Environment, Session}
use automation_server_net.Idempotency.Table.{
  StepKey, Row, Db, Collation, insert_ignore, find_row, reclaim, same_key, is_reclaimable,
  update_row, reclaimed, pending_reservation_ttl_seconds,
}
use automation_server_net.Idempotency.Rows.{
  Any-update_rows, find_row_lem, find_row-Any, same_key_refl,
}
use automation_server_net.Idempotency.Repository.{
  ReservationInput, Reservation, reserved, still_pending, was_completed, was_failed, reserve,
}
use automation_server_net.Idempotency.Rounds.{ReserveRule, reserve_rule}
use automation_server_net.Idempotency.Interleaving.{
  Interferes, reclaim-apply, insert_ignore-apply, insert_operation, reclaim_operation,
}
use automation_server_net.Idempotency.Exclusive.{Held, HeldRow}
use automation_server_net.Idempotency.Names.{sole_of_Distinct, Any-of_affected, Names, Names-run}
use automation_server_net.Idempotency.WellFormed.{WellFormed, apply-WellFormed, run-WellFormed}

module _ (col : Collation) (k : StepKey) (id : ℕ) where
  -- A well-formed table with a row that is held has it held.
  Held-of_row :
      (token : Text) (expiry : ℕ) (d : Db)
      → WellFormed col d
      → id < d.next_id
      → Any (HeldRow col k id token expiry) d.rows
      → Held col k id token expiry d
  Held-of_row token expiry d v below a = record {
    exists = a;
    sole =
        sole_of_Distinct col k id (HeldRow col k id token expiry) d.rows
          (λ r h. (h.keyed, h.identified)) v.distinct a;
    taken = below;
  }

module _ (col : Collation) {Json T : Type 0} (parse_json : Text → Option Json)
    (input : ReservationInput Json T) (token : Text) (env : Environment Db)
    (clients : Interferes col (λ t. Unit) env) where
  open input use {key, workflow_id, request_id, payload_hash}

  -- what a reservation promises at the end of the call
  abbrev Owned : Reservation T → Db → Type 0
  Owned (reserved i t) d =
      (t ≡ token) × Held col key i token (d.time + pending_reservation_ttl_seconds) d
  Owned (still_pending i u) d = Unit
  Owned (was_completed i u x) d = Unit
  Owned (was_failed i u x) d = Unit

  before-WellFormed : (n : ℕ) (d : Db) → WellFormed col d → WellFormed col (env.before n d)
  before-WellFormed n d v =
      rw (clients.are_run n d)
        (run-WellFormed col (clients.operations n d) d (clients.are_sound n d) v)

  before-Names :
      (n : ℕ) (d : Db) (row : Row)
      → WellFormed col d
      → Names col key row.id d
      → Names col key row.id (env.before n d)
  before-Names n d row v h =
      rw (clients.are_run n d) (Names-run col key row.id (clients.operations n d) d h)

  insert-WellFormed :
      (d : Db)
      → WellFormed col d
      → WellFormed col (insert_ignore col key workflow_id request_id payload_hash token d).1
  insert-WellFormed d v =
      rw (insert_ignore-apply col key workflow_id request_id payload_hash token d) (
        apply-WellFormed col (insert_operation key workflow_id request_id payload_hash token) d tt
          v)

  reclaim-WellFormed :
      (i : ℕ) (d : Db)
      → WellFormed col d
      → WellFormed col (reclaim i workflow_id request_id payload_hash token d).1
  reclaim-WellFormed i d v =
      rw (reclaim-apply col i workflow_id request_id payload_hash token d) (
        apply-WellFormed col (reclaim_operation i workflow_id request_id payload_hash token) d tt v)

  insert-Owned :
      (d : Db)
      → WellFormed col d
      → (insert_ignore col key workflow_id request_id payload_hash token d).0.0 ≡ 1
      → Owned
          (reserved (insert_ignore col key workflow_id request_id payload_hash token d).0.1 token)
          (insert_ignore col key workflow_id request_id payload_hash token d).1
  unfolding insert_ignore
  insert-Owned d v one = elim (Bool-cases (any (λ r. same_key col r.key key) d.rows)) [
    | inl e ↦ absurd (ground (arith, e, one))
    | inr e ↦ rw e (
      refl,
      Held-of_row col key d.next_id token (d.time + pending_reservation_ttl_seconds) _
          (rw e at (insert-WellFormed d v)) (omega arith)
          (Any-append_right
            (HeldRow col key d.next_id token (d.time + pending_reservation_ttl_seconds)) d.rows _
            (inl (record {
              keyed = same_key_refl col key;
              identified = refl;
              in_progress = refl;
              leased = refl;
              expires = refl;
            }))),
    )
  ]

  reclaim-HeldRow :
      (i time : ℕ) (r : Row)
      → (is_reclaimable i time r ≡ true) × (r.id ≡ i → same_key col r.key key ≡ true)
      → HeldRow col key i token (time + pending_reservation_ttl_seconds) (
          update_row
            (is_reclaimable i time)
            (reclaimed workflow_id request_id payload_hash token time)
            r)
  reclaim-HeldRow i time r (p, named) =
      let same : r.id ≡ i = ground (arith, p) in
      rw p (record {
        keyed = named same;
        identified = same;
        in_progress = ground (arith, p);
        leased = refl;
        expires = refl;
      })

  reclaim-Owned :
      (row : Row) (d : Db)
      → WellFormed col d
      → Names col key row.id d
      → (reclaim row.id workflow_id request_id payload_hash token d).0 ≡ 1
      → Owned (reserved row.id token) (reclaim row.id workflow_id request_id payload_hash token d).1
  unfolding reclaim
  reclaim-Owned row d v names one = (
    refl,
    Held-of_row col key row.id token (d.time + pending_reservation_ttl_seconds) _
        (reclaim-WellFormed row.id d v) names.taken
        (Any-update_rows _ (HeldRow col key row.id token (d.time + pending_reservation_ttl_seconds))
          (is_reclaimable row.id d.time)
          (reclaimed workflow_id request_id payload_hash token d.time) d.rows
          (reclaim-HeldRow row.id d.time)
          (Any-of_affected col key row.id (is_reclaimable row.id d.time) _ d.rows names.keyed one)),
  )

  find-Names :
      (d : Db) (row : Row)
      → WellFormed col d
      → find_row col key d.rows ≡ some row
      → Names col key row.id d
  find-Names d row v e = record {
    keyed =
        All-map _ (λ r. r.id ≡ row.id → same_key col r.key key ≡ true) d.rows
          (λ r sole same. (sole (inr same)).0)
          (sole_of_Distinct col key row.id (λ r. (same_key col r.key key ≡ true) × (r.id ≡ row.id))
            d.rows (λ r h. h) v.distinct (find_row-Any col key d.rows e));
    taken = (find_row_lem col (λ r. r.id < d.next_id) key d.rows e v.numbered).0;
  }

  owner_rule : ReserveRule col parse_json input token env
  owner_rule = record {
    Inv = WellFormed col;
    Known = λ row d. Names col key row.id d;
    Good = Owned;
    before_inv = before-WellFormed;
    before_known = before-Names;
    insert_inv = insert-WellFormed;
    reclaim_inv = reclaim-WellFormed;
    find_known = find-Names;
    good_inserted = insert-Owned;
    good_reclaimed = reclaim-Owned;
    good_pending = λ row d v n hash status. tt;
    good_completed = λ row d x v n hash status stored. tt;
    good_failed = λ row d x v n hash status stored. tt;
  }

  reserve-Owned :
      (s : Session Db)
      → WellFormed col s.db
      → let (r, s') = reserve col parse_json input token env s in
        WellFormed col s'.db × ((x : Reservation T) → r ≡ ok x → Owned x s'.db)
  unfolding owner_rule
  reserve-Owned s v = reserve_rule col parse_json input token env owner_rule s v

  -- Whatever other clients do between its queries, a call of `reserve` on a well-formed table that
  -- reports a reservation does so with the caller's own token, and the table is then well formed and
  -- its record of the step pending, leased to that token until 90 seconds later by the database's
  -- clock, with no second record of the key.
  pub reserve-Held :
      (s : Session Db) (i : ℕ) (t : Text)
      → WellFormed col s.db
      → (reserve col parse_json input token env s).0 ≡ ok (reserved i t)
      → let d = (reserve col parse_json input token env s).1.db in
        WellFormed col d
        × (t ≡ token)
        × Held col key i token (d.time + pending_reservation_ttl_seconds) d
  reserve-Held s i t v e =
      let (formed, good) = reserve-Owned s v in
      let (own, held) = good (reserved i t) e in (formed, own, held)
