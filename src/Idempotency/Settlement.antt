-- ===== src/Idempotency/Settlement.antt =====
-- Completing, failing and cancelling a reservation, by its holder and by anybody else.
use automation_server_net.Base.{
  ℕ, ◌≤◌, ◌<◌, ◌≡◌, ◌⊎◌, refl, true, false, none, List, [], ◌∷◌, inl, inr, arith, any_of_Any, All,
  any, Bool-cases, All-map, Any-with_All, All-with_All,
}
use automation_server_net.Js.Number.{max_safe_integer}
use automation_server_net.Js.Text.{Text}
use automation_server_net.Integration.{Result, ok}
use automation_server_net.Session.{Environment, Session, bind_statement}
use automation_server_net.Idempotency.Table.{
  Status, is_pending, StepKey, Row, Db, Collation, same_key, finalize, finalized, affected_rows,
  update_row, is_leased,
}
use automation_server_net.Idempotency.Rows.{
  affected_rows_zero, Any-update_rows, All-update_rows, same_key_trans, same_key_sym,
}
use automation_server_net.Idempotency.Repository.{FinalizeInput, finalize_reservation, settle}
use automation_server_net.Idempotency.Exclusive.{Held, HeldRow}
use automation_server_net.Idempotency.WellFormed.{WellFormed, Distinct, Apart}
use automation_server_net.Idempotency.Recorded.{RecordedRow, Recorded, IsSole}

module _ (col : Collation) (k : StepKey) (token : Text) where
  -- A statement that names the key affects at most one row of a well-formed table.
  affected_rows_one :
      (rs : List Row)
      → Distinct col rs
      → any (is_leased col k token) rs ≡ true
      → affected_rows (is_leased col k token) rs ≡ 1
  affected_rows_one [] h e = absurd (ground (arith, e))
  affected_rows_one (r ∷ rs) h e = elim (Bool-cases (is_leased col k token r)) [
    | inl p ↦ rw (
      p,
      affected_rows_zero (is_leased col k token) rs
          (All-map (Apart col r) (λ s. is_leased col k token s ≡ false) rs (go p) h.0),
    )
    | inr p ↦ rw p (affected_rows_one rs h.1 (ground (arith, p, e)))
  ]
    where
      go :
          is_leased col k token r ≡ true
          → (s : Row) → Apart col r s
          → is_leased col k token s ≡ false
      go p s apart = elim (Bool-cases (same_key col s.key k)) [
        | inr e ↦ rw e
        | inl e ↦ cc (
          apart.0,
          same_key_trans col s.key k r.key e (same_key_sym col r.key k (ground (arith, p))),
        )
      ]

  HeldRow-is_leased :
      (id expiry : ℕ) (r : Row) → HeldRow col k id token expiry r → is_leased col k token r ≡ true
  HeldRow-is_leased id expiry r h = ground (arith, h, col.same_refl token)

module _ (col : Collation) (status : Status) (input : FinalizeInput) (env : Environment Db)
    (s : Session Db) where
  open input use {key, lease_token, result_json, external_reference}

  -- the table when the statement is executed
  abbrev meeting : Db
  meeting = env.before s.queries s.db

  module _ (id expiry : ℕ) (hash : Text) (final : is_pending status ≡ false) where
    -- what the row says besides the lease
    abbrev pub IsDescribed : Row → Type 0
    IsDescribed r =
        r.id ≡ id
        → (r.payload_hash ≡ hash) × (0 < r.attempt_count) × (r.attempt_count ≤ max_safe_integer)

    RecordedRow-finalized :
        (r : Row)
        → HeldRow col key id lease_token expiry r
        → IsDescribed r
        → RecordedRow col key id status result_json hash final (
            update_row
              (is_leased col key lease_token)
              (finalized status external_reference result_json meeting.time)
              r)
    RecordedRow-finalized r h described =
        let (hashed, tried, countable) = described h.identified in
        rw (HeldRow-is_leased col key lease_token id expiry r h) (record {
          keyed = h.keyed;
          identified = h.identified;
          finished = refl;
          stored = refl;
          hashed = hashed;
          tried = tried;
          countable = countable;
        })

    IsSole-finalized :
        (r : Row)
        → ((same_key col r.key key ≡ true) ⊎ (r.id ≡ id) → HeldRow col key id lease_token expiry r)
          × IsDescribed r
        → IsSole col key id status result_json hash final (
            update_row
              (is_leased col key lease_token)
              (finalized status external_reference result_json meeting.time)
              r)
    IsSole-finalized r (sole, described) = λ claims.
        RecordedRow-finalized r
          (sole (elim (Bool-cases (is_leased col key lease_token r)) [
            | inl e ↦ rw e at claims
            | inr e ↦ rw e at claims
          ]))
          described

    finalize-Recorded :
        Held col key id lease_token expiry meeting
        → All IsDescribed meeting.rows
        → Recorded col key id status result_json hash final
            (finalize col status key lease_token external_reference result_json meeting).1
    unfolding finalize
    finalize-Recorded held described = record {
      exists =
          Any-update_rows _ (RecordedRow col key id status result_json hash final)
            (is_leased col key lease_token)
            (finalized status external_reference result_json meeting.time) meeting.rows
            (λ r (h, d). RecordedRow-finalized r h d)
            (Any-with_All (HeldRow col key id lease_token expiry) IsDescribed meeting.rows
              held.exists described);
      sole =
          All-update_rows _ (IsSole col key id status result_json hash final)
            (is_leased col key lease_token)
            (finalized status external_reference result_json meeting.time) meeting.rows
            IsSole-finalized
            (All-with_All
              (λ r.
                (same_key col r.key key ≡ true) ⊎ (r.id ≡ id)
                → HeldRow col key id lease_token expiry r)
              IsDescribed meeting.rows held.sole described);
      taken = held.taken;
    }

    abbrev Settles : Result (Unit {0}) × Session Db → Type 0
    Settles (r, s') = (r ≡ ok tt) × Recorded col key id status result_json hash final s'.db

    finalize-one :
        WellFormed col meeting
        → Held col key id lease_token expiry meeting
        → (finalize col status key lease_token external_reference result_json meeting).0 ≡ 1
    unfolding finalize
    finalize-one v held = affected_rows_one col key lease_token meeting.rows v.distinct (
        any_of_Any (HeldRow col key id lease_token expiry) (is_leased col key lease_token)
          meeting.rows (HeldRow-is_leased col key lease_token id expiry) held.exists)

    -- The holder of a lease that completes or fails its step, the lease not lost when the statement
    -- reaches the table and the query not failing, returns without an error, and the step is then
    -- recorded with the status and the result, as the only record of its key.
    pub finalize_reservation-Recorded :
        WellFormed col meeting
        → Held col key id lease_token expiry meeting
        → All IsDescribed meeting.rows
        → env.fault s.queries ≡ none
        → let (r, s') = finalize_reservation col status input env s in
          (r ≡ ok tt) × Recorded col key id status result_json hash final s'.db
    unfolding finalize_reservation settle
    finalize_reservation-Recorded v held described healthy =
        bind_statement Settles env s
          (finalize col status key lease_token external_reference result_json) _
          (λ e fault. cc (fault, healthy))
          (rw (finalize-one v held) (refl, finalize-Recorded held described))
