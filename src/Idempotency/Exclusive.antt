-- ===== src/Idempotency/Exclusive.antt =====
-- A lease is exclusive: until it expires, no statement of another client takes the record from its
-- holder, whatever the interleaving.
use automation_server_net.Base.{
  ℕ, ◌<◌, ◌≡◌, true, false, Option, some, List, [], ◌∷◌, ◌⊎◌, inl, inr, arith, All, All-append, Any,
  Any-append_left, any_of_Any, Bool-cases, any,
}
use automation_server_net.Js.Text.{Text}
use automation_server_net.Idempotency.Table.{
  Status, StepKey, Row, Db, Collation, insert_ignore, same_key, is_pending, update_row,
  is_reclaimable, is_leased, reclaimed, finalized, new_row,
}
use automation_server_net.Idempotency.Rows.{
  All-update_rows, Any-update_rows, All-delete_rows, Any-delete_rows, same_key_sym, same_key_trans,
}
use automation_server_net.Idempotency.Interleaving.{
  Operation, insert_operation, reclaim_operation, finalize_operation, cancel_operation, tick, By,
  apply, run, time-apply,
}

module _ (col : Collation) (k : StepKey) (id : ℕ) (token : Text) (expiry : ℕ) where
  -- The row is the pending record of `k`, leased to `token` until `expiry`.
  pub record HeldRow (r : Row) : Type 0 where
    pub keyed : same_key col r.key k ≡ true
    pub identified : r.id ≡ id
    pub in_progress : is_pending r.execution_status ≡ true
    pub leased : r.lease_token ≡ some token
    pub expires : r.pending_expires_at ≡ some expiry

  -- There is such a row, and no other row has its key or its id.
  pub record Held (d : Db) : Type 0 where
    pub exists : Any HeldRow d.rows
    pub sole : All (λ r. (same_key col r.key k ≡ true) ⊎ (r.id ≡ id) → HeldRow r) d.rows
    pub taken : id < d.next_id

  -- The token of another client.
  abbrev pub Other : Text → Type 0
  Other t = col.same token t ≡ false

  HeldRow-reclaim :
      (id' : ℕ) (w q h t : Text) (time : ℕ) (r : Row)
      → time < expiry
      → HeldRow r
      → HeldRow (update_row (is_reclaimable id' time) (reclaimed w q h t time) r)
  HeldRow-reclaim id' w q h t time r early held = ground arith

  HeldRow-finalize :
      (status : Status) (k' : StepKey) (t : Text) (reference : Option Text) (json : Text) (time : ℕ)
      (r : Row)
      → Other t
      → HeldRow r
      → HeldRow (update_row (is_leased col k' t) (finalized status reference json time) r)
  HeldRow-finalize status k' t reference json time r other held = ground arith

  abbrev Sole : Row → Type 0
  Sole r = (same_key col r.key k ≡ true) ⊎ (r.id ≡ id) → HeldRow r

  Sole-reclaim :
      (id' : ℕ) (w q h t : Text) (time : ℕ) (r : Row)
      → time < expiry
      → Sole r
      → Sole (update_row (is_reclaimable id' time) (reclaimed w q h t time) r)
  Sole-reclaim id' w q h t time r early sole = λ claims. HeldRow-reclaim id' w q h t time r early (
      sole (elim (Bool-cases (is_reclaimable id' time r)) [
        | inl e ↦ rw e at claims
        | inr e ↦ rw e at claims
      ]))

  Sole-finalize :
      (status : Status) (k' : StepKey) (t : Text) (reference : Option Text) (json : Text) (time : ℕ)
      (r : Row)
      → Other t
      → Sole r
      → Sole (update_row (is_leased col k' t) (finalized status reference json time) r)
  Sole-finalize status k' t reference json time r other sole = λ claims.
      HeldRow-finalize status k' t reference json time r other (
        sole (elim (Bool-cases (is_leased col k' t r)) [
          | inl e ↦ rw e at claims
          | inr e ↦ rw e at claims
        ]))

  -- a row with the key makes the key one that the insertion ignores
  HeldRow-ignored :
      (k' : StepKey) (r : Row) → same_key col k' k ≡ true → HeldRow r → same_key col r.key k' ≡ true
  HeldRow-ignored k' r e held = same_key_trans col r.key k k' held.keyed (same_key_sym col k' k e)

  Held-insert :
      (k' : StepKey) (w q h t : Text) (d : Db) → Held d → Held (insert_ignore col k' w q h t d).1
  unfolding insert_ignore
  Held-insert k' w q h t d held = elim (Bool-cases (any (λ r. same_key col r.key k') d.rows)) [
    | inl e ↦ rw e held
    | inr e ↦ rw e (record {
      exists = Any-append_left HeldRow d.rows _ held.exists;
      sole = All-append Sole d.rows _ held.sole (new_row_sole e, tt);
      taken = omega arith;
    })
  ]
    where
      open held use {exists, taken}

      new_row_sole : any (λ r. same_key col r.key k') d.rows ≡ false → Sole (new_row k' w q h t d)
      new_row_sole e (inl same) = cc (
        e,
        any_of_Any HeldRow (λ r. same_key col r.key k') d.rows (λ r h. HeldRow-ignored k' r same h)
            exists,
      )
      new_row_sole e (inr same) = absurd (omega arith)

  -- One operation of another client, before the lease expires, leaves the record to its holder.
  Held-apply :
      (o : Operation) (d : Db) → By Other o → d.time < expiry → Held d → Held (apply col o d)
  unfolding apply
  Held-apply (insert_operation k' w q h t) d other early held = Held-insert k' w q h t d held
  Held-apply (reclaim_operation id' w q h t) d other early held = record {
    exists =
        Any-update_rows HeldRow HeldRow (is_reclaimable id' d.time) (reclaimed w q h t d.time)
          d.rows (λ r. HeldRow-reclaim id' w q h t d.time r early) held.exists;
    sole =
        All-update_rows Sole Sole (is_reclaimable id' d.time) (reclaimed w q h t d.time) d.rows
          (λ r. Sole-reclaim id' w q h t d.time r early) held.sole;
    taken = held.taken;
  }
  Held-apply (finalize_operation status k' t reference json) d other early held = record {
    exists =
        Any-update_rows HeldRow HeldRow (is_leased col k' t)
          (finalized status reference json d.time) d.rows
          (λ r. HeldRow-finalize status k' t reference json d.time r other) held.exists;
    sole =
        All-update_rows Sole Sole (is_leased col k' t) (finalized status reference json d.time)
          d.rows (λ r. Sole-finalize status k' t reference json d.time r other) held.sole;
    taken = held.taken;
  }
  Held-apply (cancel_operation k' t) d other early held = record {
    exists =
        Any-delete_rows HeldRow (is_leased col k' t) d.rows (λ r h. ground (arith, h, other))
          held.exists;
    sole = All-delete_rows Sole (is_leased col k' t) d.rows held.sole;
    taken = held.taken;
  }
  Held-apply (tick seconds) d other early held = record {
    exists = held.exists;
    sole = held.sole;
    taken = held.taken;
  }

  -- The record is held for as long as the clock of the database has not reached the expiry.
  abbrev pub Guarded : Db → Type 0
  Guarded d = d.time < expiry → Held d

  pub Guarded-apply : (o : Operation) (d : Db) → By Other o → Guarded d → Guarded (apply col o d)
  Guarded-apply o d other g = λ early.
      let before : d.time < expiry = omega (arith, time-apply col o d) in
      Held-apply o d other before (g before)

  pub Guarded-run :
      (os : List Operation) (d : Db) → All (By Other) os → Guarded d → Guarded (run col os d)
  unfolding run
  Guarded-run [] d others g = g
  Guarded-run (o ∷ os) d others g =
      Guarded-run os (apply col o d) others.1 (Guarded-apply o d others.0 g)
