-- ===== src/Idempotency/Recorded.antt =====
-- A step that has been completed or failed is recorded for good: no statement changes its row.
use automation_server_net.Base.{
  ℕ, ◌<◌, ◌≤◌, ◌≡◌, ◌⊎◌, refl, Bool, true, false, some, List, [], ◌∷◌, inl, inr, arith, All,
  All-append, Any, Any-append_left, any_of_Any, Bool-cases, any,
}
use automation_server_net.Js.Number.{max_safe_integer}
use automation_server_net.Js.Text.{Text}
use automation_server_net.Idempotency.Table.{
  Status, StepKey, Row, Db, Collation, insert_ignore, same_key, is_pending, update_row, update_rows,
  is_reclaimable, is_leased, reclaimed, finalized, new_row,
}
use automation_server_net.Idempotency.Rows.{
  All-update_rows, Any-update_rows, All-delete_rows, Any-delete_rows, same_key_trans, same_key_sym,
}
use automation_server_net.Idempotency.Interleaving.{
  Operation, insert_operation, reclaim_operation, finalize_operation, cancel_operation, tick, apply,
  run,
}

module _ (col : Collation) (k : StepKey) (id : ℕ) (status : Status) (json hash : Text)
    (final : is_pending status ≡ false) where
  -- The row is the record of `k`, with this status, result and payload hash.
  pub record RecordedRow (r : Row) : Type 0 where
    pub keyed : same_key col r.key k ≡ true
    pub identified : r.id ≡ id
    pub finished : r.execution_status ≡ status
    pub stored : r.result_payload_json ≡ some json
    pub hashed : r.payload_hash ≡ hash
    pub tried : 0 < r.attempt_count
    pub countable : r.attempt_count ≤ max_safe_integer

  abbrev pub IsSole : Row → Type 0
  IsSole r = (same_key col r.key k ≡ true) ⊎ (r.id ≡ id) → RecordedRow r

  pub record Recorded (d : Db) : Type 0 where
    pub exists : Any RecordedRow d.rows
    pub sole : All IsSole d.rows
    pub taken : id < d.next_id

  idle_reclaim : (i time : ℕ) (r : Row) → RecordedRow r → is_reclaimable i time r ≡ false
  idle_reclaim i time r h = ground (arith, h, final)

  idle_leased : (k' : StepKey) (t : Text) (r : Row) → RecordedRow r → is_leased col k' t r ≡ false
  idle_leased k' t r h = ground (arith, h, final)

  Recorded-update :
      (p : Row → Bool) (f : Row → Row) (d : Db)
      → ((r : Row) → (f r).key ≡ r.key)
      → ((r : Row) → (f r).id ≡ r.id)
      → ((r : Row) → RecordedRow r → p r ≡ false)
      → Recorded d
      → Recorded (record d { rows = update_rows p f d.rows })
  Recorded-update p f d keys ids idle h = record {
    exists = Any-update_rows RecordedRow RecordedRow p f d.rows (λ r x. rw (idle r x) x) h.exists;
    sole = All-update_rows IsSole IsSole p f d.rows go h.sole;
    taken = h.taken;
  }
    where
      go : (r : Row) → IsSole r → IsSole (update_row p f r)
      go r sole = elim (Bool-cases (p r)) [
        | inr e ↦ rw e sole
        | inl e ↦ rw (e, keys r, ids r) (λ claims. cc (e, idle r (sole claims)))
      ]

  Recorded-insert :
      (k' : StepKey) (w q h t : Text) (d : Db)
      → Recorded d
      → Recorded (insert_ignore col k' w q h t d).1
  unfolding insert_ignore
  Recorded-insert k' w q h t d kept = elim (Bool-cases (any (λ r. same_key col r.key k') d.rows)) [
    | inl e ↦ rw e kept
    | inr e ↦ rw e (record {
      exists = Any-append_left RecordedRow d.rows _ kept.exists;
      sole = All-append IsSole d.rows _ kept.sole (new_row_sole e, tt);
      taken = omega arith;
    })
  ]
    where
      open kept use {exists, taken}

      new_row_sole : any (λ r. same_key col r.key k') d.rows ≡ false → IsSole (new_row k' w q h t d)
      new_row_sole e (inl same) = cc (
        e,
        any_of_Any RecordedRow (λ r. same_key col r.key k') d.rows
            (λ r x. same_key_trans col r.key k k' x.keyed (same_key_sym col k' k same)) exists,
      )
      new_row_sole e (inr same) = absurd (omega arith)

  pub Recorded-apply : (o : Operation) (d : Db) → Recorded d → Recorded (apply col o d)
  unfolding apply
  Recorded-apply (insert_operation k' w q h t) d kept = Recorded-insert k' w q h t d kept
  Recorded-apply (reclaim_operation i w q h t) d kept =
      Recorded-update (is_reclaimable i d.time) (reclaimed w q h t d.time) d (λ r. refl) (λ r. refl)
        (idle_reclaim i d.time) kept
  Recorded-apply (finalize_operation st k' t reference j) d kept =
      Recorded-update (is_leased col k' t) (finalized st reference j d.time) d (λ r. refl)
        (λ r. refl) (idle_leased k' t) kept
  Recorded-apply (cancel_operation k' t) d kept = record {
    exists = Any-delete_rows RecordedRow (is_leased col k' t) d.rows (idle_leased k' t) kept.exists;
    sole = All-delete_rows IsSole (is_leased col k' t) d.rows kept.sole;
    taken = kept.taken;
  }
  Recorded-apply (tick seconds) d kept = record {
    exists = kept.exists;
    sole = kept.sole;
    taken = kept.taken;
  }

  -- A step that is recorded as completed or failed with a result stays so recorded, as the only record
  -- of its key, through every sequence of statements of any clients.
  pub Recorded-run : (os : List Operation) (d : Db) → Recorded d → Recorded (run col os d)
  unfolding run
  Recorded-run [] d kept = kept
  Recorded-run (o ∷ os) d kept = Recorded-run os (apply col o d) (Recorded-apply o d kept)
