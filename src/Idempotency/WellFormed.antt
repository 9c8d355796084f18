-- ===== src/Idempotency/WellFormed.antt =====
-- The invariant of the table, and that every statement of every client keeps it.
use automation_server_net.Base.{
  ℕ, suc, ◌<◌, ◌≡◌, ◌≢◌, refl, Bool, false, Option, List, [], ◌∷◌, ◌++◌, inl, inr, arith, All,
  All-map, All-append, All-of_any-false, Bool-cases, any, is_some, not,
}
use automation_server_net.Js.Text.{Text}
use automation_server_net.Idempotency.Table.{
  Status, StepKey, Row, Db, Collation, insert_ignore, same_key, update_row, update_rows,
  delete_rows, is_reclaimable, is_leased, reclaimed, finalized, new_row, is_pending,
}
use automation_server_net.Idempotency.Rows.{All-update_rows, All-delete_rows, same_key_sym}
use automation_server_net.Idempotency.Interleaving.{
  Operation, insert_operation, reclaim_operation, finalize_operation, cancel_operation, tick, apply,
  run, IsSound,
}

-- What the columns of a row say about each other: a lease and an expiry as long as the step is
-- pending, and a result with a time of completion as soon as it is not.
abbrev pub IsConsistent : Row → Type 0
IsConsistent r =
    (is_some r.lease_token ≡ is_pending r.execution_status)
    × (is_some r.pending_expires_at ≡ is_pending r.execution_status)
    × (is_some r.result_payload_json ≡ not (is_pending r.execution_status))
    × (is_some r.completed_at ≡ not (is_pending r.execution_status))

module _ (col : Collation) where
  abbrev pub Apart : Row → Row → Type 0
  Apart r s = (same_key col s.key r.key ≡ false) × (s.id ≢ r.id)

  -- No two rows share the unique key or the id.
  abbrev pub Distinct : List Row → Type 0
  Distinct [] = Unit
  Distinct (r ∷ rs) = All (Apart r) rs × Distinct rs

  pub record WellFormed (d : Db) : Type 0 where
    pub distinct : Distinct d.rows
    pub numbered : All (λ r. r.id < d.next_id) d.rows
    pub consistent : All IsConsistent d.rows

  -- an update that keeps the keys and the ids keeps the rows apart
  Distinct-update_rows :
      (p : Row → Bool) (f : Row → Row)
      → ((r : Row) → (f r).key ≡ r.key)
      → ((r : Row) → (f r).id ≡ r.id)
      → (rs : List Row) → Distinct rs
      → Distinct (update_rows p f rs)
  Distinct-update_rows p f same_key_ same_id [] h = tt
  Distinct-update_rows p f same_key_ same_id (r ∷ rs) h = (
    All-update_rows (Apart r) (Apart (update_row p f r)) p f rs (λ s a. go s a) h.0,
    Distinct-update_rows p f same_key_ same_id rs h.1,
  )
    where
      key_lem : (s : Row) → (update_row p f s).key ≡ s.key
      key_lem s = elim (Bool-cases (p s)) [ inl e ↦ rw e (same_key_ s) | inr e ↦ rw e ]

      id_lem : (s : Row) → (update_row p f s).id ≡ s.id
      id_lem s = elim (Bool-cases (p s)) [ inl e ↦ rw e (same_id s) | inr e ↦ rw e ]

      go : (s : Row) → Apart r s → Apart (update_row p f r) (update_row p f s)
      go s a = rw (key_lem s, key_lem r, id_lem s, id_lem r) a

  Distinct-delete_rows :
      (p : Row → Bool) (rs : List Row) → Distinct rs → Distinct (delete_rows p rs)
  Distinct-delete_rows p [] h = tt
  Distinct-delete_rows p (r ∷ rs) h = elim (Bool-cases (p r)) [
    | inl e ↦ rw e (Distinct-delete_rows p rs h.1)
    | inr e ↦ rw e (All-delete_rows (Apart r) p rs h.0, Distinct-delete_rows p rs h.1)
  ]

  Distinct-append :
      (rs : List Row) (n : Row)
      → All (λ r. same_key col r.key n.key ≡ false) rs
      → All (λ r. r.id < n.id) rs
      → Distinct rs
      → Distinct (rs ++ (n ∷ []))
  Distinct-append [] n keys ids h = (tt, tt)
  Distinct-append (r ∷ rs) n keys ids h = (
    All-append (Apart r) rs (n ∷ []) h.0 ((apart, omega arith), tt),
    Distinct-append rs n keys.1 ids.1 h.1,
  )
    where
      apart : same_key col n.key r.key ≡ false
      apart = elim (Bool-cases (same_key col n.key r.key)) [
        | inl e ↦ cc (keys.0, same_key_sym col n.key r.key e)
        | inr e ↦ e
      ]

  WellFormed-insert :
      (k : StepKey) (w q h t : Text) (d : Db)
      → WellFormed d
      → WellFormed (insert_ignore col k w q h t d).1
  unfolding insert_ignore
  WellFormed-insert k w q h t d v = elim (Bool-cases (any (λ r. same_key col r.key k) d.rows)) [
    | inl e ↦ rw e v
    | inr e ↦ rw e (record {
      distinct =
          Distinct-append d.rows (new_row k w q h t d)
            (All-of_any-false (λ r. same_key col r.key k) d.rows e) v.numbered v.distinct;
      numbered =
          All-append (λ r. r.id < suc d.next_id) d.rows _
            (All-map (λ r. r.id < d.next_id) (λ r. r.id < suc d.next_id) d.rows (λ r b. omega arith)
              v.numbered)
            (omega arith, tt);
      consistent = All-append IsConsistent d.rows _ v.consistent ((refl, refl, refl, refl), tt);
    })
  ]

  WellFormed-update :
      (p : Row → Bool) (f : Row → Row) (d : Db)
      → ((r : Row) → (f r).key ≡ r.key)
      → ((r : Row) → (f r).id ≡ r.id)
      → ((r : Row) → IsConsistent r → IsConsistent (update_row p f r))
      → WellFormed d
      → WellFormed (record d { rows = update_rows p f d.rows })
  WellFormed-update p f d keys ids shape v = record {
    distinct = Distinct-update_rows p f keys ids d.rows v.distinct;
    numbered =
        All-update_rows (λ r. r.id < d.next_id) (λ r. r.id < d.next_id) p f d.rows (λ r b. go r b)
          v.numbered;
    consistent = All-update_rows IsConsistent IsConsistent p f d.rows shape v.consistent;
  }
    where
      go : (r : Row) → r.id < d.next_id → (update_row p f r).id < d.next_id
      go r b = elim (Bool-cases (p r)) [ inl e ↦ rw (e, ids r) b | inr e ↦ rw e b ]

  reclaimed-IsConsistent :
      (i : ℕ) (w q h t : Text) (time : ℕ) (r : Row)
      → IsConsistent r
      → IsConsistent (update_row (is_reclaimable i time) (reclaimed w q h t time) r)
  reclaimed-IsConsistent i w q h t time r c = ground arith

  finalized-IsConsistent :
      (status : Status) (k : StepKey) (t : Text) (reference : Option Text) (json : Text) (time : ℕ)
      (r : Row)
      → is_pending status ≡ false
      → IsConsistent r
      → IsConsistent (update_row (is_leased col k t) (finalized status reference json time) r)
  finalized-IsConsistent status k t reference json time r sound c =
      elim (Bool-cases (is_leased col k t r)) [
        | inl e ↦ rw (e, sound) (refl, refl, refl, refl)
        | inr e ↦ rw e c
      ]

  -- Any statement of any client keeps the table well formed: the keys and the ids stay unique, a row
  -- has a lease and an expiry exactly while it is pending, and a result and a time of completion
  -- exactly when it is not.
  pub apply-WellFormed :
      (o : Operation) (d : Db) → IsSound o → WellFormed d → WellFormed (apply col o d)
  unfolding apply
  apply-WellFormed (insert_operation k w q h t) d sound v = WellFormed-insert k w q h t d v
  apply-WellFormed (reclaim_operation i w q h t) d sound v =
      WellFormed-update (is_reclaimable i d.time) (reclaimed w q h t d.time) d (λ r. refl)
        (λ r. refl) (reclaimed-IsConsistent i w q h t d.time) v
  apply-WellFormed (finalize_operation status k t reference json) d sound v =
      WellFormed-update (is_leased col k t) (finalized status reference json d.time) d (λ r. refl)
        (λ r. refl) (λ r. finalized-IsConsistent status k t reference json d.time r sound) v
  apply-WellFormed (cancel_operation k t) d sound v = record {
    distinct = Distinct-delete_rows (is_leased col k t) d.rows v.distinct;
    numbered = All-delete_rows (λ r. r.id < d.next_id) (is_leased col k t) d.rows v.numbered;
    consistent = All-delete_rows IsConsistent (is_leased col k t) d.rows v.consistent;
  }
  apply-WellFormed (tick seconds) d sound v = record {
    distinct = v.distinct;
    numbered = v.numbered;
    consistent = v.consistent;
  }

  -- Every sequence of statements, by whichever clients, keeps the table well formed, if each finalization
  -- is to a status that is not pending.
  pub run-WellFormed :
      (os : List Operation) (d : Db) → All IsSound os → WellFormed d → WellFormed (run col os d)
  unfolding run
  run-WellFormed [] d sound v = v
  run-WellFormed (o ∷ os) d sound v =
      run-WellFormed os (apply col o d) sound.1 (apply-WellFormed o d sound.0 v)
