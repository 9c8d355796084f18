-- ===== src/Idempotency/Names.antt =====
-- The record that an id names: its key, which no statement changes, and its row, the only one of a
-- well-formed table with the key or the id.
use automation_server_net.Base.{
  ℕ, ◌<◌, ◌≡◌, ◌⊎◌, refl, sym, ◌∙◌, Bool, true, List, [], ◌∷◌, inl, inr, arith, All, All-map,
  All-append, Any, Bool-cases, any,
}
use automation_server_net.Js.Text.{Text}
use automation_server_net.Idempotency.Table.{
  StepKey, Row, Db, Collation, insert_ignore, same_key, is_reclaimable, is_leased, finalized,
  affected_rows, update_row, reclaimed,
}
use automation_server_net.Idempotency.Rows.{
  All-update_rows, All-delete_rows, same_key_trans, same_key_sym,
}
use automation_server_net.Idempotency.Interleaving.{
  Operation, finalize_operation, cancel_operation, tick, apply, run, insert_operation,
  reclaim_operation,
}
use automation_server_net.Idempotency.WellFormed.{Distinct, Apart}

module _ (col : Collation) (k : StepKey) (id : ℕ) where
  -- In a table of distinct rows, what holds of one row with the key and the id holds of all rows
  -- that have one of them.
  pub sole_of_Distinct :
      (P : Row → Type 0) (rs : List Row)
      → ((r : Row) → P r → (same_key col r.key k ≡ true) × (r.id ≡ id))
      → Distinct col rs
      → Any P rs
      → All (λ r. (same_key col r.key k ≡ true) ⊎ (r.id ≡ id) → P r) rs
  sole_of_Distinct P [] names h a = tt
  sole_of_Distinct P (r ∷ rs) names h (inl a) = (
    (λ claims. a),
    All-map (Apart col r) _ rs (λ s apart claims. absurd (other s apart claims)) h.0,
  )
    where
      other : (s : Row) → Apart col r s → (same_key col s.key k ≡ true) ⊎ (s.id ≡ id) → ⊥
      other s apart (inl e) =
          cc (apart.0, same_key_trans col s.key k r.key e (same_key_sym col r.key k (names r a).0))
      other s apart (inr e) = apart.1 (e ∙ sym (names r a).1)
  sole_of_Distinct P (r ∷ rs) names h (inr a) =
      ((λ claims. absurd (other rs h.0 a claims)), sole_of_Distinct P rs names h.1 a)
    where
      clash : (s : Row) → Apart col r s → P s → (same_key col r.key k ≡ true) ⊎ (r.id ≡ id) → ⊥
      clash s apart p (inl e) =
          cc (apart.0, same_key_trans col s.key k r.key (names s p).0 (same_key_sym col r.key k e))
      clash s apart p (inr e) = apart.1 ((names s p).1 ∙ sym e)

      other :
          (ss : List Row)
          → All (Apart col r) ss
          → Any P ss
          → (same_key col r.key k ≡ true) ⊎ (r.id ≡ id)
          → ⊥
      other [] apart b claims = b
      other (s ∷ ss) apart (inl b) claims = clash s apart.0 b claims
      other (s ∷ ss) apart (inr b) claims = other ss apart.1 b claims

  -- Some row has the condition of a statement that affects one.
  pub Any-of_affected :
      (p : Row → Bool) (Q : Row → Type 0) (rs : List Row)
      → All Q rs
      → affected_rows p rs ≡ 1
      → Any (λ r. (p r ≡ true) × Q r) rs
  Any-of_affected p Q [] a e = absurd (ground (arith, e))
  Any-of_affected p Q (r ∷ rs) a e = elim (Bool-cases (p r)) [
    | inl h ↦ inl (h, a.0)
    | inr h ↦ inr (Any-of_affected p Q rs a.1 (ground (arith, h, e)))
  ]

  -- The row with the id has the key, now and after any statement: ids are not used again.
  pub record Names (d : Db) : Type 0 where
    pub keyed : All (λ r. r.id ≡ id → same_key col r.key k ≡ true) d.rows
    pub taken : id < d.next_id

  abbrev IsNamed : Row → Type 0
  IsNamed r = r.id ≡ id → same_key col r.key k ≡ true

  IsNamed-update :
      (p : Row → Bool) (f : Row → Row)
      → ((r : Row) → (f r).key ≡ r.key)
      → ((r : Row) → (f r).id ≡ r.id)
      → (r : Row) → IsNamed r
      → IsNamed (update_row p f r)
  IsNamed-update p f keys ids r h = elim (Bool-cases (p r)) [
    | inl e ↦ rw (e, ids r, keys r) h
    | inr e ↦ rw e h
  ]

  pub Names-insert :
      (k' : StepKey) (w q h t : Text) (d : Db) → Names d → Names (insert_ignore col k' w q h t d).1
  unfolding insert_ignore
  Names-insert k' w q h t d n = elim (Bool-cases (any (λ r. same_key col r.key k') d.rows)) [
    | inl e ↦ rw e n
    | inr e ↦ rw e (record {
      keyed = All-append IsNamed d.rows _ n.keyed ((λ x. absurd (omega (arith, n.taken))), tt);
      taken = omega (arith, n.taken);
    })
  ]

  pub Names-apply : (o : Operation) (d : Db) → Names d → Names (apply col o d)
  unfolding apply
  Names-apply (insert_operation k' w q h t) d n = Names-insert k' w q h t d n
  Names-apply (reclaim_operation i w q h t) d n = record {
    keyed =
        All-update_rows IsNamed IsNamed (is_reclaimable i d.time) (reclaimed w q h t d.time) d.rows
          (IsNamed-update (is_reclaimable i d.time) (reclaimed w q h t d.time) (λ r. refl)
            (λ r. refl))
          n.keyed;
    taken = n.taken;
  }
  Names-apply (finalize_operation status k' t reference json) d n = record {
    keyed =
        All-update_rows IsNamed IsNamed (is_leased col k' t)
          (finalized status reference json d.time) d.rows
          (IsNamed-update (is_leased col k' t) (finalized status reference json d.time) (λ r. refl)
            (λ r. refl))
          n.keyed;
    taken = n.taken;
  }
  Names-apply (cancel_operation k' t) d n = record {
    keyed = All-delete_rows IsNamed (is_leased col k' t) d.rows n.keyed;
    taken = n.taken;
  }
  Names-apply (tick seconds) d n = record { keyed = n.keyed; taken = n.taken }

  pub Names-run : (os : List Operation) (d : Db) → Names d → Names (run col os d)
  unfolding run
  Names-run [] d n = n
  Names-run (o ∷ os) d n = Names-run os (apply col o d) (Names-apply o d n)
