-- ===== src/Idempotency/Refusal.antt =====
-- A client that no longer holds the lease cannot settle the step.
use automation_server_net.Base.{
  ℕ, ◌+◌, ◌≤◌, ◌<◌, ◌≡◌, ◌≢◌, ◌⊎◌, refl, true, false, Option, none, some, inl, inr, arith, ◌==◌,
  any_of_Any, Bool-cases, All-map,
}
use automation_server_net.Js.Text.{Text, text_eq, text_eq_sound}
use automation_server_net.Integration.{
  Failure, Result, raise, transient_error, Code, idempotency_lease_lost,
  idempotency_finalize_not_found,
}
use automation_server_net.Session.{Environment, Session, bind_statement, resume, lift}
use automation_server_net.Idempotency.Table.{
  Status, pending, completed, failed, is_pending, Row, Db, Collation, find_row, same_key, finalize,
  is_leased,
}
use automation_server_net.Idempotency.Rows.{affected_rows_zero, find_row_lem, find_row-some}
use automation_server_net.Idempotency.Repository.{
  FinalizeInput, finalize_reservation, settle, settle_unmatched, is_token, load_row, loaded,
}
use automation_server_net.Idempotency.Interleaving.{
  Interferes, time-run, finalize-apply, time-finalize, finalize_operation,
}
use automation_server_net.Idempotency.Exclusive.{
  Held, HeldRow, Other, Guarded, Guarded-run, Guarded-apply,
}

module _ (col : Collation) (status : Status) (input : FinalizeInput) (env : Environment Db) (id : ℕ)
    (owner : Text) (expiry : ℕ) (others : Interferes col (Other col input.key id owner expiry) env)
    (other : Other col input.key id owner expiry input.lease_token) where
  open input use {key, lease_token, result_json, external_reference}

  abbrev Guards : Db → Type 0
  Guards = Guarded col key id owner expiry

  before-Guards : (n : ℕ) (d : Db) → Guards d → Guards (env.before n d)
  before-Guards n d g =
      rw (others.are_run n d)
        (Guarded-run col key id owner expiry (others.operations n d) d (others.are_by n d) g)

  finalize-zero :
      (d : Db)
      → Held col key id owner expiry d
      → (finalize col status key lease_token external_reference result_json d).0 ≡ 0
  unfolding finalize
  finalize-zero d held =
      affected_rows_zero (is_leased col key lease_token) d.rows
        (All-map _ (λ r. is_leased col key lease_token r ≡ false) d.rows go held.sole)
    where
      go :
          (r : Row)
          → ((same_key col r.key key ≡ true) ⊎ (r.id ≡ id) → HeldRow col key id owner expiry r)
          → is_leased col key lease_token r ≡ false
      go r sole = elim (Bool-cases (same_key col r.key key)) [
        | inr e ↦ rw e
        | inl e ↦ ground (arith, e, sole (inl e), other)
      ]

  is_token-other : is_token lease_token (some owner) ≡ false
  is_token-other = elim (Bool-cases (text_eq owner lease_token)) [
    | inr e ↦ e
    | inl e ↦ cc (other, text_eq_sound owner lease_token e, col.same_refl lease_token)
  ]

  abbrev Refused : Result (Unit {0}) × Session Db → Type 0
  Refused (r, s') =
      s'.db.time < expiry
      → Held col key id owner expiry s'.db
        × ((r ≡ raise (transient_error idempotency_lease_lost))
            ⊎ ((n : ℕ) × (e : Failure) × (env.fault n ≡ some e) × (r ≡ raise e)))

  finalize-Guards :
      (d : Db)
      → is_pending status ≡ false
      → Guards d
      → Guards (finalize col status key lease_token external_reference result_json d).1
  finalize-Guards d final g =
      rw (finalize-apply col status key lease_token external_reference result_json d) (
        Guarded-apply col key id owner expiry
          (finalize_operation status key lease_token external_reference result_json) d other g)

  time-before : (n : ℕ) (d : Db) → d.time ≤ (env.before n d).time
  time-before n d = rw (others.are_run n d) (time-run col (others.operations n d) d)

  -- the row that a refused client reads is held by the owner, and is there
  found-HeldRow :
      (d : Db) (row : Row)
      → Held col key id owner expiry d
      → find_row col key d.rows ≡ some row
      → HeldRow col key id owner expiry row
  found-HeldRow d row held found =
      let (sole, keyed) =
        find_row_lem col
          (λ r. (same_key col r.key key ≡ true) ⊎ (r.id ≡ id) → HeldRow col key id owner expiry r)
          key d.rows found held.sole in
      sole (inl keyed)

  found-ne-none : (d : Db) → Held col key id owner expiry d → find_row col key d.rows ≢ none
  found-ne-none d held e =
      let (row, found) = find_row-some col key d.rows (
        any_of_Any (HeldRow col key id owner expiry) (λ r. same_key col r.key key) d.rows
          (λ r h. h.keyed) held.exists) in
      cc

  by_status-Refused :
      (code : Code) (row : Row) (st : Status)
      → is_pending st ≡ true
      → row.lease_token ≡ some owner
      → settle_unmatched code lease_token row st ≡ raise (transient_error idempotency_lease_lost)
  unfolding settle_unmatched
  by_status-Refused code row pending p leased =
      let mine : is_token lease_token row.lease_token ≡ false = rw leased is_token-other in rw mine
  by_status-Refused code row completed p leased = cc
  by_status-Refused code row failed p leased = cc

  loaded-Refused :
      (code : Code) (found : Option Row) (s : Session Db)
      → Guards s.db
      → (s.db.time < expiry → found ≢ none)
      → ((row : Row) → found ≡ some row → s.db.time < expiry → HeldRow col key id owner expiry row)
      → Refused (
          resume
            (loaded found env s)
            (λ row. lift (settle_unmatched code lease_token row row.execution_status))
            env)
  loaded-Refused code none s g there own = λ early. absurd (there early refl)
  loaded-Refused code (some row) s g there own = λ early.
      let h = own row refl early in
      (g early, inl (by_status-Refused code row row.execution_status h.in_progress h.leased))

  settle-Refused :
      (code : Code) (count : ℕ) (s : Session Db)
      → (s.db.time < expiry → count ≡ 0)
      → Guards s.db
      → Refused (settle col code key lease_token count env s)
  unfolding settle load_row
  settle-Refused code count s unmatched g = elim (Bool-cases (count == 1)) [
    | inl e ↦ rw e (λ early. absurd (ground (arith, e, unmatched early)))
    | inr e ↦ rw e (
        bind_statement
          (λ r. Refused (
            resume r (λ row. lift (settle_unmatched code lease_token row row.execution_status))
              env))
          env s (λ d. (find_row col key d.rows, d)) loaded
          (λ x fault early. (before-Guards s.queries s.db g early, inr (s.queries, x, fault, refl)))
          (loaded-Refused code (find_row col key d.rows)
            (record { db = d; queries = s.queries + 1 }) g' (λ early. found-ne-none d (g' early))
            (λ row found early. found-HeldRow d row (g' early) found)))
  ]
    where
      d : Db
      d = env.before s.queries s.db

      g' : Guards d
      g' = before-Guards s.queries s.db g

  -- A client that completes or fails a step under a lease that another client holds is refused: a
  -- call that ends before that lease expires leaves the record held, and it has raised LEASE_LOST or
  -- the error of a query that failed.
  pub finalize_refused :
      (s : Session Db)
      → is_pending status ≡ false
      → Held col key id owner expiry s.db
      → (finalize_reservation col status input env s).1.db.time < expiry
      → let (r, s') = finalize_reservation col status input env s in
        Held col key id owner expiry s'.db
        × ((r ≡ raise (transient_error idempotency_lease_lost))
            ⊎ ((n : ℕ) × (e : Failure) × (env.fault n ≡ some e) × (r ≡ raise e)))
  unfolding finalize_reservation
  finalize_refused s final held =
      bind_statement Refused env s
        (finalize col status key lease_token external_reference result_json) _
        (λ e fault early. (g early, inr (s.queries, e, fault, refl)))
        (settle-Refused idempotency_finalize_not_found _ _
          (λ early. finalize-zero d (
            g (
              omega (
                arith,
                time-finalize col status key lease_token external_reference result_json d,
              ))))
          (finalize-Guards d final g))
    where
      d : Db
      d = env.before s.queries s.db

      g : Guards d
      g = before-Guards s.queries s.db (λ early. held)
