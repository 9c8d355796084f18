-- ===== src/Idempotency/Rounds.antt =====
-- A rule for `reserve`: what every client keeps true of the table, what a client knows of a row that
-- it has read, and what this makes true of each outcome.
use automation_server_net.Base.{
  ℕ, zero, suc, ◌≡◌, refl, true, Option, none, some, arith, Bool-cases, ◌==◌, ◌||◌, not, inl, inr,
}
use automation_server_net.Js.Number.{whole}
use automation_server_net.Js.Text.{Text, text_eq}
use automation_server_net.Integration.{Result, ok, raise}
use automation_server_net.Session.{
  Environment, Session, Query, resume, bind_statement, bind_lift, pure,
}
use automation_server_net.Idempotency.Table.{
  Status, pending, completed, failed, Row, Db, Collation, insert_ignore, find_row, reclaim,
}
use automation_server_net.Idempotency.Columns.{read_row_id_lem, normalize_insert_id_lem}
use automation_server_net.Idempotency.Repository.{
  ReservationInput, Reservation, reserved, still_pending, was_completed, was_failed, column,
  read_row_id, read_attempt_count, normalize_insert_id, read_stored_result, reserve_finished,
  is_expired_pending_reservation, pending_outcome, reserve_pending, reserve_by_status,
  reserve_found, reserve_inserted, reserve_attempt, reserve_loop, reserve,
}

module _ (col : Collation) {Json T : Type 0} (parse_json : Text → Option Json)
    (input : ReservationInput Json T) (token : Text) (env : Environment Db) where
  open input use {key, workflow_id, request_id, payload_hash, parse_result}

  -- the statements of this call
  abbrev pub inserting : Db → (ℕ × ℕ) × Db
  inserting = insert_ignore col key workflow_id request_id payload_hash token

  abbrev pub reclaiming : ℕ → Db → ℕ × Db
  reclaiming id = reclaim id workflow_id request_id payload_hash token

  pub record ReserveRule : Type 1 where
    pub Inv : Db → Type 0
    pub Known : Row → Db → Type 0
    pub Good : Reservation T → Db → Type 0
    pub before_inv : (n : ℕ) (d : Db) → Inv d → Inv (env.before n d)
    pub before_known :
        (n : ℕ) (d : Db) (row : Row) → Inv d → Known row d → Known row (env.before n d)
    pub insert_inv : (d : Db) → Inv d → Inv (inserting d).1
    pub reclaim_inv : (id : ℕ) (d : Db) → Inv d → Inv (reclaiming id d).1
    pub find_known : (d : Db) (row : Row) → Inv d → find_row col key d.rows ≡ some row → Known row d
    pub good_inserted :
        (d : Db)
        → Inv d
        → (inserting d).0.0 ≡ 1
        → Good (reserved (inserting d).0.1 token) (inserting d).1
    pub good_reclaimed :
        (row : Row) (d : Db)
        → Inv d
        → Known row d
        → (reclaiming row.id d).0 ≡ 1
        → Good (reserved row.id token) (reclaiming row.id d).1
    pub good_pending :
        (row : Row) (d : Db)
        → Inv d
        → Known row d
        → text_eq row.payload_hash payload_hash ≡ true
        → row.execution_status ≡ pending
        → Good (still_pending row.id row.updated_at) (reclaiming row.id d).1
    pub good_completed :
        (row : Row) (d : Db) (x : T)
        → Inv d
        → Known row d
        → text_eq row.payload_hash payload_hash ≡ true
        → row.execution_status ≡ completed
        → read_stored_result parse_json parse_result row ≡ ok x
        → Good (was_completed row.id row.updated_at x) d
    pub good_failed :
        (row : Row) (d : Db) (x : T)
        → Inv d
        → Known row d
        → text_eq row.payload_hash payload_hash ≡ true
        → row.execution_status ≡ failed
        → read_stored_result parse_json parse_result row ≡ ok x
        → Good (was_failed row.id row.updated_at x) d

  module _ (rule : ReserveRule) where
    open rule use {
      Inv, Known, Good, before_inv, before_known, insert_inv, reclaim_inv, find_known,
      good_inserted, good_reclaimed, good_pending, good_completed, good_failed,
    }

    abbrev Outcome : Result (Option (Reservation T)) → Db → Type 0
    Outcome (ok (some x)) d = Good x d
    Outcome (ok none) d = Unit
    Outcome (raise e) d = Unit

    abbrev Round : Result (Option (Reservation T)) × Session Db → Type 0
    Round (r, s) = Inv s.db × Outcome r s.db

    finished-Round :
        (make : ℕ → ℕ → T → Reservation T) (row : Row) (s : Session Db)
        → ((x : T)
            → read_stored_result parse_json parse_result row ≡ ok x
            → Good (make row.id row.updated_at x) s.db)
        → Inv s.db
        → Round (reserve_finished col parse_json input token make row env s)
    unfolding reserve_finished
    finished-Round make row s good v =
        bind_lift Round env s (read_row_id (column row.id)) _ (λ e _. (v, tt))
          (λ i same.
            bind_lift Round env s (read_attempt_count (column row.attempt_count)) _ (λ e _. (v, tt))
              (λ n _.
                bind_lift Round env s (read_stored_result parse_json parse_result row) _
                  (λ e _. (v, tt))
                  (λ x stored. (v, rw (read_row_id_lem row.id i same) (good x stored)))))

    outcome-Round :
        (i count time : ℕ) (row : Row) (s : Session Db)
        → (count ≡ 1 → Good (reserved i token) s.db)
        → Good (still_pending i row.updated_at) s.db
        → Inv s.db
        → Round (pending_outcome col parse_json input token i count time row env s)
    unfolding pending_outcome
    outcome-Round i count time row s good waits v =
        elim (Bool-cases
          (count == 1 || not (is_expired_pending_reservation row.pending_expires_at time))) [
            | inr e ↦ rw e (v, tt)
            | inl e ↦ rw e (
                bind_lift Round env s (read_attempt_count (column row.attempt_count)) _
                  (λ x _. (v, tt))
                  (λ n _. (
                    v,
                    elim (Bool-cases (count == 1)) [
                      | inl one ↦ rw one (good (ground (arith, one)))
                      | inr more ↦ rw more waits
                    ],
                  )))
          ]

    pending-Round :
        (row : Row) (s : Session Db)
        → text_eq row.payload_hash payload_hash ≡ true
        → row.execution_status ≡ pending
        → Known row s.db
        → Inv s.db
        → Round (reserve_pending col parse_json input token row env s)
    unfolding reserve_pending
    pending-Round row s hash status known v =
        bind_lift Round env s (read_row_id (column row.id)) _ (λ e _. (v, tt))
          (λ i same.
            bind_statement Round env s (reclaiming i) _ (λ e _. (v', tt))
              (outcome-Round i (reclaiming i d).0 _ row _
                (rw (read_row_id_lem row.id i same) (good_reclaimed row d v' known'))
                (rw (read_row_id_lem row.id i same) (good_pending row d v' known' hash status))
                (reclaim_inv i d v')))
      where
        d : Db
        d = env.before s.queries s.db

        v' : Inv d
        v' = before_inv s.queries s.db v

        known' : Known row d
        known' = before_known s.queries s.db row v known

    by_status-Round :
        (status : Status) (row : Row) (s : Session Db)
        → text_eq row.payload_hash payload_hash ≡ true
        → row.execution_status ≡ status
        → Known row s.db
        → Inv s.db
        → Round (reserve_by_status col parse_json input token status row env s)
    unfolding reserve_by_status
    by_status-Round pending row s hash status known v = pending-Round row s hash status known v
    by_status-Round completed row s hash status known v =
        finished-Round was_completed row s (λ x. good_completed row s.db x v known hash status) v
    by_status-Round failed row s hash status known v =
        finished-Round was_failed row s (λ x. good_failed row s.db x v known hash status) v

    found-Round :
        (found : Option Row) (s : Session Db)
        → ((row : Row) → found ≡ some row → Known row s.db)
        → Inv s.db
        → Round (reserve_found col parse_json input token found env s)
    unfolding reserve_found
    found-Round none s known v = (v, tt)
    found-Round (some row) s known v = elim (Bool-cases (text_eq row.payload_hash payload_hash)) [
      | inl e ↦ rw e (by_status-Round row.execution_status row s e refl (known row refl) v)
      | inr e ↦ rw e (v, tt)
    ]

    inserted-Round :
        (count insert_id : ℕ) (s : Session Db)
        → (count ≡ 1 → Good (reserved insert_id token) s.db)
        → Inv s.db
        → Round (reserve_inserted col parse_json input token count insert_id env s)
    unfolding reserve_inserted
    inserted-Round count insert_id s good v = elim (Bool-cases (count == 1)) [
      | inl e ↦ rw e (
          bind_lift Round env s (normalize_insert_id (whole insert_id)) _ (λ x _. (v, tt))
            (λ i same.
              (v, rw (normalize_insert_id_lem insert_id i same) (good (ground (arith, e))))))
      | inr e ↦ rw e (
          bind_statement Round env s (λ d. (find_row col key d.rows, d)) _
            (λ x _. (before_inv s.queries s.db v, tt))
            (found-Round _ _
              (λ row. find_known (env.before s.queries s.db) row (before_inv s.queries s.db v))
              (before_inv s.queries s.db v)))
    ]

    attempt-Round :
        (s : Session Db) → Inv s.db → Round (reserve_attempt col parse_json input token env s)
    unfolding reserve_attempt
    attempt-Round s v =
        bind_statement Round env s inserting _ (λ x _. (v', tt))
          (inserted-Round _ _ _ (good_inserted d v') (insert_inv d v'))
      where
        d : Db
        d = env.before s.queries s.db

        v' : Inv d
        v' = before_inv s.queries s.db v

    abbrev Finished : Result (Reservation T) × Session Db → Type 0
    Finished (r, s) = Inv s.db × ((x : Reservation T) → r ≡ ok x → Good x s.db)

    -- what the loop does with the outcome of a round
    after-Finished :
        (next : Query Db (Reservation T))
        → ((s : Session Db) → Inv s.db → Finished (next env s))
        → (r : Result (Option (Reservation T)) × Session Db) → Round r
        → Finished
            (resume r (λ x. elim x [ some reservation ↦ pure reservation | none ↦ next ]) env)
    after-Finished next h (raise e, s) p = (p.0, λ x eq. cc)
    after-Finished next h (ok none, s) p = h s p.0
    after-Finished next h (ok (some y), s) p = (p.0, λ x eq. ground (arith, eq, p.1))

    loop-Finished :
        (rounds : ℕ) (s : Session Db)
        → Inv s.db
        → Finished (reserve_loop col parse_json input token rounds env s)
    unfolding reserve_loop
    loop-Finished zero s v = (v, λ x eq. cc)
    loop-Finished (suc rounds) s v =
        after-Finished (reserve_loop col parse_json input token rounds) (loop-Finished rounds)
          (reserve_attempt col parse_json input token env s) (attempt-Round s v)

    -- The invariant holds after the call, and what it returns is good.
    pub reserve_rule :
        (s : Session Db) → Inv s.db → Finished (reserve col parse_json input token env s)
    unfolding reserve
    reserve_rule = loop-Finished 3
