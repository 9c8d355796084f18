-- ===== src/Idempotency/Contention.antt =====
-- A whole call of `reserve` by another client, run against a lease that has not expired.
use native.Mathlib.Decide.{dec_lt}
use automation_server_net.Base.{
  ℕ, ◌≤◌, ◌<◌, ◌≡◌, ◌≢◌, ◌⊎◌, ap, true, false, Option, some, inl, inr, arith, All-map, any_of_Any,
  Bool-cases, ◌==◌,
}
use automation_server_net.Js.Text.{Text}
use automation_server_net.Integration.{ok}
use automation_server_net.Session.{Environment, Session}
use automation_server_net.Idempotency.Table.{
  StepKey, Row, Db, Collation, insert_ignore, find_row, reclaim, same_key, is_reclaimable,
}
use automation_server_net.Idempotency.Rows.{
  affected_rows_zero, find_row_lem, same_key_trans, same_key_sym,
}
use automation_server_net.Idempotency.Repository.{
  ReservationInput, Reservation, reserved, still_pending, was_completed, was_failed, reserve,
}
use automation_server_net.Idempotency.Rounds.{ReserveRule, reserve_rule}
use automation_server_net.Idempotency.Interleaving.{
  Interferes, time-run, reclaim-apply, insert_ignore-apply, insert_operation, reclaim_operation,
  time-reclaim, time-insert_ignore,
}
use automation_server_net.Idempotency.Exclusive.{
  Held, HeldRow, Other, Guarded, Guarded-run, Guarded-apply,
}

module _ (col : Collation) (k : StepKey) (id : ℕ) (token : Text) (expiry : ℕ) where
  -- The statements that would give the record away affect no row.
  pub insert_ignore-Held :
      (k' : StepKey) (w q h t : Text) (d : Db)
      → same_key col k' k ≡ true
      → Held col k id token expiry d
      → (insert_ignore col k' w q h t d).0.0 ≡ 0
  unfolding insert_ignore
  insert_ignore-Held k' w q h t d e held = rw (
      any_of_Any (HeldRow col k id token expiry) (λ r. same_key col r.key k') d.rows
        (λ r x. same_key_trans col r.key k k' x.keyed (same_key_sym col k' k e)) held.exists)

  reclaim-Held :
      (w q h t : Text) (d : Db)
      → d.time < expiry
      → Held col k id token expiry d
      → (reclaim id w q h t d).0 ≡ 0
  unfolding reclaim
  reclaim-Held w q h t d early held =
      affected_rows_zero (is_reclaimable id d.time) d.rows
        (All-map _ (λ r. is_reclaimable id d.time r ≡ false) d.rows (λ r sole. go r sole) held.sole)
    where
      go :
          (r : Row)
          → ((same_key col r.key k ≡ true) ⊎ (r.id ≡ id) → HeldRow col k id token expiry r)
          → is_reclaimable id d.time r ≡ false
      go r sole = elim (Bool-cases (r.id == id)) [
        | inl e ↦ ground (arith, sole (inr (ground (arith, e))))
        | inr e ↦ rw e
      ]

module _ (col : Collation) (k : StepKey) (id : ℕ) (token : Text) (expiry : ℕ) {Json T : Type 0}
    (parse_json : Text → Option Json) (input : ReservationInput Json T) (t : Text)
    (env : Environment Db) (others : Interferes col (Other col k id token expiry) env)
    (other : Other col k id token expiry t) (wanted : same_key col input.key k ≡ true) where
  open input use {workflow_id, request_id, payload_hash}

  abbrev Guards : Db → Type 0
  Guards = Guarded col k id token expiry

  -- while the lease runs, a row that was read under the key is the one that is held
  abbrev IsOwn : Row → Db → Type 0
  IsOwn row d = d.time < expiry → row.id ≡ id

  -- a reservation of the record means that the lease has expired
  abbrev Barred : Reservation T → Db → Type 0
  Barred (reserved i t') d = expiry ≤ d.time
  Barred (still_pending i u) d = Unit
  Barred (was_completed i u x) d = Unit
  Barred (was_failed i u x) d = Unit

  before-Guards : (n : ℕ) (d : Db) → Guards d → Guards (env.before n d)
  before-Guards n d g =
      rw (others.are_run n d)
        (Guarded-run col k id token expiry (others.operations n d) d (others.are_by n d) g)

  before-IsOwn : (n : ℕ) (d : Db) (row : Row) → Guards d → IsOwn row d → IsOwn row (env.before n d)
  before-IsOwn n d row g own = λ early. own (
      omega (
        arith,
        others.are_run n d,
        ap (λ (x : Db). x.time) (others.are_run n d),
        time-run col (others.operations n d) d,
      ))

  reclaim-late :
      (row : Row) (d : Db)
      → Guards d
      → IsOwn row d
      → (reclaim row.id workflow_id request_id payload_hash t d).0 ≡ 1
      → expiry ≤ d.time
  reclaim-late row d g own one = elim (dec_lt d.time expiry) [
    | no late ↦ omega arith
    | yes early ↦
        let zero_rows =
          reclaim-Held col k id token expiry workflow_id request_id payload_hash t d early
            (g early) in
        absurd (ground (arith, own early, one, zero_rows))
  ]

  insert-late :
      (d : Db)
      → Guards d
      → (insert_ignore col input.key workflow_id request_id payload_hash t d).0.0 ≡ 1
      → expiry ≤ d.time
  insert-late d g one = elim (dec_lt d.time expiry) [
    | no late ↦ omega arith
    | yes early ↦
        let zero_rows =
          insert_ignore-Held col k id token expiry input.key workflow_id request_id payload_hash t d
            wanted (g early) in
        absurd (omega arith)
  ]

  find-IsOwn :
      (d : Db) (row : Row) → Guards d → find_row col input.key d.rows ≡ some row → IsOwn row d
  find-IsOwn d row g e = λ early.
      let held = g early in
      let (sole, keyed) =
        find_row_lem col
          (λ r. (same_key col r.key k ≡ true) ⊎ (r.id ≡ id) → HeldRow col k id token expiry r)
          input.key d.rows e held.sole in
      (sole (inl (same_key_trans col row.key input.key k keyed wanted))).identified

  contention_rule : ReserveRule col parse_json input t env
  contention_rule = record {
    Inv = Guards;
    Known = IsOwn;
    Good = Barred;
    before_inv = before-Guards;
    before_known = before-IsOwn;
    insert_inv = λ d g.
        rw (insert_ignore-apply col input.key workflow_id request_id payload_hash t d) (
          Guarded-apply col k id token expiry
            (insert_operation input.key workflow_id request_id payload_hash t) d other g);
    reclaim_inv = λ i d g. rw (reclaim-apply col i workflow_id request_id payload_hash t d) (
        Guarded-apply col k id token expiry
          (reclaim_operation i workflow_id request_id payload_hash t) d other g);
    find_known = find-IsOwn;
    good_inserted = λ d g one. omega (
      arith,
      insert-late d g one,
      time-insert_ignore col input.key workflow_id request_id payload_hash t d,
    );
    good_reclaimed = λ row d g own one. omega (
      arith,
      reclaim-late row d g own one,
      time-reclaim row.id workflow_id request_id payload_hash t d,
    );
    good_pending = λ row d g own hash status. tt;
    good_completed = λ row d x g own hash status stored. tt;
    good_failed = λ row d x g own hash status stored. tt;
  }

  -- A call of `reserve` by another client than the one that holds the lease of the step, whatever
  -- statements of other clients it is interleaved with, that ends before the lease expires has not
  -- reserved the step, and the record is still held by its owner.
  pub reserve_excluded :
      (s : Session Db)
      → Held col k id token expiry s.db
      → (reserve col parse_json input t env s).1.db.time < expiry
      → Held col k id token expiry (reserve col parse_json input t env s).1.db
        × ((i : ℕ) (t' : Text) → (reserve col parse_json input t env s).0 ≢ ok (reserved i t'))
  unfolding contention_rule
  reserve_excluded s held early =
      let (guarded, good) =
        reserve_rule col parse_json input t env contention_rule s (λ before. held) in
      (guarded early, λ i t' e. omega (arith, good (reserved i t') e))
