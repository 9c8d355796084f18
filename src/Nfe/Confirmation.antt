-- ===== src/Nfe/Confirmation.antt =====
-- A finalization activity that runs again, after the sale was recorded as SENT.
use automation_server_net.Base.{
  ℕ, ◌≡◌, ◌<◌, ◌≤◌, ◌⊎◌, Bool-cases, refl, inl, inr, Bool, true, false, Option, none, some, List,
  [], ◌∷◌, arith, ltb, leb, ◌==◌, every, All, Any, change, update_where, count_where, find_where,
}
use automation_server_net.Js.Number.{whole, max_safe_integer}
use automation_server_net.Js.Text.{Text}
use automation_server_net.Integration.{Failure, Result, ok}
use automation_server_net.Session.{
  Environment, Session, lift, resume, caught, bind_statement, statement, ◌>>=◌,
}
use automation_server_net.Idempotency.Table.{Collation}
use automation_server_net.RuntimePolicy.{normalize_automation_runtime_scope}
use automation_server_net.RuntimePolicy.Scopes.{normalize_scope_idem}
use automation_server_net.Nfe.Sale.{
  SaleStatus, pending, in_progress, sent, failed_transient, failed_final, delivery_unknown,
  is_final, Sale, SaleDb, meets_checks,
}
use automation_server_net.Nfe.DateTime.{
  UtcFields, Dates, text, format_date_time3, normalize_date_time3,
}
use automation_server_net.Nfe.Validation.{
  normalize_final_status, normalize_optional_sent_at, normalize_optional_error_message,
  normalize_runtime_scope, read_row_number,
}
use automation_server_net.Nfe.Statements.{
  update_sales, is_sale, is_attempt, finalized_sale, finalize_update, select_sale,
}
use automation_server_net.Nfe.Rows.{Snapshot, FinalizeResult, noop, map_sale_status_row}
use automation_server_net.Nfe.Repository.{finalize_sale, find_sale_status, finalize_outcome}
use automation_server_net.Nfe.Operations.{Holds}
use automation_server_net.Nfe.Activities.{
  FinalizeActivityInput, finalize_sale_activity, resolve_activity_runtime_scope, finalization,
  require_started_at, resolve_effective_final_status, finalize_activity_outcome,
  ensure_idempotent_finalization,
}

-- An update that selects no row changes nothing and reports 0.
update_where-none :
    (p : Sale → Bool) (f : Sale → Sale) (sales : List Sale)
    → All (λ s. p s ≡ false) sales
    → (update_where p f sales ≡ sales) × (count_where p sales ≡ 0)
update_where-none p f [] h = (refl, refl)
update_where-none p f (s ∷ ss) h =
    let (same, zero_rows) = update_where-none p f ss h.1 in
    (rw (change, h.0) (rw same), rw (count_where, h.0) zero_rows)

update_sales-none :
    (p : Sale → Bool) (f : Sale → Sale) (d : SaleDb)
    → All (λ s. p s ≡ false) d.sales
    → every meets_checks d.sales ≡ true
    → update_sales p f d ≡ (ok 0, d)
update_sales-none p f d h checked =
    let (same, zero_rows) = update_where-none p f d.sales h in rw (same, checked, zero_rows)

-- The row is in the table, no other row has its id, and the CHECK constraints hold.
abbrev pub Alone : Sale → SaleDb → Type 0
Alone x d = Holds x d × All (λ s. s.id ≡ x.id → s ≡ x) d.sales × (every meets_checks d.sales ≡ true)

module _ (col : Collation) (scope : Text) (x : Sale) (done : x.status ≡ sent)
    (named : is_sale col scope x.id x ≡ true) where
  none_attempted :
      (started : Text) (sales : List Sale)
      → All (λ s. s.id ≡ x.id → s ≡ x) sales
      → All (λ s. is_attempt col scope x.id started s ≡ false) sales
  none_attempted started [] h = tt
  none_attempted started (s ∷ ss) h =
      (go (Bool-cases (s.id == x.id)), none_attempted started ss h.1)
    where
      go :
          ((s.id == x.id) ≡ true) ⊎ ((s.id == x.id) ≡ false)
          → is_attempt col scope x.id started s ≡ false
      go (inl e) = rw (h.0 (ground (arith, e)), done) (ground arith)
      go (inr e) = ground (arith, e)

  find_where-Alone :
      (sales : List Sale)
      → Any (λ s. s ≡ x) sales
      → All (λ s. s.id ≡ x.id → s ≡ x) sales
      → find_where (is_sale col scope x.id) sales ≡ some x
  find_where-Alone [] e h = elim e [ ]
  find_where-Alone (s ∷ ss) (inl e) h = rw e (rw (find_where, named))
  find_where-Alone (s ∷ ss) (inr e) h =
      let rest = find_where-Alone ss e h.1 in
      elim (Bool-cases (is_sale col scope x.id s)) [
        | inl y ↦ rw (find_where, y) (rw (h.0 (ground (arith, y))))
        | inr y ↦ rw (find_where, y) rest
      ]

safe-leb : (n : ℕ) → n ≤ max_safe_integer → leb n max_safe_integer ≡ true
safe-leb n h = ground arith

ltb-positive : (n : ℕ) → 0 < n → ltb 0 n ≡ true
ltb-positive n h = ground arith

abbrev pub attempt_input :
    (x : Sale) (attempts max : ℕ) (started : Text) (error scope : Option Text)
    → FinalizeActivityInput
attempt_input x attempts max started error scope = record {
  sale_id = whole x.id;
  attempt_started_at = started;
  attempt_count = whole attempts;
  max_send_attempts = whole max;
  status = sent;
  error_message = error;
  runtime_scope = scope;
}

module _ (col : Collation) (dates : Dates) (env : Environment SaleDb) (x : Sale) (scope at : Text)
    (faultless : (n : ℕ) → env.fault n ≡ none)
    (keeps : (n : ℕ) (d : SaleDb) → Alone x d → Alone x (env.before n d)) (done : x.status ≡ sent)
    (dated : x.sent_at ≡ some at) (named : is_sale col scope x.id x ≡ true)
    (countable : (x.id ≤ max_safe_integer) × (x.attempt_count ≤ max_safe_integer))
    (scoped : normalize_runtime_scope scope ≡ ok scope) where
  -- the snapshot of the row
  abbrev pub recorded : Snapshot
  recorded = record {
    sale_id = x.id;
    status = sent;
    attempt_count = x.attempt_count;
    last_attempt_at = x.last_attempt_at;
    sent_at = some at;
    last_error_message = x.last_error_message;
    updated_at = x.updated_at;
  }

  map_sale_status_row-recorded : map_sale_status_row x ≡ ok recorded
  unfolding map_sale_status_row read_row_number
  map_sale_status_row-recorded =
      rw (done, dated, safe-leb x.id (countable.0), safe-leb x.attempt_count (countable.1))

  abbrev Confirms : {A : Type 0} → A → Result A × Session SaleDb → Type 0
  Confirms a r = r.0 ≡ ok a

  find_sale_status-Alone :
      (s : Session SaleDb)
      → Alone x s.db
      → (find_sale_status col dates x.id scope env s).0 ≡ ok (some recorded)
  unfolding find_sale_status select_sale
  find_sale_status-Alone s alone =
      let (present, sole, checked) = keeps s.queries s.db alone in
      rw scoped (
        bind_statement (Confirms (some recorded)) env s
          (λ d. (find_where (is_sale col scope x.id) d.sales, d)) _
          (λ e fault. cc (fault, faultless s.queries))
          (rw (
            find_where-Alone col scope x done named (env.before s.queries s.db).sales present sole,
            map_sale_status_row-recorded,
          )))

  module _ (begun started : Text) (begins : normalize_date_time3 dates (text begun) ≡ ok started)
      (now : UtcFields) (error : Option Text) where
    read_back :
        (r : Result (Option Snapshot) × Session SaleDb)
        → r.0 ≡ ok (some recorded)
        → Confirms
            (noop (some recorded))
            (resume r (λ snapshot. lift (finalize_outcome 0 snapshot)) env)
    unfolding finalize_outcome
    read_back (q, s) e = rw e

    finalize_update-Alone :
        (wanted : SaleStatus) (sent_at stored : Option Text) (d : SaleDb)
        → Alone x d
        → finalize_update col scope x.id started wanted sent_at stored d ≡ (ok 0, d)
    unfolding finalize_update
    finalize_update-Alone wanted sent_at stored d alone =
        update_sales-none (is_attempt col scope x.id started)
          (finalized_sale wanted sent_at stored d.time) d
          (none_attempted col scope x done named started d.sales (alone.1)) (alone.2)

    -- the two queries of the call
    queried-noop :
        (wanted : SaleStatus) (sent_at stored : Option Text) (s : Session SaleDb)
        → Alone x s.db
        → Confirms (noop (some recorded)) (
            (statement (finalize_update col scope x.id started wanted sent_at stored) >>= λ result.
            lift result >>= λ rows. find_sale_status col dates x.id scope >>= λ snapshot.
            lift (finalize_outcome rows snapshot))
              env s)
    queried-noop wanted sent_at stored s alone =
        let alone' = keeps s.queries s.db alone in
        bind_statement (Confirms (noop (some recorded))) env s
          (finalize_update col scope x.id started wanted sent_at stored) _
          (λ e fault. cc (fault, faultless s.queries))
          (rw (finalize_update-Alone wanted sent_at stored (env.before s.queries s.db) alone')
            (read_back _ (find_sale_status-Alone _ alone')))

    -- A finalization of a sale that was sent, with whatever final status, changes nothing and tells of it.
    pub finalize_sale-noop :
        (wanted : SaleStatus)
        → is_final wanted ≡ true
        → (s : Session SaleDb) → Alone x s.db
        → Confirms (noop (some recorded)) (
            finalize_sale col dates
              (finalization col dates x.id begun wanted scope error now)
              env
              s)
    unfolding finalize_sale normalize_final_status normalize_optional_sent_at normalize_date_time3
    finalize_sale-noop pending final s alone = cc (final)
    finalize_sale-noop in_progress final s alone = cc (final)
    finalize_sale-noop sent final s alone =
        rw (begins, scoped)
          (queried-noop sent (some (format_date_time3 now)) (normalize_optional_error_message error)
            s alone)
    finalize_sale-noop failed_transient final s alone =
        rw (begins, scoped)
          (queried-noop failed_transient none (normalize_optional_error_message error) s alone)
    finalize_sale-noop failed_final final s alone =
        rw (begins, scoped)
          (queried-noop failed_final none (normalize_optional_error_message error) s alone)
    finalize_sale-noop delivery_unknown final s alone =
        rw (begins, scoped)
          (queried-noop delivery_unknown none (normalize_optional_error_message error) s alone)

    outcome_back :
        (id attempts : ℕ) (now_text : Text) (f : Failure → Failure)
        (r : Result FinalizeResult × Session SaleDb)
        → Confirms (noop (some recorded)) r
        → Confirms
            (record {
              sale_id = id;
              status = sent;
              attempt_count = attempts;
              error_message = error;
              sent_at = some at;
            })
            (caught f (
              resume r
                (λ result. lift (finalize_activity_outcome id attempts sent error now_text result))
                env))
    unfolding finalize_activity_outcome ensure_idempotent_finalization
    outcome_back id attempts now_text f (q, s) e = rw e

-- A finalization activity that reports SENT for a sale that is recorded as SENT already, as when the
-- activity is tried again after its answer was lost, succeeds and returns the recorded time of sending:
-- if its input is valid, no query fails, and other clients leave the row in place and its id unique.
pub finalize_sale_activity_again :
    (col : Collation) (dates : Dates) (env : Environment SaleDb) (x : Sale) (scope at : Text)
    (now : UtcFields) (now_text : Text) (attempts max : ℕ) (begun started t : Text)
    (error given : Option Text) (s : Session SaleDb)
    → ((n : ℕ) → env.fault n ≡ none)
    → ((n : ℕ) (d : SaleDb) → Alone x d → Alone x (env.before n d))
    → x.status ≡ sent
    → x.sent_at ≡ some at
    → is_sale col scope x.id x ≡ true
    → (x.id ≤ max_safe_integer) × (x.attempt_count ≤ max_safe_integer)
    → (0 < x.id) × (0 < attempts) × (0 < max)
    → normalize_automation_runtime_scope given ≡ ok scope
    → require_started_at begun ≡ ok started
    → normalize_date_time3 dates (text started) ≡ ok t
    → Alone x s.db
    → (finalize_sale_activity col dates now now_text
        (attempt_input x attempts max begun error given)
        env
        s).0
      ≡ ok (record {
        sale_id = x.id;
        status = sent;
        attempt_count = attempts;
        error_message = normalize_optional_error_message error;
        sent_at = some at;
      })
unfolding finalize_sale_activity resolve_activity_runtime_scope resolve_effective_final_status
    normalize_runtime_scope
finalize_sale_activity_again col dates env x scope at now now_text attempts max begun started t
      error given s faultless keeps done dated named countable positive scoped starts begins alone =
    rw
      (
        ltb-positive x.id (positive.0),
        ltb-positive attempts (positive.1),
        ltb-positive max (positive.2),
        starts,
        scoped,
      )
      (outcome_back col dates env x scope at faultless keeps done dated named countable
        (rw (normalize_scope_idem given scope scoped)) started t begins now
        (normalize_optional_error_message error) x.id attempts now_text _ _
        (finalize_sale-noop col dates env x scope at faultless keeps done dated named countable
          (rw (normalize_scope_idem given scope scoped)) started t begins now
          (normalize_optional_error_message error) sent refl s alone))
