-- ===== src/Idempotency/Table.antt =====
-- The rows of `workflow_step_idempotency` and the statements that the repository executes, each
-- one atomic. How the database compares texts (its collation) is a parameter.
use automation_server_net.Base.{
  ℕ, suc, ◌+◌, ◌≡◌, Bool, true, false, ◌&&◌, Option, none, some, List, [], ◌∷◌, ◌++◌, ◌==◌, leb,
  any, if◌then◌else◌,
}
use automation_server_net.Js.Text.{Text}

-- `WorkflowStepExecutionStatus`
pub data Status : Type 0 where
  pending completed failed : Status

-- The columns of the unique key.
pub record StepKey : Type 0 where
  pub workflow_name : Text
  pub step_name : Text
  pub idempotency_key : Text

-- `WorkflowStepIdempotencyRow`; times are in seconds.
pub record Row : Type 0 where
  pub id : ℕ
  pub key : StepKey
  pub workflow_id : Text
  pub request_id : Text
  pub payload_hash : Text
  pub execution_status : Status
  pub lease_token : Option Text
  pub attempt_count : ℕ
  pub last_attempted_at : Option ℕ
  pub pending_expires_at : Option ℕ
  pub external_reference : Option Text
  pub result_payload_json : Option Text
  pub created_at : ℕ
  pub updated_at : ℕ
  pub completed_at : Option ℕ

pub record Db : Type 0 where
  pub rows : List Row
  -- the next value of AUTO_INCREMENT
  pub next_id : ℕ
  -- `UTC_TIMESTAMP()`
  pub time : ℕ

-- The equality of texts inside the database.
pub record Collation : Type 0 where
  pub same : Text → Text → Bool
  pub same_refl : (s : Text) → same s s ≡ true
  pub same_sym : (s t : Text) → same s t ≡ true → same t s ≡ true
  pub same_trans : (s t u : Text) → same s t ≡ true → same t u ≡ true → same s u ≡ true

-- `PENDING_RESERVATION_TTL_SECONDS`
abbrev pub pending_reservation_ttl_seconds : ℕ
pending_reservation_ttl_seconds = 90

abbrev pub is_pending : Status → Bool
is_pending pending = true
is_pending completed = false
is_pending failed = false

-- `pending_expires_at IS NULL OR pending_expires_at <= time`
abbrev pub is_due : Option ℕ → ℕ → Bool
is_due none time = true
is_due (some e) time = leb e time

-- `UPDATE … WHERE p`, its affected rows, and `DELETE … WHERE p`.
abbrev pub update_row : (Row → Bool) → (Row → Row) → Row → Row
update_row p f r = if p r then f r else r

abbrev pub update_rows : (Row → Bool) → (Row → Row) → List Row → List Row
update_rows p f [] = []
update_rows p f (r ∷ rs) = update_row p f r ∷ update_rows p f rs

abbrev pub affected_rows : (Row → Bool) → List Row → ℕ
affected_rows p [] = 0
affected_rows p (r ∷ rs) = if p r then suc (affected_rows p rs) else affected_rows p rs

abbrev pub delete_rows : (Row → Bool) → List Row → List Row
delete_rows p [] = []
delete_rows p (r ∷ rs) = if p r then delete_rows p rs else r ∷ delete_rows p rs

-- The row that the `INSERT IGNORE` writes.
abbrev pub new_row : (k : StepKey) (workflow_id request_id payload_hash token : Text) → Db → Row
new_row k workflow_id request_id payload_hash token d = record {
  id = d.next_id;
  key = k;
  workflow_id = workflow_id;
  request_id = request_id;
  payload_hash = payload_hash;
  execution_status = pending;
  lease_token = some token;
  attempt_count = 1;
  last_attempted_at = some d.time;
  pending_expires_at = some (d.time + pending_reservation_ttl_seconds);
  external_reference = none;
  result_payload_json = none;
  created_at = d.time;
  updated_at = d.time;
  completed_at = none;
}

abbrev pub is_reclaimable : ℕ → ℕ → Row → Bool
is_reclaimable id time r =
    r.id == id && is_pending r.execution_status && is_due r.pending_expires_at time

abbrev pub reclaimed : (workflow_id request_id payload_hash token : Text) → ℕ → Row → Row
reclaimed workflow_id request_id payload_hash token time r = record r {
  workflow_id = workflow_id;
  request_id = request_id;
  payload_hash = payload_hash;
  lease_token = some token;
  attempt_count = r.attempt_count + 1;
  last_attempted_at = some time;
  updated_at = time;
  pending_expires_at = some (time + pending_reservation_ttl_seconds);
  completed_at = none;
}

-- the `UPDATE` of `tryReclaimExpiredPendingReservation`
unfoldable pub reclaim : (id : ℕ) (workflow_id request_id payload_hash token : Text) → Db → ℕ × Db
reclaim id workflow_id request_id payload_hash token d =
    let p = is_reclaimable id d.time in
    (
      affected_rows p d.rows,
      record d {
        rows = update_rows p (reclaimed workflow_id request_id payload_hash token d.time) d.rows;
      },
    )

abbrev pub finalized : Status → Option Text → Text → ℕ → Row → Row
finalized status reference json time r = record r {
  execution_status = status;
  lease_token = none;
  external_reference = reference;
  result_payload_json = some json;
  updated_at = time;
  pending_expires_at = none;
  completed_at = some time;
}

module _ (col : Collation) where
  open col use {same}

  abbrev pub same_key : StepKey → StepKey → Bool
  same_key j k =
      same j.workflow_name k.workflow_name
      && same j.step_name k.step_name
      && same j.idempotency_key k.idempotency_key

  -- `lease_token = ?`, which no NULL meets
  abbrev pub has_lease : Text → Option Text → Bool
  has_lease token none = false
  has_lease token (some t) = same t token

  -- The `INSERT IGNORE` of `reserveWorkflowStepIdempotency`: affected rows and insert id.
  -- The key and the names are taken to fit their VARCHAR columns.
  unfoldable pub insert_ignore :
      (k : StepKey) (workflow_id request_id payload_hash token : Text) → Db → (ℕ × ℕ) × Db
  insert_ignore k workflow_id request_id payload_hash token d =
      if any (λ r. same_key r.key k) d.rows then ((0, 0), d) else (
        (1, d.next_id),
        record d {
          rows = d.rows ++ (new_row k workflow_id request_id payload_hash token d ∷ []);
          next_id = suc d.next_id;
        },
      )

  -- the `SELECT` of `findWorkflowStepIdempotencyRow`
  unfoldable pub find_row : StepKey → List Row → Option Row
  find_row k [] = none
  find_row k (r ∷ rs) = if same_key r.key k then some r else find_row k rs

  abbrev pub is_leased : StepKey → Text → Row → Bool
  is_leased k token r =
      same_key r.key k && is_pending r.execution_status && has_lease token r.lease_token

  -- the `UPDATE` of `finalizeWorkflowStepIdempotency`
  unfoldable pub finalize :
      Status → (k : StepKey) (token : Text) (reference : Option Text) (json : Text) → Db → ℕ × Db
  finalize status k token reference json d =
      let p = is_leased k token in
      (
        affected_rows p d.rows,
        record d { rows = update_rows p (finalized status reference json d.time) d.rows },
      )

  -- the `DELETE` of `cancelWorkflowStepIdempotencyReservation`
  unfoldable pub cancel : (k : StepKey) (token : Text) → Db → ℕ × Db
  cancel k token d =
      let p = is_leased k token in
      (affected_rows p d.rows, record d { rows = delete_rows p d.rows })
