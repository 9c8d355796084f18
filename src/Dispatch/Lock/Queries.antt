-- ===== src/Dispatch/Lock/Queries.antt =====
-- The three activities on the lock of an attempt, as queries to the idempotency repository.
use automation_server_net.Base.{Option, some, [], ◌∷◌}
use automation_server_net.Js.Text.{Text, codes}
use automation_server_net.Integration.{attempt_lock_failed}
use automation_server_net.Session.{Query, lift, rethrow, pure, ◌>>=◌}
use automation_server_net.Idempotency.Table.{Db, Collation}
use automation_server_net.Idempotency.Repository.{
  ReservationInput, reserve, mark_completed, cancel_reservation,
}
use automation_server_net.Nfe.Activities.{activity_failure}
use automation_server_net.Dispatch.Mail.{LockResult}
use automation_server_net.Dispatch.Lock.{
  text_value, Json, json_object, StoredResult, status_name, parse_attempt_lock_stored_result,
  read_required_text, build_attempt_lock_idempotency_key, AcquireInput, CompleteInput, CancelInput,
  Attempt, read_attempt, lock_key, lock_result,
}

-- the result that is stored, before `JSON.stringify`
abbrev pub stored_json : StoredResult → Json
stored_json r = json_object (
    (codes "finalStatus", text_value (status_name r.final_status))
    ∷ (codes "releasedAt", text_value r.released_at)
    ∷ [])

module _ (col : Collation) where
  module _ (parse_json : Text → Option Json) (payload_hash : Attempt → Text) (token : Text) where
    abbrev pub lock_reservation :
        (request_id workflow_id : Text)
        → Attempt
        → (key : Text) → ReservationInput Json StoredResult
    lock_reservation request_id workflow_id a key = record {
      key = lock_key key;
      workflow_id = workflow_id;
      request_id = request_id;
      payload_hash = payload_hash a;
      parse_result = parse_attempt_lock_stored_result;
    }

    -- the reservation of an attempt
    abbrev pub reserve_lock :
        (request_id workflow_id : Text) → Attempt → (key : Text) → Query Db LockResult
    reserve_lock request_id workflow_id a key =
        reserve col parse_json (lock_reservation request_id workflow_id a key) token >>= λ r.
        pure (lock_result r)

    -- the `try` of `acquireNfeEmailDispatchSaleAttemptLockActivity`
    unfoldable pub acquire_checked : (request_id workflow_id : Text) → Attempt → Query Db LockResult
    acquire_checked request_id workflow_id a = rethrow (activity_failure attempt_lock_failed) (
        lift (build_attempt_lock_idempotency_key a.sale_id a.attempt_number a.scope)
        >>= reserve_lock request_id workflow_id a)

    -- `acquireNfeEmailDispatchSaleAttemptLockActivity`; `token` is the `randomUUID()` of the repository
    unfoldable pub acquire_attempt_lock : AcquireInput → Query Db LockResult
    acquire_attempt_lock input = do
      request_id ← lift (read_required_text input.request_id)
      workflow_id ← lift (read_required_text input.workflow_id)
      a ← lift (read_attempt input.sale_id input.attempt_number input.runtime_scope)
      acquire_checked request_id workflow_id a

  -- `completeNfeEmailDispatchSaleAttemptLockActivity`; `now_text` is `new Date().toISOString()`
  unfoldable pub complete_attempt_lock :
      (stringify : Json → Text) (now_text : Text) → CompleteInput → Query Db (Unit {0})
  complete_attempt_lock stringify now_text input = do
    workflow_id ← lift (read_required_text input.workflow_id)
    a ← lift (read_attempt input.sale_id input.attempt_number input.runtime_scope)
    lease ← lift (read_required_text input.lease_token)
    rethrow (activity_failure attempt_lock_failed) (
        lift (build_attempt_lock_idempotency_key a.sale_id a.attempt_number a.scope) >>= λ key.
        mark_completed col (record {
          key = lock_key key;
          lease_token = lease;
          result_json =
              stringify (
                stored_json (record { final_status = input.final_status; released_at = now_text }));
          external_reference = some workflow_id;
        }))

  -- `cancelNfeEmailDispatchSaleAttemptLockActivity`
  unfoldable pub cancel_attempt_lock : CancelInput → Query Db (Unit {0})
  cancel_attempt_lock input = do
    a ← lift (read_attempt input.sale_id input.attempt_number input.runtime_scope)
    lease ← lift (read_required_text input.lease_token)
    rethrow (activity_failure attempt_lock_failed) (
        lift (build_attempt_lock_idempotency_key a.sale_id a.attempt_number a.scope) >>= λ key.
        cancel_reservation col (lock_key key) lease)
