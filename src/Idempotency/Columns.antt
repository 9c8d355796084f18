-- ===== src/Idempotency/Columns.antt =====
-- What the conversions of the repository make of the columns of a row.
use automation_server_net.Base.{ℕ, ◌<◌, ◌≤◌, ◌≡◌, Option, some, arith}
use automation_server_net.Js.Number.{whole, max_safe_integer}
use automation_server_net.Js.Text.{Text}
use automation_server_net.Integration.{ok}
use automation_server_net.Idempotency.Table.{Row}
use automation_server_net.Idempotency.Repository.{
  column, read_row_id, read_attempt_count, normalize_insert_id, read_stored_result, parse_stored,
}

-- The id that the driver hands over is the id of the row.
pub read_row_id_lem : (n i : ℕ) → read_row_id (column n) ≡ ok i → i ≡ n
unfolding read_row_id
read_row_id_lem n i e = ground arith

pub normalize_insert_id_lem : (n i : ℕ) → normalize_insert_id (whole n) ≡ ok i → i ≡ n
unfolding normalize_insert_id
normalize_insert_id_lem n i e = ground arith

pub read_row_id-column : (n : ℕ) → 0 < n → n ≤ max_safe_integer → read_row_id (column n) ≡ ok n
unfolding read_row_id
read_row_id-column n p b = ground arith

pub read_attempt_count-column :
    (n : ℕ) → 0 < n → n ≤ max_safe_integer → read_attempt_count (column n) ≡ ok n
unfolding read_attempt_count
read_attempt_count-column n p b = ground arith

pub read_stored_result-some :
    {Json T : Type 0} (parse_json : Text → Option Json) (parse_result : Json → Option T) (r : Row)
    (s : Text)
    → r.result_payload_json ≡ some s
    → read_stored_result parse_json parse_result r ≡ parse_stored parse_json parse_result s
unfolding read_stored_result
read_stored_result-some parse_json parse_result r s e = rw e
