-- ===== src/Idempotency/Rows.antt =====
-- What the statements of the repository do to properties of the rows, and the equality of keys.
use automation_server_net.Base.{
  ◌≡◌, refl, Bool, true, false, List, [], ◌∷◌, inl, inr, arith, All, Any, any, Bool-cases, some,
}
use automation_server_net.Idempotency.Table.{
  Row, StepKey, Collation, update_row, update_rows, delete_rows, affected_rows, same_key, find_row,
}

module _ (P Q : Row → Type 0) (p : Row → Bool) where
  pub All-update_rows :
      (f : Row → Row) (rs : List Row)
      → ((r : Row) → P r → Q (update_row p f r))
      → All P rs
      → All Q (update_rows p f rs)
  All-update_rows f [] h a = tt
  All-update_rows f (r ∷ rs) h a = (h r a.0, All-update_rows f rs h a.1)

  pub Any-update_rows :
      (f : Row → Row) (rs : List Row)
      → ((r : Row) → P r → Q (update_row p f r))
      → Any P rs
      → Any Q (update_rows p f rs)
  Any-update_rows f [] h a = elim a [ ]
  Any-update_rows f (r ∷ rs) h (inl a) = inl (h r a)
  Any-update_rows f (r ∷ rs) h (inr a) = inr (Any-update_rows f rs h a)

module _ (P : Row → Type 0) (p : Row → Bool) where
  pub All-delete_rows : (rs : List Row) → All P rs → All P (delete_rows p rs)
  All-delete_rows [] a = tt
  All-delete_rows (r ∷ rs) a = elim (Bool-cases (p r)) [
    | inl e ↦ rw e (All-delete_rows rs a.1)
    | inr e ↦ rw e (a.0, All-delete_rows rs a.1)
  ]

  pub Any-delete_rows :
      (rs : List Row) → ((r : Row) → P r → p r ≡ false) → Any P rs → Any P (delete_rows p rs)
  Any-delete_rows [] h a = elim a [ ]
  Any-delete_rows (r ∷ rs) h (inl a) = rw (h r a) (inl a)
  Any-delete_rows (r ∷ rs) h (inr a) = elim (Bool-cases (p r)) [
    | inl e ↦ rw e (Any-delete_rows rs h a)
    | inr e ↦ rw e (inr (Any-delete_rows rs h a))
  ]

-- No row meets the condition of a statement that affects none.
pub affected_rows_zero :
    (p : Row → Bool) (rs : List Row) → All (λ r. p r ≡ false) rs → affected_rows p rs ≡ 0
affected_rows_zero p [] a = refl
affected_rows_zero p (r ∷ rs) a = rw a.0 (affected_rows_zero p rs a.1)

module _ (col : Collation) where
  open col use {same, same_refl, same_sym, same_trans}

  pub same_key_refl : (k : StepKey) → same_key col k k ≡ true
  same_key_refl k =
      ground (arith, same_refl k.workflow_name, same_refl k.step_name, same_refl k.idempotency_key)

  pub same_key_sym : (j k : StepKey) → same_key col j k ≡ true → same_key col k j ≡ true
  same_key_sym j k h = ground (
    arith,
    same_sym j.workflow_name k.workflow_name,
    same_sym j.step_name k.step_name,
    same_sym j.idempotency_key k.idempotency_key,
  )

  pub same_key_trans :
      (i j k : StepKey)
      → same_key col i j ≡ true
      → same_key col j k ≡ true
      → same_key col i k ≡ true
  same_key_trans i j k h g = ground (
    arith,
    same_trans i.workflow_name j.workflow_name k.workflow_name,
    same_trans i.step_name j.step_name k.step_name,
    same_trans i.idempotency_key j.idempotency_key k.idempotency_key,
  )

  -- The row that the `SELECT` finds has the key, and what all rows have.
  pub find_row_lem :
      (P : Row → Type 0) (k : StepKey) (rs : List Row) {r : Row}
      → find_row col k rs ≡ some r
      → All P rs
      → P r × (same_key col r.key k ≡ true)
  unfolding find_row
  find_row_lem P k [] e a = absurd (ground arith)
  find_row_lem P k (r ∷ rs) {r = r'} e a = elim (Bool-cases (same_key col r.key k)) [
    | inl h ↦ ground (arith, e, h, a)
    | inr h ↦ find_row_lem P k rs (ground (arith, e, h)) a.1
  ]

  -- and it is one of the rows
  pub find_row-Any :
      (k : StepKey) (rs : List Row) {r : Row}
      → find_row col k rs ≡ some r
      → Any (λ s. (same_key col s.key k ≡ true) × (s.id ≡ r.id)) rs
  unfolding find_row
  find_row-Any k [] e = absurd (ground (arith, e))
  find_row-Any k (s ∷ rs) {r} e = elim (Bool-cases (same_key col s.key k)) [
    | inl h ↦ inl (h, ground (arith, e, h))
    | inr h ↦ inr (find_row-Any k rs {r = r} (ground (arith, e, h)))
  ]

  -- The `SELECT` finds a row if there is one with the key.
  pub find_row-some :
      (k : StepKey) (rs : List Row)
      → any (λ r. same_key col r.key k) rs ≡ true
      → (r : Row) × (find_row col k rs ≡ some r)
  unfolding find_row
  find_row-some k [] e = absurd (ground (arith, e))
  find_row-some k (r ∷ rs) e = elim (Bool-cases (same_key col r.key k)) [
    | inl h ↦ (r, rw h)
    | inr h ↦ rw h (find_row-some k rs (ground (arith, e, h)))
  ]
