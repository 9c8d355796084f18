-- ===== src/Idempotency/Interleaving.antt =====
-- Interleavings of the statements that clients of the repository execute, as sequences of
-- operations, and an environment whose clients act in that way between two queries.
use automation_server_net.Base.{ℕ, ◌+◌, ◌≤◌, ◌≡◌, refl, false, Option, List, [], ◌∷◌, arith, All}
use automation_server_net.Js.Text.{Text}
use automation_server_net.Session.{Environment}
use automation_server_net.Idempotency.Table.{
  Status, StepKey, Db, Collation, insert_ignore, reclaim, finalize, cancel, is_pending,
}

-- One statement of a client that works under `token`, or the clock of the database.
pub data Operation : Type 0 where
  insert_operation : (k : StepKey) (workflow_id request_id payload_hash token : Text) → Operation
  reclaim_operation : (id : ℕ) (workflow_id request_id payload_hash token : Text) → Operation
  finalize_operation :
      Status → (k : StepKey) (token : Text) (reference : Option Text) (json : Text) → Operation
  cancel_operation : (k : StepKey) (token : Text) → Operation
  tick : (seconds : ℕ) → Operation

-- The operation is by a client whose token has the property.
abbrev pub By : (Text → Type 0) → Operation → Type 0
By P (insert_operation k w r h token) = P token
By P (reclaim_operation id w r h token) = P token
By P (finalize_operation status k token reference json) = P token
By P (cancel_operation k token) = P token
By P (tick seconds) = Unit

-- A finalization is to a status that is not pending, as both callers of the repository have it.
abbrev pub IsSound : Operation → Type 0
IsSound (insert_operation k w q h t) = Unit
IsSound (reclaim_operation i w q h t) = Unit
IsSound (finalize_operation status k t reference json) = is_pending status ≡ false
IsSound (cancel_operation k t) = Unit
IsSound (tick seconds) = Unit

module _ (col : Collation) where
  unfoldable pub apply : Operation → Db → Db
  unfolding insert_ignore reclaim finalize cancel
  apply (insert_operation k w r h token) d = (insert_ignore col k w r h token d).1
  apply (reclaim_operation id w r h token) d = (reclaim id w r h token d).1
  apply (finalize_operation status k token reference json) d =
      (finalize col status k token reference json d).1
  apply (cancel_operation k token) d = (cancel col k token d).1
  apply (tick seconds) d = record d { time = d.time + seconds }

  unfoldable pub run : List Operation → Db → Db
  run [] d = d
  run (o ∷ os) d = run os (apply o d)

  -- What happens before each query is a sequence of operations by clients with the property.
  pub record Interferes (P : Text → Type 0) (env : Environment Db) : Type 0 where
    pub operations : ℕ → Db → List Operation
    pub are_by : (n : ℕ) (d : Db) → All (By P) (operations n d)
    pub are_sound : (n : ℕ) (d : Db) → All IsSound (operations n d)
    pub are_run : (n : ℕ) (d : Db) → env.before n d ≡ run (operations n d) d

  -- The clock of the database never goes back.
  pub time-apply : (o : Operation) (d : Db) → d.time ≤ (apply o d).time
  unfolding apply
  time-apply (insert_operation k w r h token) d = ground arith
  time-apply (reclaim_operation id w r h token) d = ground arith
  time-apply (finalize_operation status k token reference json) d = ground arith
  time-apply (cancel_operation k token) d = ground arith
  time-apply (tick seconds) d = omega arith

  pub time-run : (os : List Operation) (d : Db) → d.time ≤ (run os d).time
  unfolding run
  time-run [] d = omega arith
  time-run (o ∷ os) d = omega (arith, time-apply o d, time-run os (apply o d))

-- What a statement does to the clock, and to the table: the same as its operation.
pub time-reclaim : (i : ℕ) (w q h t : Text) (d : Db) → d.time ≤ (reclaim i w q h t d).1.time
unfolding reclaim
time-reclaim i w q h t d = omega arith

pub time-insert_ignore :
    (col : Collation) (k : StepKey) (w q h t : Text) (d : Db)
    → d.time ≤ (insert_ignore col k w q h t d).1.time
unfolding insert_ignore
time-insert_ignore col k w q h t d = ground arith

-- the effect of a statement is that of its operation
pub reclaim-apply :
    (col : Collation) (i : ℕ) (w q h t : Text) (d : Db)
    → (reclaim i w q h t d).1 ≡ apply col (reclaim_operation i w q h t) d
unfolding apply
reclaim-apply col i w q h t d = refl

pub insert_ignore-apply :
    (col : Collation) (k : StepKey) (w q h t : Text) (d : Db)
    → (insert_ignore col k w q h t d).1 ≡ apply col (insert_operation k w q h t) d
unfolding apply
insert_ignore-apply col k w q h t d = refl

pub time-finalize :
    (col : Collation) (status : Status) (k : StepKey) (t : Text) (reference : Option Text)
    (json : Text) (d : Db)
    → d.time ≤ (finalize col status k t reference json d).1.time
unfolding finalize
time-finalize col status k t reference json d = omega arith

pub finalize-apply :
    (col : Collation) (status : Status) (k : StepKey) (t : Text) (reference : Option Text)
    (json : Text) (d : Db)
    → (finalize col status k t reference json d).1
      ≡ apply col (finalize_operation status k t reference json) d
unfolding apply
finalize-apply col status k t reference json d = refl
