-- ===== src/Idempotency.antt =====
-- The table `workflow_step_idempotency` and its repository,
-- src/infra/system-db/workflow-step-idempotency.repository.ts.
pub mod Table
pub mod Repository
pub mod Columns
pub mod Rows
pub mod Rounds
pub mod Interleaving
pub mod Exclusive
pub mod Contention
pub mod WellFormed
pub mod Names
pub mod Owner
pub mod Recorded
pub mod Replay
pub mod Settlement
pub mod Refusal
mod Tests
