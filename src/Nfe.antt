-- ===== src/Nfe.antt =====
-- The dispatch of NF-e emails: the table of sales, its repository, and the workflows.
pub mod Sale
pub mod DateTime
pub mod Validation
pub mod Statements
pub mod Rows
pub mod Repository
pub mod Operations
pub mod Attempts
pub mod Checks
pub mod Finalization
pub mod Activities
pub mod ManualActivities
pub mod Retry
pub mod Confirmation
pub mod Bounds
mod Tests
