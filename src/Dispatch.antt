-- ===== src/Dispatch.antt =====
-- The workflows of src/temporal/workflows/nfe that dispatch the e-mails of claimed sales.
pub mod Processing
pub mod Mail
pub mod Keys
pub mod Filename
pub mod Children
pub mod Parent
pub mod Single
pub mod Manual
pub mod Lock
mod Tests
mod RunTests
