-- ===== src/System.antt =====
-- The two halves of the machine together: the records that batches of events lead to, and the
-- handlers that run on them. The state-machine library keeps the record between batches and calls
-- `Plan`; handlers run on copies and their events come back in a later batch.
pub mod Reach
pub mod Run
pub mod Safety
pub mod Retries
pub mod Progress
pub mod GivesUp
pub mod Completes
pub mod Seals
pub mod Expires
pub mod Storage
