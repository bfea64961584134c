-- ===== src/Fsm.antt =====
-- fsm.go: the table of planners, the planning of a batch of events, and the choice of the handler
-- that runs next.
pub mod Table
pub mod Plan
pub mod Rules
pub mod Invariant
pub mod Accepts
pub mod History
pub mod Seed
pub mod Stuck
pub mod Batches
pub mod LifeCycle
pub mod Kept
