-- ===== src/Handlers/Safety.antt =====
-- The handlers of states_sealing.go, states_failed.go and states_proving.go against the table of
-- fsm.go: panics and the events that are sent.
pub mod Basics
pub mod Failed
pub mod Sealing
