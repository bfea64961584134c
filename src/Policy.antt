-- ===== src/Policy.antt =====
-- precommit_policy.go: the expiration epoch of a pre-commitment.
pub mod Expiration
pub mod Rounding
pub mod Deals
pub mod Promise
