-- ===== src/Cbor.antt =====
-- cbor_gen.go: how the stored types are written and read.
pub mod Stream
pub mod Services
pub mod Values
pub mod Deal
pub mod Entries
pub mod States
pub mod SectorWrite
pub mod SectorRead
pub mod Behaves
pub mod Rounds
pub mod Deals
pub mod Storable
pub mod Stored
pub mod Limits
pub mod Gives
pub mod Bounded
