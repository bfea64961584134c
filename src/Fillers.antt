-- ===== src/Fillers.antt =====
-- utils.go `fillersFromRem`: the zero pieces that fill the rest of a sector.
pub mod Loop
pub mod Lowest
pub mod Total
