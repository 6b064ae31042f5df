-- ===== src/Disc.antt =====
-- Positions on a compact disc.
pub mod Bcd
pub mod Location
pub mod Sectors
mod Tests
