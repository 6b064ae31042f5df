-- ===== src/Sound.antt =====
-- The sound decoders: psxemu/source/psxemu/ADPCM.cpp.
pub mod Adpcm
pub mod Range
pub mod Sector
mod Tests
