-- ===== src/Gte.antt =====
-- The geometry engine: psxemu/include/psxemu/GTE.hpp, GTEStructs.hpp, psxemu/source/psxemu/GTE.cpp and
-- GTEOpcodes.cpp.
pub mod State
pub mod Saturate
pub mod Registers
pub mod Multiply
pub mod Perspective
pub mod Color
pub mod Command
pub mod Divide
pub mod Area
pub mod Mirror
pub mod Access
pub mod Program
pub mod Fifo
mod Tests
