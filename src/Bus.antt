-- ===== src/Bus.antt =====
-- The system bus: psxemu/include/psxemu/SystemBus.hpp, psxemu/source/psxemu/SystemBus.cpp and
-- psxemu/source/psxemu/MemoryControl.cpp.
-- `Config` has the regions and their delays, `State` the bus and what it calls, `Control` the memory
-- control registers, `Io` the I/O region and `Access` the reads and writes.
pub mod Config
pub mod State
pub mod Control
pub mod Io
pub mod Access
pub mod Faults
pub mod Delays
mod Tests
