-- ===== src/Timers.antt =====
-- The root counters: psxemu/include/psxemu/RootCounters.hpp and psxemu/source/psxemu/RootCounters.cpp.
-- `Mode` is the mode register, `Counter` the state and the clock sources, `Irq` the interrupts, `Events`
-- the counting and the scheduled events, `Sync` the blanking signals and `Registers` the accesses.
-- `Armed` joins the counters to the scheduler.
pub mod Mode
pub mod Counter
pub mod Irq
pub mod Events
pub mod Sync
pub mod Registers
pub mod Valid
pub mod Reach
pub mod Count
pub mod Oneshot
pub mod Pause
pub mod Armed
mod Tests
