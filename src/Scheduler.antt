-- ===== src/Scheduler.antt =====
-- The scheduler of events: psxemu/include/psxemu/Scheduler.hpp and
-- psxemu/source/psxemu/Scheduler.cpp. `State` has the queue with its operations and `Advance` the passing of
-- time. `Due` counts the events that are due, `Finish` and `Order` are about `Advance`, `Change` is about
-- the operations, and `Samples` has a heap for the runs.
pub mod State
pub mod Advance
pub mod Due
pub mod Finish
pub mod Samples
pub mod Order
pub mod Change
mod Tests
