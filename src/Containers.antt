-- ===== src/Containers.antt =====
-- The containers of common. `Queue` is common/Queue.hpp; `Refine`, `Run` and `Sequence` compare it with
-- the list of its elements, for an operation and for a sequence of them.
pub mod Queue
pub mod Refine
pub mod Run
pub mod Sequence
mod Tests
