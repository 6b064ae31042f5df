-- ===== src/Dma.antt =====
-- The DMA controller: psxemu/include/psxemu/DmaController.hpp, psxemu/source/psxemu/DmaController.cpp,
-- DmaBase.cpp and OTDma.cpp.
-- `Control` is the interrupt register, `Active` the queue of transfers, `Channel` a channel, and `Ordering`
-- the channel that clears ordering tables.
pub mod Control
pub mod Active
pub mod Channel
pub mod Priority
pub mod Slices
pub mod Ordering
pub mod Fast
pub mod Vector
pub mod Interrupts
mod Tests
