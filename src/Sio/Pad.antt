-- ===== src/Sio/Pad.antt =====
-- The standard controller: psxemu/include/psxemu/StandardController.hpp and
-- psxemu/source/psxemu/StandardController.cpp.
pub mod State
pub mod Send
pub mod Answer
pub mod Poll
