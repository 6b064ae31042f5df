-- ===== src/Sio/Card.antt =====
-- The memory card: psxemu/include/psxemu/OfficialMemcard.hpp and
-- psxemu/source/psxemu/OfficialMemcard.cpp. `State` and `Send` are the code. `Run` has conversations, `Read`,
-- `Write` and `Store` the two transfers, `Valid` and `Safe` the bounds, and `Frames` ReadFrame and WriteFrame.
pub mod State
pub mod Send
pub mod Run
pub mod Read
pub mod Write
pub mod Store
pub mod Valid
pub mod Safe
pub mod Frames
