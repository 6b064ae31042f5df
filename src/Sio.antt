-- ===== src/Sio.antt =====
-- The serial port of the controllers and memory cards, and what is plugged into it.
pub mod Line
pub mod Driver
pub mod Card
pub mod Pad
pub mod Port
pub mod Session
pub mod Room
mod Tests
