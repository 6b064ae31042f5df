-- ===== src/Sio/Port.antt =====
-- The serial port: psxemu/include/psxemu/SIOPort.hpp and psxemu/source/psxemu/SIOPort.cpp.
pub mod State
pub mod Transfer
pub mod Registers
pub mod Exchange
pub mod Bounds
pub mod Reach
pub mod Repeat
