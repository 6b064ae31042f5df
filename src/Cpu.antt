-- ===== src/Cpu.antt =====
-- The MIPS R3000A interpreter.
pub mod State
pub mod Opcode
pub mod Alu
pub mod Exceptions
pub mod Memory
pub mod Branch
pub mod MulDiv
pub mod Coprocessor
pub mod Interpret
pub mod Step
pub mod Modes
pub mod Unaligned
pub mod Overflow
pub mod Pipeline
pub mod Frames
pub mod Products
pub mod Samples
pub mod Engine
pub mod Rounds
pub mod System
mod Tests
