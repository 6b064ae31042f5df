-- ===== src/Cpu/Alu.antt =====
-- psxemu/include/psxemu/InstructionHandlers.hpp: arithmetic, logic and shifts. A handler at an opcode
-- that is not its own is a `DebugBreak`, `none`.
use psx.Base.{
  ℕ, ◌-◌, ◌/◌, ◌%◌, ◌^◌, Bool, not, Option, none, some, bit_and, bit_or, bit_xor, ltb, ◌==◌,
  if◌then◌else◌,
}
use psx.Base.Words.{all_ones, add32, sub32, shl32, shr32, sra32, sext16, slt32}
use psx.Cpu.State.{Excode, Machine, rs_of, rt_of, rd_of, add_writeback, raise}
use psx.Cpu.Opcode.{Opcode}

unfoldable pub add_overflow : ℕ → ℕ → Bool
add_overflow l r =
    let sum = add32 l r in
    not (bit_and (bit_and (all_ones - bit_xor l r) (bit_xor l sum)) 0x8000_0000 == 0)

unfoldable pub sub_overflow : ℕ → ℕ → Bool
sub_overflow l r = let res = sub32 l r in not (bit_and (bit_xor l r) (bit_xor l res) / 2 ^ 31 == 0)

abbrev pub of_test : Bool → ℕ
of_test b = if b then 1 else 0

module _ {B G : Type 0} where
  -- LUI
  unfoldable pub load_upper_immediate : ℕ → Machine B G → Machine B G
  load_upper_immediate i m =
      if rt_of i == 0 then m else add_writeback (shl32 (i % 2 ^ 16) 16) (rt_of i) m

  unfoldable pub alu_immediate : Opcode → ℕ → Machine B G → Option (Machine B G)
  alu_immediate Opcode.ori i m =
      some (add_writeback (bit_or (m.cpu.regs (rs_of i)) (i % 2 ^ 16)) (rt_of i) m)
  alu_immediate Opcode.addiu i m =
      some (add_writeback (add32 (m.cpu.regs (rs_of i)) (sext16 i)) (rt_of i) m)
  alu_immediate Opcode.addi i m = some (
      if add_overflow (m.cpu.regs (rs_of i)) (sext16 i)
      then raise Excode.ov m
      else add_writeback (add32 (m.cpu.regs (rs_of i)) (sext16 i)) (rt_of i) m)
  alu_immediate Opcode.andi i m =
      some (add_writeback (bit_and (m.cpu.regs (rs_of i)) (i % 2 ^ 16)) (rt_of i) m)
  alu_immediate Opcode.xori i m =
      some (add_writeback (bit_xor (m.cpu.regs (rs_of i)) (i % 2 ^ 16)) (rt_of i) m)
  alu_immediate Opcode.slti i m =
      some (add_writeback (of_test (slt32 (m.cpu.regs (rs_of i)) (sext16 i))) (rt_of i) m)
  alu_immediate Opcode.sltiu i m =
      some (add_writeback (of_test (ltb (m.cpu.regs (rs_of i)) (sext16 i))) (rt_of i) m)
  alu_immediate _ i m = none

  unfoldable pub shift_immediate : Opcode → ℕ → Machine B G → Option (Machine B G)
  shift_immediate Opcode.sll i m =
      some (add_writeback (shl32 (m.cpu.regs (rt_of i)) (i / 2 ^ 6 % 32)) (rd_of i) m)
  shift_immediate Opcode.sra i m =
      some (add_writeback (sra32 (m.cpu.regs (rt_of i)) (i / 2 ^ 6 % 32)) (rd_of i) m)
  shift_immediate Opcode.srl i m =
      some (add_writeback (shr32 (m.cpu.regs (rt_of i)) (i / 2 ^ 6 % 32)) (rd_of i) m)
  shift_immediate _ i m = none

  unfoldable pub alu_reg : Opcode → ℕ → Machine B G → Option (Machine B G)
  alu_reg Opcode.or i m =
      some (add_writeback (bit_or (m.cpu.regs (rs_of i)) (m.cpu.regs (rt_of i))) (rd_of i) m)
  alu_reg Opcode.and i m =
      some (add_writeback (bit_and (m.cpu.regs (rs_of i)) (m.cpu.regs (rt_of i))) (rd_of i) m)
  alu_reg Opcode.addu i m =
      some (add_writeback (add32 (m.cpu.regs (rs_of i)) (m.cpu.regs (rt_of i))) (rd_of i) m)
  alu_reg Opcode.add i m = some (
      if add_overflow (m.cpu.regs (rs_of i)) (m.cpu.regs (rt_of i))
      then raise Excode.ov m
      else add_writeback (add32 (m.cpu.regs (rs_of i)) (m.cpu.regs (rt_of i))) (rd_of i) m)
  alu_reg Opcode.sltu i m =
      some (add_writeback (of_test (ltb (m.cpu.regs (rs_of i)) (m.cpu.regs (rt_of i)))) (rd_of i) m)
  alu_reg Opcode.slt i m =
      some
        (add_writeback (of_test (slt32 (m.cpu.regs (rs_of i)) (m.cpu.regs (rt_of i)))) (rd_of i) m)
  alu_reg Opcode.subu i m =
      some (add_writeback (sub32 (m.cpu.regs (rs_of i)) (m.cpu.regs (rt_of i))) (rd_of i) m)
  alu_reg Opcode.sub i m = some (
      if sub_overflow (m.cpu.regs (rs_of i)) (m.cpu.regs (rt_of i))
      then raise Excode.ov m
      else add_writeback (sub32 (m.cpu.regs (rs_of i)) (m.cpu.regs (rt_of i))) (rd_of i) m)
  alu_reg Opcode.nor i m = some (
      add_writeback (bit_xor all_ones (bit_or (m.cpu.regs (rs_of i)) (m.cpu.regs (rt_of i))))
        (rd_of i) m)
  alu_reg Opcode.xor i m =
      some (add_writeback (bit_xor (m.cpu.regs (rs_of i)) (m.cpu.regs (rt_of i))) (rd_of i) m)
  alu_reg _ i m = none

  unfoldable pub shift_reg : Opcode → ℕ → Machine B G → Option (Machine B G)
  shift_reg Opcode.sllv i m =
      some (add_writeback (shl32 (m.cpu.regs (rt_of i)) (m.cpu.regs (rs_of i) % 32)) (rd_of i) m)
  shift_reg Opcode.srlv i m =
      some (add_writeback (shr32 (m.cpu.regs (rt_of i)) (m.cpu.regs (rs_of i) % 32)) (rd_of i) m)
  shift_reg Opcode.srav i m =
      some (add_writeback (sra32 (m.cpu.regs (rt_of i)) (m.cpu.regs (rs_of i) % 32)) (rd_of i) m)
  shift_reg _ i m = none
