-- ===== src/Cpu/Branch.antt =====
-- psxemu/include/psxemu/InstructionHandlers.hpp: `Jump`, `Branch` and `SysBreak`.
use psx.Base.{
  ℕ, ◌*◌, ◌/◌, ◌%◌, ◌^◌, Bool, not, ◌||◌, Option, none, some, bit_and, ◌==◌, if◌then◌else◌,
}
use psx.Base.Words.{add32, shl32, sext16, slt32}
use psx.Cpu.State.{
  Excode, Machine, rs_of, rt_of, rd_of, add_writeback, jump as jump_to, raise, set_branch_delay,
}
use psx.Cpu.Opcode.{Opcode}

-- The target of J and JAL.
abbrev pub jump_target : ℕ → ℕ → ℕ
jump_target i pc = add32 (pc / 2 ^ 28 * 2 ^ 28) (shl32 (i % 2 ^ 26) 2)

-- The target of a branch: relative to the delay slot, the offset in words.
abbrev pub branch_target : ℕ → ℕ → ℕ
branch_target i pc = add32 (add32 pc 4) (sext16 i * 4 % 2 ^ 32)

-- The kind of BCONDZ.
abbrev pub branch_type : ℕ → ℕ
branch_type i = bit_and (i / 2 ^ 16 % 32) 0b10001

module _ {B G : Type 0} where
  jump_from : Opcode → ℕ → Machine B G → Option (Machine B G)
  jump_from Opcode.j i m = some (jump_to (jump_target i m.cpu.pc) m)
  jump_from Opcode.jal i m =
      some (jump_to (jump_target i m.cpu.pc) (add_writeback (add32 m.cpu.pc 8) 31 m))
  jump_from Opcode.jr i m = some (jump_to (m.cpu.regs (rs_of i)) m)
  jump_from Opcode.jalr i m =
      some (jump_to (m.cpu.regs (rs_of i)) (add_writeback (add32 m.cpu.pc 8) (rd_of i) m))
  jump_from _ i m = none

  unfoldable pub jump : Opcode → ℕ → Machine B G → Option (Machine B G)
  unfolding jump_from
  jump op i m = jump_from op i (set_branch_delay m)

  abbrev jump_if : Bool → ℕ → Machine B G → Machine B G
  jump_if test i m = if test then jump_to (branch_target i m.cpu.pc) m else m

  branch_from : Opcode → ℕ → Machine B G → Option (Machine B G)
  branch_from Opcode.bne i m =
      some (jump_if (not (m.cpu.regs (rs_of i) == m.cpu.regs (rt_of i))) i m)
  branch_from Opcode.beq i m = some (jump_if (m.cpu.regs (rs_of i) == m.cpu.regs (rt_of i)) i m)
  branch_from Opcode.blez i m = some (jump_if (not (slt32 0 (m.cpu.regs (rs_of i)))) i m)
  branch_from Opcode.bgtz i m = some (jump_if (slt32 0 (m.cpu.regs (rs_of i))) i m)
  branch_from Opcode.bcondz i m =
      let type = branch_type i in
      if type == 2 || type == 0x10 || type == 0x11 || type == 0x12
      then none
      else if type == 0
      then some (jump_if (slt32 (m.cpu.regs (rs_of i)) 0) i m)
      else if type == 1
      then some (jump_if (not (slt32 (m.cpu.regs (rs_of i)) 0)) i m)
      else some m
  branch_from _ i m = none

  unfoldable pub branch : Opcode → ℕ → Machine B G → Option (Machine B G)
  unfolding branch_from
  branch op i m = branch_from op i (set_branch_delay m)

  -- The messages that are printed are left out.
  unfoldable pub sys_break : Opcode → ℕ → Machine B G → Option (Machine B G)
  sys_break Opcode.syscall i m = some (raise Excode.syscall m)
  sys_break Opcode.break i m = some (raise Excode.bp m)
  sys_break _ i m = some m
