-- ===== src/Cpu/Interpret.antt =====
-- psxemu/source/psxemu/Interpreter.cpp: the handler of each instruction, with `ReservedInstruction`.
use psx.Base.{ℕ, Option, none, some, Bool, true, false}
use psx.Cpu.State.{Excode, Machine, Env, raise, ◌>>=◌}
use psx.Cpu.Opcode.{Opcode, InstructionSubtype, decode}
use psx.Cpu.Alu.{load_upper_immediate, alu_immediate, shift_immediate, alu_reg, shift_reg}
use psx.Cpu.Memory.{store, load}
use psx.Cpu.Branch.{jump, branch, sys_break}
use psx.Cpu.MulDiv.{mul_div}
use psx.Cpu.Coprocessor.{cop_cmd, coprocessor_load, coprocessor_store}

module _ (env : Env) where
  open env use {Bus, Gte, undefined_instruction}

  abbrev pub unless_patched : Bool × Machine Bus Gte → Option (Machine Bus Gte)
  unless_patched (true, m) = some m
  unless_patched (false, m) = some (raise Excode.ri m)

  -- The kernel's patches use encodings that have no meaning.
  unfoldable pub reserved_instruction : Opcode → ℕ → Machine Bus Gte → Option (Machine Bus Gte)
  reserved_instruction Opcode.na i m = undefined_instruction i m >>= unless_patched
  reserved_instruction _ i m = none

  -- `InstructionDecoder::GetHandler`
  unfoldable pub handler :
      InstructionSubtype → Opcode → ℕ → Machine Bus Gte → Option (Machine Bus Gte)
  handler InstructionSubtype.lui_imm op i m = some (load_upper_immediate i m)
  handler InstructionSubtype.na op i m = reserved_instruction op i m
  handler s Opcode.na i m = reserved_instruction Opcode.na i m
  handler InstructionSubtype.alu_imm op i m = alu_immediate op i m
  handler InstructionSubtype.store op i m = store env op i m
  handler InstructionSubtype.shift_imm op i m = shift_immediate op i m
  handler InstructionSubtype.jump op i m = jump op i m
  handler InstructionSubtype.alu_reg op i m = alu_reg op i m
  handler InstructionSubtype.cop_cmd op i m = cop_cmd env op i m
  handler InstructionSubtype.branch op i m = branch op i m
  handler InstructionSubtype.load op i m = load env op i m
  handler InstructionSubtype.mul_div op i m = mul_div env op i m
  handler InstructionSubtype.sys_brk op i m = sys_break op i m
  handler InstructionSubtype.shift_reg op i m = shift_reg op i m
  handler InstructionSubtype.cop_load op i m = coprocessor_load env op i m
  handler InstructionSubtype.cop_store op i m = coprocessor_store env op i m

  -- `InterpretMips`
  unfoldable pub interpret : ℕ → Machine Bus Gte → Option (Machine Bus Gte)
  interpret i m = let e = decode i in handler e.subtype e.opcode i m
