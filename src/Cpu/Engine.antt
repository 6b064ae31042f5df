-- ===== src/Cpu/Engine.antt =====
-- The interpreter of psxemu/source/psxemu/MIPS1.cpp and Interpreter.cpp changes the geometry engine by the calls
-- of the environment alone.
use psx.Base.Words.{bit}
use psx.Base.{◌==◌, if◌then◌else◌, Bool, true, false, ℕ, Option, some, if_either, arith, ◌^◌, ◌%◌}
use psx.Cpu.State.{
  word, rt_of, rd_of, add_load_delay, Excode, Status, Width, Holds-bind, Machine, Env, Holds,
  add_writeback, raise, jump as jump_to, set_branch_delay, set_hi_lo,
}
use psx.Cpu.Opcode.{Opcode, InstructionSubtype, decode}
use psx.Cpu.Alu.{alu_immediate, alu_reg, shift_immediate, shift_reg, load_upper_immediate}
use psx.Cpu.Branch.{jump, branch, sys_break}
use psx.Cpu.MulDiv.{mul_div, start_mul_div, interlock_hi_lo}
use psx.Cpu.Memory.{bus_read, bus_write, store, load, load_value}
use psx.Cpu.Exceptions.{
  exception, write_cop0, read_cop0, read_cop0_value, exit_exception, coprocessor_unusable,
}
use psx.Cpu.Coprocessor.{
  action_of, cop_address, cop_cmd, coprocessor0_command, coprocessor2_command, coprocessor_load,
  coprocessor_store,
}
use psx.Cpu.Interpret.{unless_patched, interpret, handler, reserved_instruction}

module _ {B G : Type 0} (P : G → Type 0) where
  abbrev pub Kept : Option (Machine B G) → Type 0
  Kept = Holds (λ m. P (m.gte))

  alu_immediate-Kept :
      (op : Opcode) (i : ℕ) (m : Machine B G) → P (m.gte) → Kept (alu_immediate op i m)
  unfolding alu_immediate add_writeback raise
  alu_immediate-Kept Opcode.na i m h = tt
  alu_immediate-Kept _ i m h = ground arith

  shift_immediate-Kept :
      (op : Opcode) (i : ℕ) (m : Machine B G) → P (m.gte) → Kept (shift_immediate op i m)
  unfolding shift_immediate add_writeback raise
  shift_immediate-Kept Opcode.na i m h = tt
  shift_immediate-Kept _ i m h = ground arith

  alu_reg-Kept : (op : Opcode) (i : ℕ) (m : Machine B G) → P (m.gte) → Kept (alu_reg op i m)
  unfolding alu_reg add_writeback raise
  alu_reg-Kept Opcode.na i m h = tt
  alu_reg-Kept _ i m h = ground arith

  shift_reg-Kept : (op : Opcode) (i : ℕ) (m : Machine B G) → P (m.gte) → Kept (shift_reg op i m)
  unfolding shift_reg add_writeback raise
  shift_reg-Kept Opcode.na i m h = tt
  shift_reg-Kept _ i m h = ground arith

  jump-Kept : (op : Opcode) (i : ℕ) (m : Machine B G) → P (m.gte) → Kept (jump op i m)
  unfolding jump add_writeback raise jump_to set_branch_delay
  jump-Kept Opcode.na i m h = tt
  jump-Kept _ i m h = ground arith

  branch-Kept : (op : Opcode) (i : ℕ) (m : Machine B G) → P (m.gte) → Kept (branch op i m)
  unfolding branch add_writeback raise jump_to set_branch_delay
  branch-Kept Opcode.na i m h = tt
  branch-Kept _ i m h = ground arith

  sys_break-Kept : (op : Opcode) (i : ℕ) (m : Machine B G) → P (m.gte) → Kept (sys_break op i m)
  unfolding sys_break raise
  sys_break-Kept Opcode.na i m h = h
  sys_break-Kept _ i m h = ground arith

  exception-Kept :
      (code : Excode) (b : Bool) (m : Machine B G) → P (m.gte) → P ((exception code b m).gte)
  unfolding exception
  exception-Kept code b m h = h

  write_cop0-Kept : (v reg : ℕ) (m : Machine B G) → P (m.gte) → P ((write_cop0 v reg m).gte)
  unfolding write_cop0 exception
  write_cop0-Kept v reg m h = ground arith

-- What the environment promises of a property of its geometry engine: its operations and the two hooks keep it.
pub record Keeps (env : Env) (P : env.Gte → Type 0) : Type 0 where
  pub reads_data :
      (reg : ℕ) (s : Status) (g : env.Gte) (b : env.Bus) → P g → P ((env.gte_read_data reg s g b).1)
  pub reads_control :
      (reg : ℕ) (s : Status) (g : env.Gte) (b : env.Bus)
      → P g
      → P ((env.gte_read_control reg s g b).1)
  pub writes_data : (value reg : ℕ) (g : env.Gte) → P g → P (env.gte_write_data value reg g)
  pub writes_control : (value reg : ℕ) (g : env.Gte) → P g → P (env.gte_write_control value reg g)
  pub commands :
      (cmd : ℕ) (s : Status) (g : env.Gte) (b : env.Bus) → P g → P ((env.gte_cmd cmd s g b).0)
  pub patches :
      (i : ℕ) (m : Machine env.Bus env.Gte)
      → P (m.gte)
      → Holds (λ (r : Bool × Machine env.Bus env.Gte). P (r.1.gte)) (env.undefined_instruction i m)
  pub handles :
      (id : ℕ) (b : Bool) (m : Machine env.Bus env.Gte)
      → P (m.gte)
      → Holds (λ (r : Bool × Machine env.Bus env.Gte). P (r.1.gte)) (env.hle_handler id b m)

module _ (env : Env) (P : env.Gte → Type 0) (keeps : Keeps env P) where
  open env use {Bus, Gte}

  mul_div-Kept :
      (op : Opcode) (i : ℕ) (m : Machine Bus Gte) → P (m.gte) → Kept P (mul_div env op i m)
  unfolding mul_div add_writeback set_hi_lo interlock_hi_lo start_mul_div
  mul_div-Kept Opcode.na i m h = tt
  mul_div-Kept _ i m h = ground arith

  bus_read-Kept :
      (w : Width) (e : Bool) (a : ℕ) (m : Machine Bus Gte)
      → P (m.gte)
      → Holds (λ (r : ℕ × Machine Bus Gte). P (r.1.gte)) (bus_read env w e a m)
  unfolding bus_read
  bus_read-Kept w e a m h = ground arith

  bus_write-Kept :
      (w : Width) (a v : ℕ) (m : Machine Bus Gte) → P (m.gte) → Kept P (bus_write env w a v m)
  unfolding bus_write
  bus_write-Kept w a v m h = ground arith

  store-Kept : (op : Opcode) (i : ℕ) (m : Machine Bus Gte) → P (m.gte) → Kept P (store env op i m)
  unfolding store bus_write bus_read
  store-Kept Opcode.na i m h = ground arith
  store-Kept _ i m h = ground arith

  load-Kept : (op : Opcode) (i : ℕ) (m : Machine Bus Gte) → P (m.gte) → Kept P (load env op i m)
  unfolding load load_value bus_read add_load_delay
  load-Kept Opcode.na i m h = tt
  load-Kept _ i m h = ground arith

  coprocessor0_command-Kept :
      (i : ℕ) (m : Machine Bus Gte) → P (m.gte) → P ((coprocessor0_command env i m).gte)
  unfolding coprocessor0_command coprocessor_unusable exception read_cop0 add_load_delay write_cop0
  coprocessor0_command-Kept i m h = ground arith

  coprocessor2_command-Kept :
      (i : ℕ) (m : Machine Bus Gte) → P (m.gte) → Kept P (coprocessor2_command env i m)
  unfolding coprocessor2_command coprocessor_unusable exception add_load_delay
  coprocessor2_command-Kept i m h =
      if_either (Kept P) (action_of i == 0) (keeps.reads_data (rd_of i) m.status m.gte m.bus h) (
        if_either (Kept P) (action_of i == 2) (keeps.reads_control (rd_of i) m.status m.gte m.bus h)
          (if_either (Kept P) (action_of i == 4)
            (keeps.writes_data (m.cpu.regs (rt_of i)) (rd_of i) m.gte h)
            (if_either (Kept P) (action_of i == 6)
              (keeps.writes_control (m.cpu.regs (rt_of i)) (rd_of i) m.gte h)
              (if_either (Kept P) (action_of i == 8) tt h))))

  cop_cmd-Kept :
      (op : Opcode) (i : ℕ) (m : Machine Bus Gte) → P (m.gte) → Kept P (cop_cmd env op i m)
  unfolding cop_cmd coprocessor_unusable exception exit_exception
  cop_cmd-Kept Opcode.na i m h = tt
  cop_cmd-Kept Opcode.cop0 i m h =
      if_either (λ (t : Machine Bus Gte). P (t.gte)) (bit 25 i == 1)
        (if_either (λ (t : Machine Bus Gte). P (t.gte)) (i % 64 == 0x10) h h)
        (coprocessor0_command-Kept i m h)
  cop_cmd-Kept Opcode.cop2 i m h = if_either (Kept P) (bit 30 m.cpu.cop0.sr == 0) h (
      if_either (Kept P) (bit 25 i == 1) (keeps.commands (i % 2 ^ 25) m.status m.gte m.bus h)
        (coprocessor2_command-Kept i m h))
  cop_cmd-Kept _ i m h = h

  coprocessor_load-Kept :
      (op : Opcode) (i : ℕ) (m : Machine Bus Gte) → P (m.gte) → Kept P (coprocessor_load env op i m)
  unfolding coprocessor_load coprocessor_unusable exception
  coprocessor_load-Kept Opcode.lwc3 i m h = h
  coprocessor_load-Kept Opcode.lwc0 i m h =
      Holds-bind (λ (r : ℕ × Machine Bus Gte). P (r.1.gte)) (λ (t : Machine Bus Gte). P (t.gte)) _ _
        (bus_read-Kept word true (cop_address env i m) m h)
        (λ (v, t) k.
          if_either (λ (t : Machine Bus Gte). P (t.gte)) t.status.exception k
            (write_cop0-Kept P v (rt_of i) t k))
  coprocessor_load-Kept Opcode.lwc2 i m h = if_either (Kept P) (bit 30 m.cpu.cop0.sr == 0) h (
      Holds-bind (λ (r : ℕ × Machine Bus Gte). P (r.1.gte)) (λ (t : Machine Bus Gte). P (t.gte)) _ _
        (bus_read-Kept word true (cop_address env i m) m h)
        (λ (v, t) k.
          if_either (λ (t : Machine Bus Gte). P (t.gte)) t.status.exception k
            (keeps.writes_data v (rt_of i) t.gte k)))
  coprocessor_load-Kept _ i m h = tt

  read_cop0_value-Kept :
      (reg : ℕ) (m : Machine Bus Gte) → P (m.gte) → P ((read_cop0_value reg m).1.gte)
  unfolding read_cop0_value exception
  read_cop0_value-Kept reg m h = ground arith

  stored-Kept :
      (a v : ℕ) (m : Machine Bus Gte)
      → P (m.gte)
      → Kept P (if m.status.exception then some m else bus_write env word a v m)
  stored-Kept a v m h = if_either (Kept P) m.status.exception h (bus_write-Kept word a v m h)

  coprocessor_store-Kept :
      (op : Opcode) (i : ℕ) (m : Machine Bus Gte)
      → P (m.gte)
      → Kept P (coprocessor_store env op i m)
  unfolding coprocessor_store coprocessor_unusable exception
  coprocessor_store-Kept Opcode.lwc3 i m h = h
  coprocessor_store-Kept Opcode.swc0 i m h = stored-Kept _ _ _ (read_cop0_value-Kept (rt_of i) m h)
  coprocessor_store-Kept Opcode.swc2 i m h =
      if_either (Kept P) (bit 30 m.cpu.cop0.sr == 0) h
        (stored-Kept _ _ _ (keeps.reads_data (rt_of i) m.status m.gte m.bus h))
  coprocessor_store-Kept _ i m h = tt

  reserved_instruction-Kept :
      (op : Opcode) (i : ℕ) (m : Machine Bus Gte)
      → P (m.gte)
      → Kept P (reserved_instruction env op i m)
  unfolding reserved_instruction raise
  reserved_instruction-Kept Opcode.na i m h =
      Holds-bind (λ (r : Bool × Machine Bus Gte). P (r.1.gte)) (λ (t : Machine Bus Gte). P (t.gte))
        _ _ (keeps.patches i m h) unless_patched-Kept
    where
      unless_patched-Kept :
          (r : Bool × Machine Bus Gte) → P (r.1.gte) → Kept P (unless_patched env r)
      unless_patched-Kept (true, t) k = k
      unless_patched-Kept (false, t) k = k
  reserved_instruction-Kept _ i m h = tt

  handler-Kept :
      (s : InstructionSubtype) (op : Opcode) (i : ℕ) (m : Machine Bus Gte)
      → P (m.gte)
      → Kept P (handler env s op i m)
  unfolding handler load_upper_immediate add_writeback
  handler-Kept InstructionSubtype.lui_imm op i m h =
      if_either (λ (t : Machine Bus Gte). P (t.gte)) (rt_of i == 0) h h
  handler-Kept InstructionSubtype.na op i m h = reserved_instruction-Kept op i m h
  handler-Kept s Opcode.na i m h = reserved_instruction-Kept Opcode.na i m h
  handler-Kept InstructionSubtype.alu_imm op i m h = alu_immediate-Kept P op i m h
  handler-Kept InstructionSubtype.store op i m h = store-Kept op i m h
  handler-Kept InstructionSubtype.shift_imm op i m h = shift_immediate-Kept P op i m h
  handler-Kept InstructionSubtype.jump op i m h = jump-Kept P op i m h
  handler-Kept InstructionSubtype.alu_reg op i m h = alu_reg-Kept P op i m h
  handler-Kept InstructionSubtype.cop_cmd op i m h = cop_cmd-Kept op i m h
  handler-Kept InstructionSubtype.branch op i m h = branch-Kept P op i m h
  handler-Kept InstructionSubtype.load op i m h = load-Kept op i m h
  handler-Kept InstructionSubtype.mul_div op i m h = mul_div-Kept op i m h
  handler-Kept InstructionSubtype.sys_brk op i m h = sys_break-Kept P op i m h
  handler-Kept InstructionSubtype.shift_reg op i m h = shift_reg-Kept P op i m h
  handler-Kept InstructionSubtype.cop_load op i m h = coprocessor_load-Kept op i m h
  handler-Kept InstructionSubtype.cop_store op i m h = coprocessor_store-Kept op i m h

  pub interpret-Kept : (i : ℕ) (m : Machine Bus Gte) → P (m.gte) → Kept P (interpret env i m)
  unfolding interpret
  interpret-Kept i m h = handler-Kept ((decode i).subtype) ((decode i).opcode) i m h
