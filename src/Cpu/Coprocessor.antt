-- ===== src/Cpu/Coprocessor.antt =====
-- psxemu/include/psxemu/InstructionHandlers.hpp: `CopCmd` with `Coprocessor0Command` and
-- `Coprocessor2Command`, `CoprocessorLoad` and `CoprocessorStore`. Coprocessor 2 is the geometry
-- engine of the environment.
use psx.Base.{ℕ, ◌/◌, ◌%◌, ◌^◌, true, false, Option, none, some, ◌==◌, if◌then◌else◌}
use psx.Base.Words.{add32, sext16, bit}
use psx.Cpu.State.{Excode, Machine, Env, word, rs_of, rt_of, rd_of, add_load_delay, ◌>>=◌}
use psx.Cpu.Opcode.{Opcode}
use psx.Cpu.Exceptions.{
  exception, coprocessor_unusable, exit_exception, read_cop0, read_cop0_value, write_cop0,
}
use psx.Cpu.Memory.{bus_read, bus_write}

abbrev pub action_of : ℕ → ℕ
action_of i = i / 2 ^ 21 % 16

module _ (env : Env) where
  open env use {
    Bus, Gte, gte_read_data, gte_write_data, gte_read_control, gte_write_control, gte_cmd,
  }

  unfoldable pub coprocessor0_command : ℕ → Machine Bus Gte → Machine Bus Gte
  coprocessor0_command i m =
      if action_of i == 0
      then read_cop0 (rd_of i) (rt_of i) m
      else if action_of i == 2
      then exception Excode.ri false m
      else if action_of i == 4
      then write_cop0 (m.cpu.regs (rt_of i)) (rd_of i) m
      else if action_of i == 6
      then exception Excode.ri false m
      else coprocessor_unusable 0 m

  -- `AddLoadDelay(m_gte.ReadData(reg), dest)`, and the same of a control register.
  abbrev load_gte : ℕ → ℕ × Gte × Bus → Machine Bus Gte → Machine Bus Gte
  load_gte dest (v, g, b) m = add_load_delay v dest (record m { gte = g; bus = b })

  unfoldable pub coprocessor2_command : ℕ → Machine Bus Gte → Option (Machine Bus Gte)
  coprocessor2_command i m =
      if action_of i == 0
      then some (load_gte (rt_of i) (gte_read_data (rd_of i) m.status m.gte m.bus) m)
      else if action_of i == 2
      then some (load_gte (rt_of i) (gte_read_control (rd_of i) m.status m.gte m.bus) m)
      else if action_of i == 4
      then some (record m { gte = gte_write_data (m.cpu.regs (rt_of i)) (rd_of i) m.gte })
      else if action_of i == 6
      then some (record m { gte = gte_write_control (m.cpu.regs (rt_of i)) (rd_of i) m.gte })
      else if action_of i == 8
      then none
      else some (coprocessor_unusable 2 m)

  abbrev run_gte : Gte × Bus → Machine Bus Gte → Machine Bus Gte
  run_gte (g, b) m = record m { gte = g; bus = b }

  unfoldable pub cop_cmd : Opcode → ℕ → Machine Bus Gte → Option (Machine Bus Gte)
  cop_cmd Opcode.na i m = none
  cop_cmd Opcode.cop0 i m = some (
      if bit 25 i == 1
      then (if i % 64 == 0x10 then exit_exception m else exception Excode.ri false m)
      else coprocessor0_command i m)
  cop_cmd Opcode.cop2 i m =
      if bit 30 m.cpu.cop0.sr == 0
      then some (coprocessor_unusable 2 m)
      else if bit 25 i == 1
      then some (run_gte (gte_cmd (i % 2 ^ 25) m.status m.gte m.bus) m)
      else coprocessor2_command i m
  cop_cmd Opcode.cop1 i m = some (coprocessor_unusable 1 m)
  cop_cmd _ i m = some (coprocessor_unusable 3 m)

  abbrev pub cop_address : ℕ → Machine Bus Gte → ℕ
  cop_address i m = add32 (m.cpu.regs (rs_of i)) (sext16 i)

  -- At LWC1 the first `if` runs on into the second, whose last branch is a `DebugBreak`.
  unfoldable pub coprocessor_load : Opcode → ℕ → Machine Bus Gte → Option (Machine Bus Gte)
  coprocessor_load Opcode.lwc1 i m = none
  coprocessor_load Opcode.lwc3 i m = some (coprocessor_unusable 3 m)
  coprocessor_load Opcode.lwc0 i m = do
    (v, m') ← bus_read env word true (cop_address i m) m
    some (if m'.status.exception then m' else write_cop0 v (rt_of i) m')
  coprocessor_load Opcode.lwc2 i m =
      if bit 30 m.cpu.cop0.sr == 0
      then some (coprocessor_unusable 2 m)
      else (bus_read env word true (cop_address i m) m >>= λ (v, m'). some (
          if m'.status.exception
          then m'
          else record m' { gte = gte_write_data v (rt_of i) m'.gte }))
  coprocessor_load _ i m = none

  abbrev store_read : ℕ → ℕ × Machine Bus Gte → Option (Machine Bus Gte)
  store_read address (v, m) = if m.status.exception then some m else bus_write env word address v m

  abbrev read_gte : ℕ → Machine Bus Gte → ℕ × Machine Bus Gte
  read_gte reg m =
      let (v, g, b) = gte_read_data reg m.status m.gte m.bus in (v, record m { gte = g; bus = b })

  -- The second `if` tests for LWC3, so that SWC3 comes to the `DebugBreak` too.
  unfoldable pub coprocessor_store : Opcode → ℕ → Machine Bus Gte → Option (Machine Bus Gte)
  coprocessor_store Opcode.swc1 i m = none
  coprocessor_store Opcode.lwc3 i m = some (coprocessor_unusable 3 m)
  coprocessor_store Opcode.swc0 i m = store_read (cop_address i m) (read_cop0_value (rt_of i) m)
  coprocessor_store Opcode.swc2 i m =
      if bit 30 m.cpu.cop0.sr == 0
      then some (coprocessor_unusable 2 m)
      else store_read (cop_address i m) (read_gte (rt_of i) m)
  coprocessor_store _ i m = none
