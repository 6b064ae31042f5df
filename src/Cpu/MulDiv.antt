-- ===== src/Cpu/MulDiv.antt =====
-- psxemu/include/psxemu/InstructionHandlers.hpp: `MulDiv`, with `InterlockHiLo` of MIPS1.cpp.
use psx.Base.{ℕ, ◌+◌, ◌-◌, ◌*◌, ◌/◌, ◌%◌, ◌^◌, ◌&&◌, Option, none, some, ltb, ◌==◌, if◌then◌else◌}
use psx.Base.Int.{ℤ, pos, negsuc, ◌*ℤ◌, quot, rem}
use psx.Base.Words.{all_ones, signed32, to_word, slt32}
use psx.Cpu.State.{Machine, Env, rs_of, rt_of, rd_of, add_writeback, set_hi_lo}
use psx.Cpu.Opcode.{Opcode}

-- HI and LO after DIV and DIVU.
unfoldable pub div_signed : ℕ → ℕ → ℕ × ℕ
div_signed rs rt =
    if rt == 0
    then (if slt32 rs 0 then (rs, 1) else (rs, all_ones))
    else if rt == all_ones && rs == 0x8000_0000
    then (0, 0x8000_0000)
    else (to_word (rem (signed32 rs) (signed32 rt)), to_word (quot (signed32 rs) (signed32 rt)))

unfoldable pub div_unsigned : ℕ → ℕ → ℕ × ℕ
div_unsigned rs rt = if rt == 0 then (rs, all_ones) else (rs % rt, rs / rt)

-- The 64-bit pattern of an integer.
abbrev pub to_double : ℤ → ℕ
to_double (pos n) = n % 2 ^ 64
to_double (negsuc n) = 2 ^ 64 - 1 - n % 2 ^ 64

abbrev pub halves : ℕ → ℕ × ℕ
halves product = (product / 2 ^ 32 % 2 ^ 32, product % 2 ^ 32)

-- HI and LO after MULT and MULTU.
unfoldable pub mul_signed : ℕ → ℕ → ℕ × ℕ
mul_signed rs rt = halves (to_double (signed32 rs *ℤ signed32 rt))

unfoldable pub mul_unsigned : ℕ → ℕ → ℕ × ℕ
mul_unsigned rs rt = halves (rs * rt)

module _ (env : Env) where
  open env use {Bus, Gte, add_cycles}

  -- The result is there `latency` cycles from now.
  unfoldable pub start_mul_div : ℕ → ℕ × ℕ → Machine Bus Gte → Machine Bus Gte
  start_mul_div latency (hi, lo) m =
      set_hi_lo hi lo
        (record m { status = record (m.status) { hi_lo_ready_timestamp = m.status.now + latency } })

  -- `InterlockHiLo`: wait for the result.
  unfoldable pub interlock_hi_lo : Machine Bus Gte → Machine Bus Gte
  interlock_hi_lo m =
      if ltb m.status.now m.status.hi_lo_ready_timestamp
      then record m { bus = add_cycles (m.status.hi_lo_ready_timestamp - m.status.now) m.bus }
      else m

  unfoldable pub mul_div : Opcode → ℕ → Machine Bus Gte → Option (Machine Bus Gte)
  mul_div Opcode.div i m =
      some (start_mul_div 36 (div_signed (m.cpu.regs (rs_of i)) (m.cpu.regs (rt_of i))) m)
  mul_div Opcode.divu i m =
      some (start_mul_div 36 (div_unsigned (m.cpu.regs (rs_of i)) (m.cpu.regs (rt_of i))) m)
  mul_div Opcode.mult i m =
      some (start_mul_div 9 (mul_signed (m.cpu.regs (rs_of i)) (m.cpu.regs (rt_of i))) m)
  mul_div Opcode.multu i m =
      some (start_mul_div 9 (mul_unsigned (m.cpu.regs (rs_of i)) (m.cpu.regs (rt_of i))) m)
  mul_div Opcode.mfhi i m = some (add_writeback m.cpu.hi (rd_of i) (interlock_hi_lo m))
  mul_div Opcode.mflo i m = some (add_writeback m.cpu.lo (rd_of i) (interlock_hi_lo m))
  mul_div Opcode.mthi i m = some (set_hi_lo (m.cpu.regs (rs_of i)) m.cpu.lo (interlock_hi_lo m))
  mul_div Opcode.mtlo i m = some (set_hi_lo m.cpu.hi (m.cpu.regs (rs_of i)) (interlock_hi_lo m))
  mul_div _ i m = none
