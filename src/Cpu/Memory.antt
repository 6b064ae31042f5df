-- ===== src/Cpu/Memory.antt =====
-- psxemu/include/psxemu/InstructionHandlers.hpp: `Store` and `Load`, over the bus of the environment.
use psx.Base.{
  ℕ, ◌*◌, ◌/◌, ◌%◌, ◌^◌, Bool, true, false, ◌||◌, Option, none, some, bit_and, bit_or, ◌==◌,
  if◌then◌else◌,
}
use psx.Base.Words.{add32, shl32, sext16, sext8, bit}
use psx.Cpu.State.{
  Machine, Env, Width, byte, half, word, invalid_reg, rs_of, rt_of, add_load_delay, ◌>>=◌,
}
use psx.Cpu.Opcode.{Opcode}

-- The word that SWL stores at byte `k` of the word `at`, and that of SWR.
unfoldable pub swl_merge : ℕ → ℕ → ℕ → ℕ
swl_merge k at v =
    if k == 0
    then bit_or (bit_and at 0xffff_ff00) (v / 2 ^ 24 % 2 ^ 8)
    else if k == 1
    then bit_or (bit_and at 0xffff_0000) (v / 2 ^ 16 % 2 ^ 16)
    else if k == 2
    then bit_or (bit_and at 0xff00_0000) (v / 2 ^ 8 % 2 ^ 24)
    else v

unfoldable pub swr_merge : ℕ → ℕ → ℕ → ℕ
swr_merge k at v =
    if k == 0
    then v
    else if k == 1
    then bit_or (bit_and at 0x0000_00ff) (shl32 (v % 2 ^ 24) 8)
    else if k == 2
    then bit_or (bit_and at 0x0000_ffff) (shl32 (v % 2 ^ 16) 16)
    else bit_or (bit_and at 0x00ff_ffff) (shl32 (v % 2 ^ 8) 24)

-- The register that LWL and LWR leave, from its old value `rt` and the aligned word.
unfoldable pub lwl_merge : ℕ → ℕ → ℕ → ℕ
lwl_merge k rt at =
    if k == 0
    then bit_or (bit_and rt 0x00ff_ffff) (shl32 at 24)
    else if k == 1
    then bit_or (bit_and rt 0x0000_ffff) (shl32 at 16)
    else if k == 2
    then bit_or (bit_and rt 0x0000_00ff) (shl32 at 8)
    else at

unfoldable pub lwr_merge : ℕ → ℕ → ℕ → ℕ
lwr_merge k rt at =
    if k == 0
    then at
    else if k == 1
    then bit_or (bit_and rt 0xff00_0000) (at / 2 ^ 8)
    else if k == 2
    then bit_or (bit_and rt 0xffff_0000) (at / 2 ^ 16)
    else bit_or (bit_and rt 0xffff_ff00) (at / 2 ^ 24)

abbrev pub aligned : ℕ → ℕ
aligned address = address / 4 * 4

module _ (env : Env) where
  open env use {Bus, Gte}

  -- `sysbus->Read<Ty, except, true>` and `sysbus->Write<Ty, true, true>`
  unfoldable pub bus_read : Width → Bool → ℕ → Machine Bus Gte → Option (ℕ × Machine Bus Gte)
  bus_read w except address m = elim (env.read w except true address m.status m.bus) [
    | none ↦ none
    | some (v, s, b) ↦ some (v, record m { status = s; bus = b })
  ]

  unfoldable pub bus_write : Width → ℕ → ℕ → Machine Bus Gte → Option (Machine Bus Gte)
  bus_write w address v m = elim (env.write w true true address v m.status m.bus) [
    | none ↦ none
    | some (s, b) ↦ some (record m { status = s; bus = b })
  ]

  abbrev pub store_address : ℕ → Machine Bus Gte → ℕ
  store_address i m = add32 (if rs_of i == 0 then 0 else m.cpu.regs (rs_of i)) (sext16 i)

  abbrev pub store_value : ℕ → Machine Bus Gte → ℕ
  store_value i m = if rt_of i == 0 then 0 else m.cpu.regs (rt_of i)

  -- Read the aligned word, merge it, write it back.
  store_merged : (ℕ → ℕ → ℕ → ℕ) → ℕ → Machine Bus Gte → Option (Machine Bus Gte)
  store_merged merge i m = do
    (at, m') ← bus_read word true (aligned (store_address i m)) m
    bus_write word (aligned (store_address i m))
        (merge (store_address i m % 4) at (store_value i m)) m'

  store_to_bus : Opcode → ℕ → Machine Bus Gte → Option (Machine Bus Gte)
  store_to_bus Opcode.sw i m = bus_write word (store_address i m) (store_value i m) m
  store_to_bus Opcode.sh i m = bus_write half (store_address i m) (store_value i m % 2 ^ 16) m
  store_to_bus Opcode.sb i m = bus_write byte (store_address i m) (store_value i m % 2 ^ 8) m
  store_to_bus Opcode.swl i m = store_merged swl_merge i m
  store_to_bus Opcode.swr i m = store_merged swr_merge i m
  store_to_bus _ i m = none

  -- With the cache isolated a store does nothing, at any opcode.
  unfoldable pub store : Opcode → ℕ → Machine Bus Gte → Option (Machine Bus Gte)
  unfolding store_to_bus store_merged
  store op i m = if bit 16 m.cpu.cop0.sr == 1 then some m else store_to_bus op i m

  abbrev pub load_address : ℕ → Machine Bus Gte → ℕ
  load_address i m = add32 (m.cpu.regs (rs_of i)) (sext16 i)

  -- `curr_delay.dest = InvalidReg` where that load is for the register at hand.
  abbrev pub cancel_delay : ℕ → Machine Bus Gte → Machine Bus Gte
  cancel_delay rt m =
      if m.status.curr_delay.dest == rt
      then record m {
        status = record (m.status) {
          curr_delay = record (m.status.curr_delay) { dest = invalid_reg };
        };
      }
      else m

  -- The old value that LWL and LWR merge with: a load in flight to the register is used up.
  abbrev pub merge_value : ℕ → Machine Bus Gte → ℕ
  merge_value rt m =
      if m.status.curr_delay.dest == rt then m.status.curr_delay.value else m.cpu.regs rt

  load_merged : (ℕ → ℕ → ℕ → ℕ) → ℕ → Machine Bus Gte → Option (ℕ × Machine Bus Gte)
  load_merged merge i m = do
    (at, m') ← bus_read word false (aligned (load_address i m)) (cancel_delay (rt_of i) m)
    some (merge (load_address i m % 4) (merge_value (rt_of i) m) at, m')

  unfoldable pub load_value : Opcode → ℕ → Machine Bus Gte → Option (ℕ × Machine Bus Gte)
  unfolding load_merged
  load_value Opcode.lw i m = bus_read word true (load_address i m) m
  load_value Opcode.lhu i m = bus_read half true (load_address i m) m
  load_value Opcode.lbu i m = bus_read byte true (load_address i m) m
  load_value Opcode.lh i m = do
    (v, m') ← bus_read half true (load_address i m) m
    some (sext16 v, m')
  load_value Opcode.lb i m = do
    (v, m') ← bus_read byte true (load_address i m) m
    some (sext8 v, m')
  load_value Opcode.lwl i m = load_merged lwl_merge i m
  load_value Opcode.lwr i m = load_merged lwr_merge i m
  load_value _ i m = none

  -- The end of `Load`: the value goes to the register after the next instruction.
  abbrev pub finish_load : ℕ → ℕ → Machine Bus Gte → Machine Bus Gte
  finish_load rt v m =
      if m.status.exception || rt == 0 then m else add_load_delay v rt (cancel_delay rt m)

  unfoldable pub load : Opcode → ℕ → Machine Bus Gte → Option (Machine Bus Gte)
  load op i m = do (v, m') ← load_value op i m; some (finish_load (rt_of i) v m')
