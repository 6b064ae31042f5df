-- ===== src/Cpu/Exceptions.antt =====
-- psxemu/source/psxemu/cop0.cpp, `Exception`, `ExitException` and `CoprocessorUnusableException` of
-- SystemStatus.hpp, and the coprocessor 0 accesses of psxemu/source/psxemu/MIPS1.cpp.
use psx.Base.{
  ℕ, ◌+◌, ◌-◌, ◌*◌, ◌/◌, ◌%◌, ◌^◌, Bool, true, false, not, ◌&&◌, ◌||◌, Option, none, some, bit_and,
  bit_or, ltb, leb, ◌==◌, if◌then◌else◌,
}
use psx.Base.Words.{all_ones, sub32, bit, set_bit}
use psx.Cpu.State.{Excode, excode_number, Status, Cop0, Machine, add_load_delay}

-- The stack of modes in `sr`: bits 0, 2 and 4 enable interrupts, bits 1, 3 and 5 are the modes.
unfoldable pub push_mode : ℕ → ℕ
push_mode sr =
    let s1 = set_bit 5 (bit 3 sr) sr in
    let s2 = set_bit 4 (bit 2 s1) s1 in
    let s3 = set_bit 3 (bit 1 s2) s2 in
    let s4 = set_bit 2 (bit 0 s3) s3 in set_bit 0 0 (set_bit 1 0 s4)

unfoldable pub pop_mode : ℕ → ℕ
pop_mode sr =
    let s1 = set_bit 1 (bit 3 sr) sr in
    let s2 = set_bit 0 (bit 2 s1) s1 in let s3 = set_bit 3 (bit 5 s2) s2 in set_bit 2 (bit 4 s3) s3

-- The field of five bits at bit 2 of `cause`.
abbrev pub set_exception_code : ℕ → ℕ → ℕ
set_exception_code code cause = cause / 2 ^ 7 * 2 ^ 7 + code * 2 ^ 2 + cause % 2 ^ 2

-- The field of two bits at bit 28 of `cause`.
abbrev pub set_cop_number : ℕ → ℕ → ℕ
set_cop_number n cause = cause / 2 ^ 30 * 2 ^ 30 + n * 2 ^ 28 + cause % 2 ^ 28

-- `cop0::Exception` and `cop0::Rfe`.
unfoldable pub cop0_exception : Excode → Cop0 → Cop0
cop0_exception code c = record c {
  sr = push_mode c.sr;
  cause = set_exception_code (excode_number code) c.cause;
}

unfoldable pub cop0_rfe : Cop0 → Cop0
cop0_rfe c = record c { sr = pop_mode c.sr }

abbrev pub is_address_error : Excode → Bool
is_address_error Excode.adel = true
is_address_error Excode.ades = true
is_address_error _ = false

abbrev pub is_break : Excode → Bool
is_break Excode.bp = true
is_break _ = false

-- `BREAK_VECTORS` and `GENERAL_VECTORS` at the boot bit of `sr`.
abbrev pub break_vector : ℕ → ℕ
break_vector bev = if bev == 0 then 0x8000_0040 else 0xbfc0_0140

abbrev pub general_vector : ℕ → ℕ
general_vector bev = if bev == 0 then 0x8000_0080 else 0xbfc0_0180

abbrev pub of_bool : Bool → ℕ
of_bool true = 1
of_bool false = 0

module _ {B G : Type 0} where
  -- The registers that `system_status::Exception` leaves in coprocessor 0.
  unfoldable pub exception_cop0 : Excode → Machine B G → Cop0
  exception_cop0 code m =
      let c = cop0_exception code m.cpu.cop0 in
      record c {
        cause = set_bit 31 (of_bool m.status.branch_delay) c.cause;
        epc = if m.status.branch_delay then sub32 m.cpu.pc 4 else m.cpu.pc;
        badvaddr = if is_address_error code then m.status.badvaddr else c.badvaddr;
      }

  -- `system_status::Exception`
  unfoldable pub exception : Excode → Bool → Machine B G → Machine B G
  exception code cop0_break m =
      let c = exception_cop0 code m in
      let bev = bit 22 c.sr in
      record m {
        status = record (m.status) { curr_mode = bit 1 c.sr };
        cpu = record (m.cpu) {
          cop0 = c;
          pc = if is_break code && cop0_break then break_vector bev else general_vector bev;
        };
      }

  -- `system_status::CoprocessorUnusableException`
  unfoldable pub coprocessor_unusable : ℕ → Machine B G → Machine B G
  coprocessor_unusable n m = exception Excode.cou false (record m {
    cpu = record (m.cpu) {
      cop0 = record (m.cpu.cop0) { cause = set_cop_number n m.cpu.cop0.cause };
    };
  })

  -- `system_status::ExitException`
  unfoldable pub exit_exception : Machine B G → Machine B G
  exit_exception m =
      let c = cop0_rfe m.cpu.cop0 in
      record m {
        status = record (m.status) { curr_mode = bit 1 c.sr };
        cpu = record (m.cpu) { cop0 = c };
      }

-- The switch of `ReadCOP0` over the registers below 16; `none` is its default case.
unfoldable pub cop0_value : ℕ → Bool → Cop0 → Option ℕ
cop0_value reg pending c =
    if reg == 3
    then some c.bpc
    else if reg == 5
    then some c.bda
    else if reg == 6
    then some c.jumpdest
    else if reg == 7
    then some c.dcic
    else if reg == 8
    then some c.badvaddr
    else if reg == 9
    then some c.bdam
    else if reg == 11
    then some c.bpcm
    else if reg == 12
    then some c.sr
    else if reg == 13
    then some (if pending then bit_or c.cause (2 ^ 10) else c.cause)
    else if reg == 14
    then some c.epc
    else if reg == 15
    then some c.prid
    else none

-- What `ReadCOP0` does with a register: yields a value, or takes an exception.
pub data Cop0Read : Type 0 where
  value : ℕ → Cop0Read
  fails : Excode → Cop0Read

-- User mode with coprocessor 0 not enabled.
abbrev pub cop0_locked : Cop0 → Bool
cop0_locked c = bit 1 c.sr == 1 && bit 28 c.sr == 0

abbrev pub is_pending : Status → Bool
is_pending s = not (bit_and s.interrupt_mask s.interrupt_request == 0)

abbrev or_reserved : Option ℕ → Cop0Read
or_reserved none = fails Excode.ri
or_reserved (some v) = value v

unfoldable pub cop0_read : ℕ → Status → Cop0 → Cop0Read
cop0_read reg s c =
    if leb 16 reg && ltb reg 32
    then value 0xdead_beef
    else if cop0_locked c
    then fails Excode.cou
    else or_reserved (cop0_value reg (is_pending s) c)

abbrev pub dcic_write_mask : ℕ
dcic_write_mask = 0b1111_1111_1000_0000_1111_0000_0011_1111

abbrev pub sr_write_mask : ℕ
sr_write_mask = 0b1111_0010_0111_1111_1111_1111_0011_1111

abbrev pub cause_write_mask : ℕ
cause_write_mask = 3 * 2 ^ 8

-- reg &= ~mask; reg |= value & mask
unfoldable pub masked_write : ℕ → ℕ → ℕ → ℕ
masked_write mask old v = bit_or (bit_and old (all_ones - mask)) (bit_and v mask)

-- The switch of `WriteCOP0`; `none` is its default case.
unfoldable pub cop0_written : ℕ → ℕ → Cop0 → Option Cop0
cop0_written v reg c =
    if reg == 3
    then some (record c { bpc = v })
    else if reg == 5
    then some (record c { bda = v })
    else if reg == 7
    then some (record c { dcic = masked_write dcic_write_mask c.dcic v })
    else if reg == 9
    then some (record c { bdam = v })
    else if reg == 11
    then some (record c { bpcm = v })
    else if reg == 12
    then some (record c { sr = masked_write sr_write_mask c.sr v })
    else if reg == 13
    then some (record c { cause = masked_write cause_write_mask c.cause v })
    else if reg == 6 || reg == 8 || reg == 14 || reg == 15
    then some c
    else none

module _ {B G : Type 0} where
  abbrev or_reserved_write : Machine B G → Option Cop0 → Machine B G
  or_reserved_write m none = exception Excode.ri false m
  or_reserved_write m (some c) = record m { cpu = record (m.cpu) { cop0 = c } }

  -- `MIPS1::WriteCOP0`
  unfoldable pub write_cop0 : ℕ → ℕ → Machine B G → Machine B G
  write_cop0 v reg m =
      if leb 16 reg && ltb reg 32
      then m
      else if cop0_locked m.cpu.cop0
      then exception Excode.cou false m
      else or_reserved_write m (cop0_written v reg m.cpu.cop0)

  abbrev load_or_fail : ℕ → Machine B G → Cop0Read → Machine B G
  load_or_fail dest m (value v) = add_load_delay v dest m
  load_or_fail dest m (fails code) = exception code false m

  -- `MIPS1::ReadCOP0(cop0_reg, dest_reg)`
  unfoldable pub read_cop0 : ℕ → ℕ → Machine B G → Machine B G
  read_cop0 reg dest m = load_or_fail dest m (cop0_read reg m.status m.cpu.cop0)

  abbrev value_or_fail : Machine B G → Cop0Read → ℕ × Machine B G
  value_or_fail m (value v) = (v, m)
  value_or_fail m (fails code) = (0, exception code false m)

  -- `MIPS1::ReadCOP0(cop0_reg)`
  unfoldable pub read_cop0_value : ℕ → Machine B G → ℕ × Machine B G
  read_cop0_value reg m = value_or_fail m (cop0_read reg m.status m.cpu.cop0)
