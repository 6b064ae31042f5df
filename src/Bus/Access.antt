-- ===== src/Bus/Access.antt =====
-- `Read` and `Write` of psxemu/include/psxemu/SystemBus.hpp, with the segments and the physical address
-- of psxemu/include/psxemu/VirtualAddress.hpp. Their template parameters are the arguments `w` (the
-- size), `e` (raise exceptions) and `c` (count cycles); `none` is a `__debugbreak`.
use psx.Base.{
  ℕ, ◌/◌, ◌%◌, ◌^◌, Bool, true, false, not, ◌&&◌, ◌||◌, Option, none, some, leb, ◌==◌,
  if◌then◌else◌,
}
use psx.Cpu.State.{Status, Excode, Width}
use psx.Bus.Config.{RegionConfig}
use psx.Bus.State.{GuestMemory, Devices, Bus}
use psx.Bus.Control.{write_cache_control}
use psx.Bus.Io.{locked, within, charge, charge_read, read_io, write_io, width_bytes}

abbrev pub memory_segment : ℕ → ℕ
memory_segment address = address / 2 ^ 29

abbrev pub physical_address : ℕ → ℕ
physical_address address = address % 2 ^ 29

abbrev pub between_physical : ℕ → ℕ → ℕ → Bool
between_physical lower upper address = within lower upper (physical_address address)

abbrev pub in_region : RegionConfig → ℕ → Bool
in_region r address = between_physical r.base r.end_ address

-- The upper 1.5 GB of KUSEG, and what lies above KSEG1.
abbrev pub in_kuseg_void : ℕ → Bool
in_kuseg_void address = within (2 ^ 29) (2 ^ 31) address

abbrev pub kseg2_start : ℕ
kseg2_start = 0xc000_0000

abbrev pub cache_control_address : ℕ
cache_control_address = 0xfffe_0130

abbrev pub in_io : ℕ → Bool
in_io address = between_physical 0x1f80_1000 0x1f80_2000 address

abbrev pub in_scratchpad : ℕ → Bool
in_scratchpad address = between_physical 0x1f80_0000 0x1f80_1000 address

-- User mode is the mode 1; KUSEG is segment 0.
abbrev pub in_forbidden_segment : Status → ℕ → Bool
in_forbidden_segment s address = s.curr_mode == 1 && not (memory_segment address == 0)

-- The faults: one that keeps `badvaddr`, and one that records the address.
unfoldable pub fault : Bool → Excode → Status → Status
fault false code s = s
fault true code s = record s { exception = true; exception_number = code }

unfoldable pub address_fault : Bool → Excode → ℕ → Status → Status
address_fault false code address s = s
address_fault true code address s = record s {
  exception = true;
  exception_number = code;
  badvaddr = address;
}

module _ (memory : GuestMemory) (devices : Devices) where
  open memory use {Guest, guest_load, guest_store}
  open devices use {Device}

  abbrev pub ReadResult : Type 0
  ReadResult = Option (ℕ × Status × Bus Guest Device)

  -- The expansions read as 0.
  unfoldable pub read_expansion :
      RegionConfig → Width → Bool → Status → Bus Guest Device → ReadResult
  read_expansion r w c s b = some (0, s, charge_read memory devices c w r b)

  -- Past the segment tests, what answers a read.
  unfoldable pub read_physical : Width → Bool → Bool → ℕ → Status → Bus Guest Device → ReadResult
  read_physical w e c address s b =
      if between_physical 0 b.ram_end address
      then some (guest_load w address b.guest, s, if c then charge memory devices 5 b else b)
      else if in_region b.bios_config address
      then some (guest_load w address b.guest, s, charge_read memory devices c w b.bios_config b)
      else if in_io address
      then if locked address
        then some (0, fault e Excode.ibe s, b)
        else some (read_io memory devices w c address s b)
      else if in_scratchpad address
      then if memory_segment address == 5
        then some (0, fault e Excode.dbe s, b)
        else some (guest_load w address b.guest, s, b)
      else if b.exp2_enable && in_region b.exp2_config address
      then read_expansion b.exp2_config w c s b
      else if in_region b.exp1_config address
      then read_expansion b.exp1_config w c s b
      else if in_region b.exp3_config address
      then read_expansion b.exp3_config w c s b
      else some (0, fault e Excode.dbe s, b)

  unfoldable pub read : Width → Bool → Bool → ℕ → Status → Bus Guest Device → ReadResult
  read w e c address s b =
      if not (address % width_bytes w == 0)
      then some (0, address_fault e Excode.adel address s, b)
      else if in_kuseg_void address
      then some (0, fault e Excode.dbe s, b)
      else if leb kseg2_start address
      then none
      else if in_forbidden_segment s address
      then some (0, address_fault e Excode.adel address s, b)
      else read_physical w e c address s b

  abbrev pub WriteResult : Type 0
  WriteResult = Option (Status × Bus Guest Device)

  -- Past the segment tests, what takes a write. The expansions and the BIOS take it and keep nothing.
  unfoldable pub write_physical :
      Width → Bool → Bool → ℕ → ℕ → Status → Bus Guest Device → WriteResult
  write_physical w e c address value s b =
      if between_physical 0 b.ram_end address
      then some (s, record b { guest = guest_store w address value b.guest })
      else if in_io address
      then if locked address
        then some (fault e Excode.dbe s, b)
        else some (write_io memory devices w c address value s b)
      else if in_scratchpad address
      then if memory_segment address == 5
        then some (fault e Excode.dbe s, b)
        else some (s, record b { guest = guest_store w address value b.guest })
      else if b.exp2_enable && in_region b.exp2_config address
      then some (s, b)
      else if in_region b.exp1_config address
          || in_region b.exp3_config address
          || in_region b.bios_config address
      then some (s, b)
      else some (fault e Excode.dbe s, b)

  unfoldable pub write : Width → Bool → Bool → ℕ → ℕ → Status → Bus Guest Device → WriteResult
  write w e c address value s b =
      if not (address % width_bytes w == 0)
      then some (address_fault e Excode.ades address s, b)
      else if in_kuseg_void address
      then some (fault e Excode.dbe s, b)
      else if address == cache_control_address
      then some (s, write_cache_control memory value b)
      else if in_forbidden_segment s address
      then some (address_fault e Excode.ades address s, b)
      else write_physical w e c address value s b
