-- ===== src/Bus/Faults.antt =====
-- What the bus refuses: laws of `SystemBus::Read` and `Write`.
use psx.Base.{
  ◌≤◌, ◌==◌, ℕ, ◌%◌, ◌^◌, ◌<◌, ◌≡◌, ◌≢◌, refl, ◌⊎◌, Bool, true, false, not, ◌&&◌, some, arith,
  if_either,
}
use psx.Cpu.State.{Status, Excode, Width}
use psx.Bus.State.{GuestMemory, Devices, Bus}
use psx.Bus.Io.{locked, width_bytes}
use psx.Bus.Access.{
  WriteResult, in_scratchpad, in_region, write, fault, address_fault, in_io, in_kuseg_void,
  in_forbidden_segment, memory_segment, between_physical, kseg2_start, cache_control_address,
}

-- The status after a read that may raise exceptions, or may not, and is refused.
abbrev pub raised : Bool → Excode → ℕ → Status → Status
raised false code address s = s
raised true code address s = record s {
  exception = true;
  exception_number = code;
  badvaddr = address;
}

-- An aligned address in KUSEG, or in KSEG0 or KSEG1 when the mode is not the user's.
pub record Reachable (w : Width) (address : ℕ) (s : Status) : Type 0 where
  pub aligned : address % width_bytes w ≡ 0
  pub segment :
      (address < 2 ^ 29) ⊎ (2 ^ 31 ≤ address) × (address < kseg2_start) × (s.curr_mode ≢ 1)

module _ (memory : GuestMemory) (devices : Devices) where
  open memory use {Guest}
  open devices use {Device}

  -- An address outside of the RAM and of the BIOS, at the device registers or not.
  pub record Elsewhere (b : Bus Guest Device) (address : ℕ) (device : Bool) : Type 0 where
    pub ram : between_physical 0 b.ram_end address ≡ false
    pub bios : in_region b.bios_config address ≡ false
    pub io : in_io address ≡ device

  -- The reads that are refused, with the exception and the address that `badvaddr` then holds: of a misaligned
  -- address, of the void of KUSEG, of a kernel segment in user mode, of a locked device register, of the scratchpad
  -- through KSEG1, and of an address that nothing answers.
  pub data Refusal (w : Width) (address : ℕ) (s : Status) (b : Bus Guest Device)
      : Excode → ℕ → Type 0 where
    misaligned : address % width_bytes w ≢ 0 → Refusal w address s b Excode.adel address
    void :
        address % width_bytes w ≡ 0
        → 2 ^ 29 ≤ address
        → address < 2 ^ 31
        → Refusal w address s b Excode.dbe s.badvaddr
    privileged :
        address % width_bytes w ≡ 0
        → 2 ^ 31 ≤ address
        → address < kseg2_start
        → s.curr_mode ≡ 1
        → Refusal w address s b Excode.adel address
    locked_device :
        Reachable w address s
        → Elsewhere b address true
        → locked address ≡ true
        → Refusal w address s b Excode.ibe s.badvaddr
    uncached_scratchpad :
        Reachable w address s
        → Elsewhere b address false
        → in_scratchpad address ≡ true
        → memory_segment address ≡ 5
        → Refusal w address s b Excode.dbe s.badvaddr
    unanswered :
        Reachable w address s
        → Elsewhere b address false
        → in_scratchpad address ≡ false
        → b.exp2_enable && in_region b.exp2_config address ≡ false
        → in_region b.exp1_config address ≡ false
        → in_region b.exp3_config address ≡ false
        → Refusal w address s b Excode.dbe s.badvaddr

  -- A write that changes nothing on the bus, and has raised an exception if it may.
  pub data Refused (e : Bool) (b : Bus Guest Device) : WriteResult memory devices → Type 0 where
    refused : (s' : Status) → (e ≡ true → s'.exception ≡ true) → Refused e b (some (s', b))

  Refused-fault :
      (e : Bool) (code : Excode) (s : Status) (b : Bus Guest Device)
      → Refused e b (some (fault e code s, b))
  unfolding fault
  Refused-fault false code s b = refused s (λ h. cc)
  Refused-fault true code s b = refused _ (λ h. refl)

  Refused-address_fault :
      (e : Bool) (code : Excode) (address : ℕ) (s : Status) (b : Bus Guest Device)
      → Refused e b (some (address_fault e code address s, b))
  unfolding address_fault
  Refused-address_fault false code address s b = refused s (λ h. cc)
  Refused-address_fault true code address s b = refused _ (λ h. refl)

  -- A user program cannot write outside of KUSEG: but for the cache control register, a write in user
  -- mode to another segment changes nothing on the bus, and raises an exception if it may.
  pub write_user :
      (w : Width) (e c : Bool) (address value : ℕ) (s : Status) (b : Bus Guest Device)
      → s.curr_mode ≡ 1
      → memory_segment address ≢ 0
      → address ≢ cache_control_address
      → Refused e b (write memory devices w e c address value s b)
  unfolding write
  write_user w e c address value s b user segment other =
      let P = Refused e b in
      let elsewhere : (address == cache_control_address) ≡ false = ground arith in
      let forbidden : in_forbidden_segment s address ≡ true = ground arith in
      if_either P (not (address % width_bytes w == 0))
        (Refused-address_fault e Excode.ades address s b)
        (if_either P (in_kuseg_void address) (Refused-fault e Excode.dbe s b)
          (rw (elsewhere, forbidden) (Refused-address_fault e Excode.ades address s b)))
