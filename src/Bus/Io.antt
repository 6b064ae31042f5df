-- ===== src/Bus/Io.antt =====
-- The I/O region: `WriteIO` and `ReadIO` of psxemu/include/psxemu/SystemBus.hpp, and the table `LOCKED`
-- of psxemu/include/psxemu/IOGaps.hpp. The registers of the bus itself are here; what lies behind the
-- others is the interface `Devices`.
use psx.Base.{
  ℕ, ◌+◌, ◌-◌, ◌*◌, ◌/◌, ◌%◌, ◌^◌, bit_and, Bool, true, false, ◌&&◌, ◌||◌, List, [], ◌∷◌, ltb, leb,
  if◌then◌else◌,
}
use psx.Cpu.State.{Status, Width, byte, half, word, width_bits}
use psx.Bus.Config.{RegionConfig, access_time}
use psx.Bus.State.{
  Target, GuestMemory, Devices, Bus, mem_control, ram_size, interrupt_stat, interrupt_mask, timer,
  dma, gp0, gp1, cdrom, sio0, sio1, mdec0, mdec1, spu, unused,
}
use psx.Bus.Control.{write_mem_control, read_mem_control, reconfigure_ram}

-- The gaps that nothing answers, as offsets and lengths.
abbrev pub locked_gaps : List (ℕ × ℕ)
locked_gaps =
    (0x24, 0x1c)
    ∷ (0x64, 0xc)
    ∷ (0x78, 0x8)
    ∷ (0x140, 0x6c0)
    ∷ (0x804, 0xc)
    ∷ (0x818, 0x8)
    ∷ (0x828, 0x3d8)
    ∷ []

abbrev pub in_gaps : ℕ → List (ℕ × ℕ) → Bool
in_gaps offset [] = false
in_gaps offset ((base, size) ∷ gaps) =
    leb base offset && ltb offset (base + size) || in_gaps offset gaps

unfoldable pub locked : ℕ → Bool
locked address = in_gaps (address % 2 ^ 12) locked_gaps

abbrev pub within : ℕ → ℕ → ℕ → Bool
within lower upper address = leb lower address && ltb address upper

-- The tests of both functions; those of the two interrupt registers are disjoint.
unfoldable pub io_target : ℕ → Target
io_target address =
    if ltb address 0x24
    then mem_control
    else if within 0x60 0x64 address
    then ram_size
    else if within 0x70 0x74 address
    then interrupt_stat
    else if within 0x74 0x78 address
    then interrupt_mask
    else if within 0x100 0x110 address
    then timer 0
    else if within 0x110 0x120 address
    then timer 1
    else if within 0x120 0x130 address
    then timer 2
    else if within 0x80 0x100 address
    then dma
    else if within 0x810 0x814 address
    then gp0
    else if within 0x814 0x818 address
    then gp1
    else if within 0x800 0x804 address
    then cdrom
    else if within 0x40 0x50 address
    then sio0
    else if within 0x50 0x60 address
    then sio1
    else if within 0x820 0x824 address
    then mdec0
    else if within 0x824 0x828 address
    then mdec1
    else if leb 0xc00 address
    then spu
    else unused

-- A value on its byte lanes.
unfoldable pub lane_value : Width → ℕ → ℕ → ℕ
lane_value word address value = value
lane_value w address value = value * 2 ^ (8 * (address % 4)) % 2 ^ 32

-- The loop over the ten request bits: a bit that is not written is acknowledged.
unfoldable pub acknowledge : ℕ → ℕ → ℕ
acknowledge value request = bit_and request (2 ^ 32 - 2 ^ 10 + value % 2 ^ 10)

abbrev pub width_bytes : Width → ℕ
width_bytes byte = 1
width_bytes half = 2
width_bytes word = 4

module _ (memory : GuestMemory) (devices : Devices) where
  open memory use {Guest}
  open devices use {Device, read_device, write_device}

  unfoldable pub charge : ℕ → Bus Guest Device → Bus Guest Device
  charge cycles b = record b { curr_cycles = (b.curr_cycles + cycles) % 2 ^ 64 }

  -- The drive and the sound chip take their time.
  unfoldable pub charge_read : Bool → Width → RegionConfig → Bus Guest Device → Bus Guest Device
  charge_read false w r b = b
  charge_read true w r b =
      charge (access_time (width_bytes w) r.delay_size r.read_nonseq r.read_seq) b

  unfoldable pub charge_write : Bool → Width → RegionConfig → Bus Guest Device → Bus Guest Device
  charge_write false w r b = b
  charge_write true w r b =
      charge (access_time (width_bytes w) r.delay_size r.write_nonseq r.write_seq) b

  unfoldable pub to_device :
      Target → Width → ℕ → ℕ → Status → Bus Guest Device → Status × Bus Guest Device
  to_device t w address value s b =
      let (s', d) = write_device t w address value s b.device in (s', record b { device = d })

  unfoldable pub from_device :
      Target → Width → ℕ → Status → Bus Guest Device → ℕ × Status × Bus Guest Device
  from_device t w address s b =
      let (v, s', d) = read_device t w address s b.device in
      (v % 2 ^ width_bits w, s', record b { device = d })

  -- `WriteIO` at an offset in the region.
  unfoldable pub write_target :
      Target → Width → Bool → ℕ → ℕ → Status → Bus Guest Device → Status × Bus Guest Device
  write_target mem_control w c address value s b =
      (s, write_mem_control memory (address - address % 4) (lane_value w address value) b)
  write_target ram_size w c address value s b =
      (s, reconfigure_ram memory (lane_value w address value) b)
  write_target interrupt_stat w c address value s b = (
    record s { interrupt_request = acknowledge (lane_value w address value) s.interrupt_request },
    b,
  )
  write_target interrupt_mask w c address value s b =
      (record s { interrupt_mask = lane_value w address value }, b)
  write_target unused w c address value s b = (s, b)
  write_target cdrom w c address value s b =
      to_device cdrom w address value s (charge_write c w b.cdrom_config b)
  write_target spu w c address value s b =
      to_device spu w address value s (charge_write c w b.spu_config b)
  write_target t w c address value s b = to_device t w address value s b

  unfoldable pub write_io :
      Width → Bool → ℕ → ℕ → Status → Bus Guest Device → Status × Bus Guest Device
  write_io w c address value s b =
      write_target (io_target (address % 2 ^ 12)) w c (address % 2 ^ 12) value s b

  -- A register from its byte lane on.
  unfoldable pub lane_of : Width → ℕ → ℕ → ℕ
  lane_of w address register = register / 2 ^ (8 * (address % 4)) % 2 ^ width_bits w

  -- `ReadIO`
  unfoldable pub read_target :
      Target → Width → Bool → ℕ → Status → Bus Guest Device → ℕ × Status × Bus Guest Device
  read_target mem_control w c address s b =
      (lane_of w address (read_mem_control memory (address - address % 4) b), s, b)
  read_target ram_size w c address s b = (lane_of w address b.ram_config, s, b)
  read_target interrupt_mask w c address s b = (lane_of w address s.interrupt_mask, s, b)
  read_target interrupt_stat w c address s b = (lane_of w address s.interrupt_request, s, b)
  read_target unused w c address s b = (0, s, b)
  read_target cdrom w c address s b =
      from_device cdrom w address s (charge_read c w b.cdrom_config b)
  read_target spu w c address s b = from_device spu w address s (charge_read c w b.spu_config b)
  read_target t w c address s b = from_device t w address s b

  unfoldable pub read_io :
      Width → Bool → ℕ → Status → Bus Guest Device → ℕ × Status × Bus Guest Device
  read_io w c address s b = read_target (io_target (address % 2 ^ 12)) w c (address % 2 ^ 12) s b
