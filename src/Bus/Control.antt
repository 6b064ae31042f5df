-- ===== src/Bus/Control.antt =====
-- The memory control registers: psxemu/source/psxemu/MemoryControl.cpp, with `ReconfigureBIOS` and
-- `ReconfigureRAM` of psxemu/source/psxemu/SystemBus.cpp.
use psx.Base.{
  ℕ, ◌-◌, ◌*◌, ◌/◌, ◌%◌, ◌^◌, bit_and, bit_or, Bool, true, false, not, ◌&&◌, ◌==◌, if◌then◌else◌,
}
use psx.Base.Words.{add32, bit, all_ones}
use psx.Bus.Config.{compute_delays, write_conf, region_size}
use psx.Bus.State.{GuestMemory, Bus}

-- The end of the RAM for a setting of its size.
unfoldable pub ram_end_of : ℕ → ℕ
ram_end_of size =
    let mega : ℕ = 2 ^ 20 in
    if size == 0
    then mega
    else if size == 2
    then mega
    else if size == 1
    then 4 * mega
    else if size == 3
    then 4 * mega
    else if size == 4
    then 2 * mega
    else if size == 6
    then 2 * mega
    else 8 * mega

-- The scratchpad is there while both of its bits are set.
abbrev pub scratch_en : ℕ → Bool
scratch_en raw = bit 3 raw == 1 && bit 7 raw == 1

module _ (memory : GuestMemory) {Device : Type 0} where
  open memory use {Guest, remap_ram, remap_bios, map_scratchpad}

  unfoldable pub reconfigure_ram : ℕ → Bus Guest Device → Bus Guest Device
  reconfigure_ram value b = if value == b.ram_config then b else record b {
    ram_config = value;
    ram_end = ram_end_of (value / 2 ^ 9 % 8);
    guest = remap_ram (value / 2 ^ 9 % 8) b.guest;
  }

  unfoldable pub reconfigure_bios : ℕ → Bus Guest Device → Bus Guest Device
  reconfigure_bios value b = if b.bios_config.delay_size == value then b else record b {
    bios_config = write_conf b.com_delays value b.bios_config;
    guest = remap_bios value b.guest;
  }

  -- The delays of the four regions follow the common ones.
  unfoldable pub write_com_delay : ℕ → Bus Guest Device → Bus Guest Device
  write_com_delay value b = if b.com_delays == value then b else record b {
    com_delays = value;
    bios_config = compute_delays value b.bios_config;
    exp1_config = compute_delays value b.exp1_config;
    exp2_config = compute_delays value b.exp2_config;
    exp3_config = compute_delays value b.exp3_config;
  }

  -- The base of the first expansion, aligned to its size.
  unfoldable pub write_exp1_base : ℕ → Bus Guest Device → Bus Guest Device
  write_exp1_base value b =
      let size = region_size b.exp1_config.delay_size in
      let base = bit_and (bit_or (value % 2 ^ 24) 0x1f00_0000) (all_ones - (size - 1)) in
      record b { exp1_config = record (b.exp1_config) { base = base; end_ = add32 base size } }

  -- `WriteMemControl`
  unfoldable pub write_mem_control : ℕ → ℕ → Bus Guest Device → Bus Guest Device
  write_mem_control address value b =
      let conf = write_conf b.com_delays value in
      if address == 0x10
      then reconfigure_bios value b
      else if address == 0x20
      then write_com_delay value b
      else if address == 0
      then write_exp1_base value b
      else if address == 4
      then record b { exp2_enable = value == 0x1f80_2000 }
      else if address == 8
      then record b { exp1_config = conf b.exp1_config }
      else if address == 0x1c
      then record b { exp2_config = conf b.exp2_config }
      else if address == 0xc
      then record b { exp3_config = conf b.exp3_config }
      else if address == 0x14
      then record b { spu_config = conf b.spu_config }
      else if address == 0x18
      then record b { cdrom_config = conf b.cdrom_config }
      else b

  -- `ReadMemControl`
  unfoldable pub read_mem_control : ℕ → Bus Guest Device → ℕ
  read_mem_control address b =
      if address == 0x10
      then b.bios_config.delay_size
      else if address == 0x20
      then b.com_delays
      else if address == 0
      then b.exp1_config.base
      else if address == 4
      then b.exp2_config.base
      else if address == 8
      then b.exp1_config.delay_size
      else if address == 0x1c
      then b.exp2_config.delay_size
      else if address == 0xc
      then b.exp3_config.delay_size
      else if address == 0x14
      then b.spu_config.delay_size
      else if address == 0x18
      then b.cdrom_config.delay_size
      else 0

  -- `WriteCacheControl`
  unfoldable pub write_cache_control : ℕ → Bus Guest Device → Bus Guest Device
  write_cache_control value b =
      if b.cache_control == value
      then b
      else (let b' = record b { cache_control = value } in
          if scratch_en b.cache_control && not (scratch_en value)
          then record b' { guest = map_scratchpad false b.guest }
          else if not (scratch_en b.cache_control) && scratch_en value
          then record b' { guest = map_scratchpad true b.guest }
          else b')
