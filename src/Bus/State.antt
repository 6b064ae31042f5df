-- ===== src/Bus/State.antt =====
-- The bus and what it calls: the fields of `SystemBus` of psxemu/include/psxemu/SystemBus.hpp.
use psx.Base.{ℕ, Bool, ◌==◌}
use psx.Base.Words.{bit}
use psx.Cpu.State.{Status, Width}
use psx.Bus.Config.{RegionConfig}

-- The registers of the I/O region, by the test of `WriteIO` and `ReadIO` that finds them.
pub data Target : Type 0 where
  mem_control ram_size interrupt_stat interrupt_mask : Target
  timer : ℕ → Target
  dma gp0 gp1 cdrom sio0 sio1 mdec0 mdec1 spu unused : Target

-- The memory of the guest, which the code maps into the host's address space: a load and a store at
-- an address of the guest, and the changes of the mapping.
pub record GuestMemory : Type 1 where
  pub Guest : Type 0
  pub guest_load : Width → ℕ → Guest → ℕ
  pub guest_store : Width → ℕ → ℕ → Guest → Guest
  pub remap_ram : ℕ → Guest → Guest
  pub remap_bios : ℕ → Guest → Guest
  pub map_scratchpad : Bool → Guest → Guest

-- The devices behind the I/O region, which may change the status.
pub record Devices : Type 1 where
  pub Device : Type 0
  pub read_device : Target → Width → ℕ → Status → Device → ℕ × Status × Device
  pub write_device : Target → Width → ℕ → ℕ → Status → Device → Status × Device

pub record Bus (Guest Device : Type 0) : Type 0 where
  pub guest : Guest
  pub device : Device
  pub curr_cycles : ℕ
  pub ram_end : ℕ
  pub ram_config : ℕ
  pub cache_control : ℕ
  pub com_delays : ℕ
  pub bios_config : RegionConfig
  pub exp1_config : RegionConfig
  pub exp2_config : RegionConfig
  pub exp3_config : RegionConfig
  pub spu_config : RegionConfig
  pub cdrom_config : RegionConfig
  pub exp2_enable : Bool

abbrev pub cache_en : ℕ → Bool
cache_en raw = bit 11 raw == 1
