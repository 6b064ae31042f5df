-- ===== src/Bus/Tests.antt =====
-- Runs of the bus, and the theorems at concrete inputs.
use psx.Base.{ℕ, ◌+◌, ◌%◌, ◌^◌, refl, true, false, arith}
use psx.Cpu.State.{Status, half, width_bits, update}
use psx.Cpu.Samples.{plain_status}
use psx.Bus.Config.{RegionConfig}
use psx.Bus.State.{GuestMemory, Devices, Bus}
use psx.Bus.Access.{write}
use psx.Bus.Faults.{Refused, write_user}

-- A memory whose cells are apart from one another, and no devices.
abbrev plain_memory : GuestMemory
plain_memory = record {
  Guest = ℕ → ℕ;
  guest_load = λ w a g. g a % 2 ^ width_bits w;
  guest_store = λ w a v g. update g a v;
  remap_ram = λ n g. g;
  remap_bios = λ n g. g;
  map_scratchpad = λ on g. g;
}

abbrev no_devices : Devices
no_devices = record {
  Device = Unit {0};
  read_device = λ t w a s d. (0, s, d);
  write_device = λ t w a v s d. (s, d);
}

abbrev region : ℕ → ℕ → RegionConfig
region base size = record {
  delay_size = 0x13243f;
  base = base;
  end_ = base + size;
  read_nonseq = 7;
  read_seq = 4;
  write_nonseq = 7;
  write_seq = 4;
}

abbrev small_bus : Bus (ℕ → ℕ) (Unit {0})
small_bus = record {
  guest = λ a. 0;
  device = tt;
  curr_cycles = 0;
  ram_end = 2 ^ 21;
  ram_config = 0xb88;
  cache_control = 0;
  com_delays = 0x31125;
  bios_config = region 0x1fc0_0000 0x80000;
  exp1_config = region 0x1f00_0000 0x80000;
  exp2_config = region 0x1f80_2000 0x80;
  exp3_config = region 0x1fa0_0000 1;
  spu_config = region 0 0;
  cdrom_config = region 0 0;
  exp2_enable = true;
}

abbrev user_status : Status
user_status = record plain_status { curr_mode = 1 }

write_user_example :
    Refused plain_memory no_devices true small_bus
      (write plain_memory no_devices half true false 0x8000_1000 77 user_status small_bus)
write_user_example =
    write_user plain_memory no_devices half true false 0x8000_1000 77 user_status small_bus refl
      (omega arith) (omega arith)
