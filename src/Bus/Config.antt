-- ===== src/Bus/Config.antt =====
-- A region of the bus and its delays: `RegionConfig`, `DelaySizeConfig` and `ComDelay` of
-- psxemu/include/psxemu/SystemBus.hpp, and `ComputeDelays` of psxemu/source/psxemu/SystemBus.cpp.
use psx.Base.{ℕ, ◌+◌, ◌-◌, ◌*◌, ◌/◌, ◌%◌, ◌^◌, Bool, ltb, ◌==◌, if◌then◌else◌}
use psx.Base.Words.{add32, sub32, bit}

-- `delay_size` is the raw register; its bit-fields are the functions below.
pub record RegionConfig : Type 0 where
  pub delay_size : ℕ
  pub base : ℕ
  pub end_ : ℕ
  pub read_nonseq : ℕ
  pub read_seq : ℕ
  pub write_nonseq : ℕ
  pub write_seq : ℕ

abbrev pub write_delay : ℕ → ℕ
write_delay raw = raw % 16

abbrev pub read_delay : ℕ → ℕ
read_delay raw = raw / 2 ^ 4 % 16

abbrev pub use_com0 : ℕ → Bool
use_com0 raw = bit 8 raw == 1

abbrev pub use_com2 : ℕ → Bool
use_com2 raw = bit 10 raw == 1

abbrev pub use_com3 : ℕ → Bool
use_com3 raw = bit 11 raw == 1

abbrev pub bus_width : ℕ → ℕ
bus_width raw = bit 12 raw

abbrev pub size_shift : ℕ → ℕ
size_shift raw = raw / 2 ^ 16 % 32

-- The common delays, by the raw register.
abbrev pub com0 : ℕ → ℕ
com0 raw = raw % 16

abbrev pub com2 : ℕ → ℕ
com2 raw = raw / 2 ^ 8 % 16

abbrev pub com3 : ℕ → ℕ
com3 raw = raw / 2 ^ 12 % 16

-- `1 << size_shift` on an int, as a u32.
unfoldable pub region_size : ℕ → ℕ
region_size raw = 2 ^ size_shift raw

-- The delay of all accesses but the first; a u32, so that without `com2` the first term may be -1.
unfoldable pub base_seq : ℕ → ℕ → ℕ
base_seq delays raw =
    add32 (if use_com0 raw then sub32 (com0 delays) 1 else 0)
      (if use_com2 raw then com2 delays else 0)

unfoldable pub base_nonseq : ℕ → ℕ → ℕ
base_nonseq delays raw =
    if ltb (base_seq delays raw) 6 then base_seq delays raw + 1 else base_seq delays raw

unfoldable pub minimum : ℕ → ℕ → ℕ
minimum delays raw = if use_com3 raw then com3 delays else 0

unfoldable pub at_least : ℕ → ℕ → ℕ
at_least low x = if ltb x low then low else x

-- The delay of a first access and of the others, for a region with a read or write delay.
unfoldable pub first_delay : ℕ → ℕ → ℕ → ℕ
first_delay delays raw delay =
    at_least (minimum delays raw + 6) (add32 (base_nonseq delays raw) (delay + 2))

unfoldable pub next_delay : ℕ → ℕ → ℕ → ℕ
next_delay delays raw delay =
    at_least (minimum delays raw + 2) (add32 (base_seq delays raw) (delay + 2))

unfoldable pub compute_delays : ℕ → RegionConfig → RegionConfig
compute_delays delays conf = record conf {
  read_nonseq = first_delay delays conf.delay_size (read_delay conf.delay_size);
  read_seq = next_delay delays conf.delay_size (read_delay conf.delay_size);
  write_nonseq = first_delay delays conf.delay_size (write_delay conf.delay_size);
  write_seq = next_delay delays conf.delay_size (write_delay conf.delay_size);
}

-- `WriteConf`
unfoldable pub write_conf : ℕ → ℕ → RegionConfig → RegionConfig
write_conf delays value conf =
    if conf.delay_size == value
    then conf
    else compute_delays delays
        (record conf { delay_size = value; end_ = add32 conf.base (region_size value) })

-- `compute_access_time`: `size` bytes over a bus of one or two bytes. The count of further accesses is
-- a u64, which wraps for a byte on the wide bus.
unfoldable pub access_time : ℕ → ℕ → ℕ → ℕ → ℕ
access_time size raw nonseq seq =
    (nonseq + seq * ((size / (bus_width raw + 1) + 2 ^ 64 - 1) % 2 ^ 64)) % 2 ^ 64
