-- ===== src/Dma/Ordering.antt =====
-- The channel that clears ordering tables: psxemu/source/psxemu/OTDma.cpp. It links each word of a
-- table to the word below it, and ends the list at the last one.
use psx.Base.{ℕ, zero, suc, ◌+◌, ◌-◌, ◌*◌, ◌/◌, ◌%◌, ◌^◌, Bool, true, false, ◌==◌, if◌then◌else◌}
use psx.Base.Words.{sub32}
use psx.Cpu.State.{Status, update}
use psx.Dma.Control.{Dicr, signal_exception}

-- `word_count` is the low half of the shadow block control. `ram` is the memory by words, the
-- `ram_base` of the code, `curr_cycles` and `ignore_overflow_cycles` are the bus's (the second tells the
-- scheduler not to count late cycles), and `int_control` is the controller's.
pub record Transfer : Type 0 where
  pub shadow_base_address : ℕ
  pub word_count : ℕ
  pub curr_cycles : ℕ
  pub ignore_overflow_cycles : Bool
  pub status : Status
  pub int_control : Dicr
  pub ram : ℕ → ℕ

abbrev pub end_marker : ℕ
end_marker = 0x00ff_ffff

-- The index of an address in `ram_base`, whose 2 MB repeat.
abbrev pub ram_index : ℕ → ℕ
ram_index address = address % 2 ^ 21 / 4

-- The entry for the word at `base`, of which `left` are left after it.
abbrev pub entry : ℕ → ℕ → ℕ
entry base left = if left == 0 then end_marker else sub32 base 4

-- `bus->Write<u32, true, false>` of a value at an address: the status and the memory after it.
abbrev pub BusWrite : Type 0
BusWrite = ℕ → ℕ → Status → (ℕ → ℕ) → Status × (ℕ → ℕ)

-- `if (exception) SignalException()`
unfoldable pub signal_raised : Dicr → Status → Dicr × Status
signal_raised d s = if s.exception then signal_exception d s else (d, s)

-- One word of `AdvanceTransfer` without fast DMA, by a bus write. The count is a u16.
unfoldable pub advance_slow : BusWrite → Transfer → Transfer
advance_slow bus_write t =
    let left = (t.word_count + 2 ^ 16 - 1) % 2 ^ 16 in
    let value = entry t.shadow_base_address left % 2 ^ 24 in
    let (written, ram) = bus_write t.shadow_base_address value t.status t.ram in
    let (int_control, status) = signal_raised t.int_control written in
    record t {
      shadow_base_address = sub32 t.shadow_base_address 4;
      word_count = left;
      curr_cycles = (t.curr_cycles + 1) % 2 ^ 64;
      ram = ram;
      status = status;
      int_control = int_control;
    }

-- The words of the loop of `FastTransfer`: the last base, and the memory.
unfoldable pub fast_words : ℕ → ℕ → (ℕ → ℕ) → ℕ × (ℕ → ℕ)
fast_words zero base ram = (base, ram)
fast_words (suc left) base ram =
    fast_words left (sub32 base 4) (update ram (ram_index base) (entry base left))

-- `FastTransfer` without the vector unit.
unfoldable pub fast_transfer : Transfer → Transfer
fast_transfer t =
    let (base, ram) = fast_words t.word_count t.shadow_base_address t.ram in
    record t {
      shadow_base_address = base;
      word_count = 0;
      curr_cycles = (t.curr_cycles + t.word_count) % 2 ^ 64;
      ignore_overflow_cycles = true;
      ram = ram;
    }

-- The eight lanes of a block below `base`, the lowest first, stored one word above its address.
unfoldable pub store_lanes : ℕ → ℕ → ℕ → ℕ → (ℕ → ℕ) → ℕ → ℕ
store_lanes zero lane base first ram = ram
store_lanes (suc n) lane base first ram =
    let index = ram_index (sub32 base 32) + 1 + lane in
    let value = if lane == 0 then first else sub32 base (32 - 4 * lane) in
    store_lanes n (lane + 1) base first (update ram index value)

-- The loop of `SimdTransfer` over the blocks.
unfoldable pub simd_blocks : ℕ → ℕ → (ℕ → ℕ) → ℕ × (ℕ → ℕ)
simd_blocks zero base ram = (base, ram)
simd_blocks (suc left) base ram =
    let first = if left == 0 then end_marker else sub32 base 32 in
    simd_blocks left (sub32 base 32) (store_lanes 8 0 base first ram)

unfoldable pub simd_transfer : Transfer → Transfer
simd_transfer t =
    let (base, ram) = simd_blocks (t.word_count / 8) t.shadow_base_address t.ram in
    record t {
      shadow_base_address = base;
      word_count = t.word_count % 8;
      curr_cycles = (t.curr_cycles + t.word_count / 8 * 8) % 2 ^ 64;
      ignore_overflow_cycles = true;
      ram = ram;
    }

-- `FastTransfer`, with the vector unit or without.
unfoldable pub transfer : Bool → Transfer → Transfer
transfer false t = fast_transfer t
transfer true t = fast_transfer (simd_transfer t)
