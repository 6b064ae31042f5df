-- ===== src/Dma/Fast.antt =====
-- The fast transfers of the ordering-table channel against the word-by-word one: laws of
-- psxemu/source/psxemu/OTDma.cpp.
use psx.Base.{
  if◌then◌else◌, ap, true, false, ℕ, zero, suc, ◌+◌, ◌-◌, ◌*◌, ◌%◌, ◌^◌, ◌<◌, ◌≤◌, ◌≡◌, ◌≢◌, refl,
  arith,
}
use psx.Dma.Control.{Dicr, signal_exception}
use psx.Base.Words.{sub32}
use psx.Cpu.State.{Status, update}
use psx.Dma.Ordering.{
  signal_raised, BusWrite, Transfer, ram_index, entry, advance_slow, fast_words, fast_transfer,
}

-- The transfer without fast DMA, for a number of steps.
pub slow_steps : BusWrite → ℕ → Transfer → Transfer
slow_steps bus_write zero t = t
slow_steps bus_write (suc n) t = slow_steps bus_write n (advance_slow bus_write t)

module _ (ram_end : ℕ) (fits : ram_end ≤ 2 ^ 23) (bus_write : BusWrite)
    (in_ram : (address value : ℕ) (s : Status) (ram : ℕ → ℕ)
      → address % 4 ≡ 0
      → address < ram_end
      → bus_write address value s ram ≡ (s, update ram (ram_index address) value)) where
  calm_check : (d : Dicr) (s : Status) → s.exception ≡ false → signal_raised d s ≡ (d, s)
  unfolding signal_raised
  calm_check d s h = ap (λ b. if b then signal_exception d s else (d, s)) h

  advance_slow_lem :
      (t : Transfer) (n base cycles : ℕ) (ram : ℕ → ℕ)
      → t.status.exception ≡ false
      → n < 2 ^ 16 - 1
      → base % 4 ≡ 0
      → base < ram_end
      → 4 * n ≤ base
      → advance_slow bus_write (record t {
        shadow_base_address = base;
        word_count = suc n;
        curr_cycles = cycles;
        ram = ram;
      })
        ≡ record t {
          shadow_base_address = sub32 base 4;
          word_count = n;
          curr_cycles = (cycles + 1) % 2 ^ 64;
          ram = update ram (ram_index base) (entry base n);
        }
  unfolding advance_slow
  advance_slow_lem t n base cycles ram calm few aligned low room =
      let left : (suc n + 2 ^ 16 - 1) % 2 ^ 16 ≡ n = omega arith in
      let small : entry base n % 2 ^ 24 ≡ entry base n = ground arith in
      rw
        (
          left,
          small,
          in_ram base (entry base n) t.status ram aligned low,
          calm_check t.int_control t.status calm,
        )
        refl

  slow_steps_lem :
      (t : Transfer) (n base cycles : ℕ) (ram : ℕ → ℕ)
      → t.status.exception ≡ false
      → cycles < 2 ^ 64
      → n < 2 ^ 16
      → base % 4 ≡ 0
      → (n ≢ 0 → base < ram_end)
      → 4 * n ≤ base + 4
      → slow_steps bus_write n
          (record t { shadow_base_address = base; word_count = n; curr_cycles = cycles; ram = ram })
        ≡ record t {
          shadow_base_address = (fast_words n base ram).0;
          word_count = 0;
          curr_cycles = (cycles + n) % 2 ^ 64;
          ram = (fast_words n base ram).1;
        }
  unfolding slow_steps fast_words
  slow_steps_lem t zero base cycles ram calm counted few aligned low room = ground arith
  slow_steps_lem t (suc n) base cycles ram calm counted few aligned low room =
      let below : base < ram_end = low (λ e. omega arith) in
      let rest =
        slow_steps_lem t n (sub32 base 4) ((cycles + 1) % 2 ^ 64)
          (update ram (ram_index base) (entry base n)) calm (omega arith) (omega arith)
          (omega arith) (λ more. omega arith) (omega arith) in
      rw (advance_slow_lem t n base cycles ram calm (omega arith) aligned below (omega arith), rest)
        (ground arith)

  -- Fast DMA without the vector unit does what the word-by-word transfer does. For a table of at least one word, all
  -- of them aligned words of RAM that do not reach below address 0, with no exception raised before and a count of
  -- cycles that fits a u64: as many steps
  -- as the table has words bring the count to 0, raise no exception, and leave the memory, the
  -- address, the cycles, the status and the interrupt register that fast DMA leaves. They differ only in the flag
  -- that has the scheduler ignore late cycles, which fast DMA sets and the steps keep.
  pub fast_transfer-slow_steps :
      (t : Transfer)
      → 0 < t.word_count
      → t.word_count < 2 ^ 16
      → t.status.exception ≡ false
      → t.curr_cycles < 2 ^ 64
      → t.shadow_base_address % 4 ≡ 0
      → t.shadow_base_address < ram_end
      → 4 * t.word_count ≤ t.shadow_base_address + 4
      → (slow_steps bus_write t.word_count t
          ≡ record (fast_transfer t) { ignore_overflow_cycles = t.ignore_overflow_cycles })
        × ((fast_transfer t).ignore_overflow_cycles ≡ true)
  unfolding fast_transfer
  fast_transfer-slow_steps t some_words few calm counted aligned low room = (
    slow_steps_lem t t.word_count t.shadow_base_address t.curr_cycles t.ram calm counted few aligned
        (λ e. low) room,
    refl,
  )
