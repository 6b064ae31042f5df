-- ===== src/Bus/Delays.antt =====
-- The access times of a region: laws of `ComputeDelays` and of `compute_access_time`.
use psx.Base.{ℕ, ◌+◌, ◌-◌, ◌*◌, ◌/◌, ◌^◌, ◌<◌, ◌≤◌, ◌≡◌, ◌⊎◌, inl, inr, arith}
use psx.Cpu.State.{Width, byte, half, word}
use psx.Bus.Config.{
  RegionConfig, base_seq, base_nonseq, minimum, at_least, first_delay, next_delay, compute_delays,
  access_time, bus_width, read_delay, write_delay,
}
use psx.Bus.Io.{width_bytes}

-- The u32 may have wrapped to -1, where the common delay is 0; else it is small.
base_seq_cases : (delays raw : ℕ) → (base_seq delays raw ≤ 29) ⊎ (base_seq delays raw ≡ 2 ^ 32 - 1)
unfolding base_seq
base_seq_cases delays raw = ground arith

-- A first access never takes less time than a further one.
next-le-first :
    (delays raw delay : ℕ) → delay < 16 → next_delay delays raw delay ≤ first_delay delays raw delay
unfolding next_delay first_delay at_least base_nonseq
next-le-first delays raw delay h = ground (arith, base_seq_cases delays raw)

first_delay_lt : (delays raw delay : ℕ) → first_delay delays raw delay < 2 ^ 33
unfolding first_delay at_least minimum
first_delay_lt delays raw delay = ground arith

bus_width_cases : (raw : ℕ) → (bus_width raw ≡ 0) ⊎ (bus_width raw ≡ 1)
bus_width_cases raw = omega arith

access_time_of :
    (w : Width) (raw nonseq seq : ℕ)
    → seq ≤ nonseq
    → nonseq < 2 ^ 33
    → access_time (width_bytes w) raw nonseq seq + seq
      ≡ nonseq + seq * (width_bytes w / (bus_width raw + 1))
unfolding access_time
access_time_of byte raw nonseq seq h lt = elim (bus_width_cases raw) [
  | inl narrow ↦ rw narrow (omega arith)
  | inr wide ↦ rw wide (omega arith)
]
access_time_of half raw nonseq seq h lt = elim (bus_width_cases raw) [
  | inl narrow ↦ rw narrow (omega arith)
  | inr wide ↦ rw wide (omega arith)
]
access_time_of word raw nonseq seq h lt = elim (bus_width_cases raw) [
  | inl narrow ↦ rw narrow (omega arith)
  | inr wide ↦ rw wide (omega arith)
]

-- An access over the bus of a region, with the delays that the code computes for it, takes the time
-- of a first transfer and of a further one for each other unit of the bus, in reads and in writes;
-- where a byte goes over a bus of two bytes, the first transfer less a further one. The u64 sum of
-- the code, whose count of further transfers may be -1, never wraps below 0.
pub access_time_lem :
    (w : Width) (delays : ℕ) (conf : RegionConfig)
    → let r = compute_delays delays conf in
      let transfers = width_bytes w / (bus_width r.delay_size + 1) in
      (access_time (width_bytes w) r.delay_size r.read_nonseq r.read_seq + r.read_seq
        ≡ r.read_nonseq + r.read_seq * transfers)
      × (access_time (width_bytes w) r.delay_size r.write_nonseq r.write_seq + r.write_seq
          ≡ r.write_nonseq + r.write_seq * transfers)
unfolding compute_delays
access_time_lem w delays conf =
    let raw = conf.delay_size in
    (
      access_time_of w raw _ _ (next-le-first delays raw (read_delay raw) (omega arith))
          (first_delay_lt delays raw (read_delay raw)),
      access_time_of w raw _ _ (next-le-first delays raw (write_delay raw) (omega arith))
          (first_delay_lt delays raw (write_delay raw)),
    )
