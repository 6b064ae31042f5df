-- ===== src/Dma/Tests.antt =====
-- The theorems of the DMA controller at concrete inputs.
use psx.Base.{
  ◌-◌, ◌/◌, zero, ◌==◌, ap, ◌||◌, Bool, ◌<◌, ltb, ◌%◌, if◌then◌else◌, ◌^◌, ℕ, suc, ◌+◌, some, [],
  ◌∷◌, ◌*◌, ◌≡◌, refl, true, false, arith,
}
use psx.Cpu.State.{Excode, Status, update}
use psx.Cpu.Samples.{plain_status}
use psx.Dma.Active.{Controller, dma_controller, channel_enabled, add_transfer}
use psx.Dma.Channel.{next_address, Device, Site}
use psx.Dma.Priority.{Queues, entering, add_transfer-Queues, dma_controller-Queues}
use psx.Dma.Slices.{walk, Quiet, Ended, advance_times, slices_end}
use psx.Dma.Control.{Dicr, dicr_of_raw, write_dicr, master_condition, signal_exception}
use psx.Dma.Interrupts.{IsSettled, Step-IsSettled, signal_exception_silent, writes}
use psx.Dma.Ordering.{end_marker, transfer, BusWrite, Transfer, fast_transfer, ram_index}
use psx.Dma.Vector.{simd_cuts_list}
use psx.Dma.Fast.{slow_steps, fast_transfer-slow_steps}

-- A register with channel 2 enabled and requesting.
abbrev requesting : Dicr
requesting = dicr_of_raw 0x8484_0000

Step-IsSettled_example : IsSettled (write_dicr 0x0484_0000 requesting)
unfolding dicr_of_raw master_condition
Step-IsSettled_example = Step-IsSettled (writes requesting 0x0484_0000) (ground arith)

signal_exception_silent_example :
    let (d', s') = signal_exception requesting plain_status in
    (d'.bus_error ≡ true)
    × (d'.master_irq ≡ true)
    × (s' ≡ record plain_status { exception = false })
signal_exception_silent_example = signal_exception_silent requesting plain_status

abbrev table : Transfer
table = record {
  shadow_base_address = 0x1000;
  word_count = 19;
  curr_cycles = 5;
  ignore_overflow_cycles = false;
  status = plain_status;
  int_control = requesting;
  ram = λ i. 0;
}

-- Writes to 2 MB of RAM, and elsewhere a bus error.
abbrev ram_write : BusWrite
ram_write address value s ram =
    if ltb address (2 ^ 21)
    then (s, update ram (ram_index address) value)
    else (record s { exception = true; exception_number = Excode.dbe }, ram)

ram_write_lem :
    (address value : ℕ) (s : Status) (ram : ℕ → ℕ)
    → address % 4 ≡ 0
    → address < 2 ^ 21
    → ram_write address value s ram ≡ (s, update ram (ram_index address) value)
ram_write_lem address value s ram aligned low = ground arith

fast_transfer-slow_steps_example :
    (slow_steps ram_write 19 table
      ≡ record (fast_transfer table) { ignore_overflow_cycles = false })
    × ((fast_transfer table).ignore_overflow_cycles ≡ true)
fast_transfer-slow_steps_example =
    fast_transfer-slow_steps (2 ^ 21) (omega arith) ram_write ram_write_lem table (omega arith)
      (omega arith) refl (omega arith) (omega arith) (omega arith) (omega arith)

simd_cuts_list_example :
    let last = 0x1000 / 4 - (19 / 8 * 8 - 1) in
    ((transfer false table).ram last ≡ 0x1000 - 32 * (19 / 8))
    × ((transfer true table).ram last ≡ end_marker)
simd_cuts_list_example =
    simd_cuts_list table (omega arith) (omega arith) (omega arith) (omega arith) (omega arith)

-- The channels of the graphics and of the ordering tables enabled, with their priorities.
abbrev enabled_controller : Controller
enabled_controller = record dma_controller { control = 0x0b00_0b00 }

add_transfer-Queues_example :
    (after : Controller) × (add_transfer 2 enabled_controller ≡ some after)
    × Queues (entering 2 enabled_controller ∷ []) after
unfolding channel_enabled
add_transfer-Queues_example =
    add_transfer-Queues 2 [] enabled_controller
      (record {
        places = dma_controller-Queues.places;
        count = dma_controller-Queues.count;
        room = dma_controller-Queues.room;
      })
      (omega arith) refl (λ e. absurd (omega (arith, e)))

abbrev gpu_port : ℕ
gpu_port = 0x1f80_1810

-- 2 MB of memory and a port.
abbrev answers : ℕ → Bool
answers address = ltb address (2 ^ 21) || address == gpu_port

abbrev bus_fault : Status → Status
bus_fault s = record s { exception = true; exception_number = Excode.dbe }

-- A memory with a device that may be ready. An address that nothing answers is a bus error.
abbrev memory : Device
memory = record {
  State = Bool × (ℕ → ℕ);
  read = λ a s d. some (d.1 a, (if answers a then s else bus_fault s), d);
  header = λ a s d. some (d.1 a, s, d);
  write = λ a x s d. some ((if answers a then s else bus_fault s), (d.0, update (d.1) a x));
  add_cycles = λ n d. d;
  dreq = λ d. d.0;
  port = gpu_port;
}

abbrev IsAnswered : ℕ → Type 0
IsAnswered a = answers a ≡ true

abbrev IsReady : Bool × (ℕ → ℕ) → Type 0
IsReady d = d.0 ≡ true

memory-Quiet : Quiet memory IsAnswered IsReady
memory-Quiet = record {
  reads = λ a s d here ready h.
      (d.1 a, s, d, ap (λ b. some (d.1 a, (if b then s else bus_fault s), d)) here, h, ready);
  writes = λ a x s d here ready h.
      let e : Bool × (ℕ → ℕ) = (d.0, update (d.1) a x) in
      (s, e, ap (λ b. some ((if b then s else bus_fault s), e)) here, h, ready);
  cycles = λ n d ready. ready;
  demands = λ d ready. ready;
  port = refl;
}

-- Two blocks of three words, of which the first has one word left.
abbrev slicing : Site (Bool × (ℕ → ℕ))
slicing = record {
  channel = record {
    id = 2;
    shadow_base_address = 0x1000;
    shadow_block_control = 0x0002_0003;
    base_address = 0x1000;
    block_control = 0x0002_0003;
    control = 0x0100_0201;
    words_rem = 1;
    blocks_rem = 2;
    next_block_add = 0;
    curr_address = 0x1008;
    running = true;
    transfer_active = true;
  };
  controller = enabled_controller;
  status = plain_status;
  state = (true, λ i. i);
}

walk-IsAnswered : (k : ℕ) → k < 4 → IsAnswered (walk false k 0x1008)
unfolding walk next_address
walk-IsAnswered zero h = refl
walk-IsAnswered (suc zero) h = refl
walk-IsAnswered (suc (suc zero)) h = refl
walk-IsAnswered (suc (suc (suc zero))) h = refl
walk-IsAnswered (suc (suc (suc (suc k)))) h = absurd (omega arith)

slices_end_example :
    (t : Site (Bool × (ℕ → ℕ))) × (advance_times memory (1 + suc (1 * suc 3)) slicing ≡ some t)
    × Ended memory t
slices_end_example = slices_end memory IsAnswered IsReady 3 1 1 slicing memory-Quiet (record {
  slices = refl;
  each = refl;
  words = refl;
  blocks = refl;
  word = omega arith;
  small = omega arith;
  quiet = refl;
  calm = refl;
  within = λ k h. walk-IsAnswered k (omega arith);
})
