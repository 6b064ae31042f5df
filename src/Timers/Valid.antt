-- ===== src/Timers/Valid.antt =====
-- The ranges of a root counter's registers, through every operation of
-- psxemu/source/psxemu/RootCounters.cpp.
use native.Mathlib.Nat.{mod-lt}
use psx.Base.{
  ◌==◌, if_either, ℕ, zero, suc, get_or, ◌+◌, ◌%◌, ◌^◌, ◌<◌, ◌≤◌, arith, inl, inr, Bool-cases,
}
use psx.Timers.Mode.{mode_of_raw}
use psx.Timers.Counter.{
  dot_cycles, fresh_counter, Counter, IrqSource, Events, Timer, compute_cycles_per_inc,
  root_counter, ov, target,
}
use psx.Timers.Irq.{fire_irq, latch_irq, request_irq, mark_reached}
use psx.Timers.Events.{
  update_counter, catch_up, arrange, set_stopped, sync_stops, elapsed, past_target, target_too,
  set_value, resume, negative_int, till_overflow, update_from_timestamp, update_events,
  register_event, schedule_event, next_event, on_overflow, on_target,
}
use psx.Timers.Sync.{blank_begins, blank_ends, signal}
use psx.Timers.Registers.{write_mode_bits, restart}

-- The values fit their bit-fields and u16 registers, and the divisor of `UpdateCounter` is not 0.
pub record IsValid (c : Counter) : Type 0 where
  pub id : c.counter_id < 3
  pub value : c.count_value < 2 ^ 16
  pub goal : c.count_target < 2 ^ 16
  pub partial : c.count_partial < c.cycles_per_inc
  pub speed : c.cycles_per_inc ≤ 2171
  pub dotclock : c.dotclock_sel < 5
  pub sync : c.mode.sync_mode < 4
  pub clock : c.mode.clock_src < 4

pub dot_cycles_bounds :
    (i : ℕ) → i < 5 → (0 < get_or dot_cycles i 0) × (get_or dot_cycles i 0 ≤ 2171)
dot_cycles_bounds zero h = omega arith
dot_cycles_bounds (suc zero) h = omega arith
dot_cycles_bounds (suc (suc zero)) h = omega arith
dot_cycles_bounds (suc (suc (suc zero))) h = omega arith
dot_cycles_bounds (suc (suc (suc (suc zero)))) h = omega arith
dot_cycles_bounds (suc (suc (suc (suc (suc i))))) h = absurd (omega arith)

compute_cycles_per_inc_bounds :
    (c : Counter)
    → c.counter_id < 3
    → c.dotclock_sel < 5
    → (0 < compute_cycles_per_inc c) × (compute_cycles_per_inc c ≤ 2171)
unfolding compute_cycles_per_inc
compute_cycles_per_inc_bounds c hi hd = ground (arith, dot_cycles_bounds c.dotclock_sel)

pub root_counter-IsValid : (id : ℕ) → id < 3 → IsValid (root_counter id)
unfolding root_counter mode_of_raw
root_counter-IsValid id h = ground (arith, compute_cycles_per_inc_bounds (fresh_counter id))

pub update_counter-IsValid :
    (now cycles : ℕ) {c : Counter} → IsValid c → IsValid (update_counter now cycles c)
unfolding update_counter
update_counter-IsValid now cycles {c} v =
    ground (arith, mod-lt ((c.count_partial + cycles) % 2 ^ 64) {m = c.cycles_per_inc})

pub update_from_timestamp-IsValid :
    (now : ℕ) {c : Counter} → IsValid c → IsValid (update_from_timestamp now c)
unfolding update_from_timestamp
update_from_timestamp-IsValid now {c} v = update_counter-IsValid now (elapsed now c) v

catch_up-IsValid : (now : ℕ) {c : Counter} → IsValid c → IsValid (catch_up now c)
unfolding catch_up
catch_up-IsValid now {c} v =
    if_either IsValid (elapsed now c == 0) v (update_from_timestamp-IsValid now v)

past_target_lt : (c : Counter) → past_target c < 2 ^ 16
unfolding past_target
past_target_lt c = ground arith

module _ {Queue : Type 0} where
  pub fire_irq-IsValid :
      (source : IrqSource) (t : Timer Queue)
      → IsValid t.counter
      → IsValid (fire_irq source t).counter
  unfolding fire_irq latch_irq request_irq mark_reached
  fire_irq-IsValid ov t v = ground arith
  fire_irq-IsValid target t v = ground arith

module _ (events : Events) where
  open events use {Queue}

  register_event-IsValid :
      (t : Timer Queue) → IsValid t.counter → IsValid (register_event events t).counter
  unfolding register_event schedule_event
  register_event-IsValid t v = ground arith

  pub update_events-IsValid :
      (t : Timer Queue) → IsValid t.counter → IsValid (update_events events t).counter
  unfolding update_events arrange set_stopped
  update_events-IsValid t v =
      let c = catch_up t.status.now t.counter in
      let now : IsValid c = catch_up-IsValid t.status.now v in
      if_either (λ (k : Timer Queue). IsValid k.counter) (sync_stops c) (ground arith)
        (register_event-IsValid _ (ground arith))

  next_event-IsValid :
      (till_ov till_target : ℕ) (t : Timer Queue)
      → IsValid t.counter
      → IsValid (next_event events till_ov till_target t).counter
  unfolding next_event schedule_event
  next_event-IsValid till_ov till_target t v = ground arith

  set_value-IsValid :
      (value : ℕ) (t : Timer Queue)
      → value < 2 ^ 16
      → IsValid t.counter
      → IsValid (set_value value t).counter
  unfolding set_value
  set_value-IsValid value t h v = ground arith

  resume-IsValid :
      (late : ℕ) (t : Timer Queue) → IsValid t.counter → IsValid (resume events late t).counter
  unfolding resume
  resume-IsValid late t v = elim (Bool-cases (negative_int (till_overflow late t.counter))) [
    | inl both ↦
        rw both
          (next_event-IsValid _ _ _ (set_value-IsValid 0 _ (omega arith) (fire_irq-IsValid ov t v)))
    | inr one ↦ rw one (next_event-IsValid _ _ t v)
  ]

  pub on_target-IsValid :
      (late : ℕ) (t : Timer Queue) → IsValid t.counter → IsValid (on_target events late t).counter
  unfolding on_target
  on_target-IsValid late t v =
      let fired = fire_irq-IsValid target t v in
      resume-IsValid late _
        (set_value-IsValid _ _ (past_target_lt (fire_irq target t).counter) fired)

  pub on_overflow-IsValid :
      (late : ℕ) (t : Timer Queue) → IsValid t.counter → IsValid (on_overflow events late t).counter
  unfolding on_overflow schedule_event target_too
  on_overflow-IsValid late t v =
      let t' = set_value 0 (fire_irq ov t) in
      let reset : IsValid t'.counter =
        set_value-IsValid 0 (fire_irq ov t) (omega arith) (fire_irq-IsValid ov t v) in
      ground (arith, fire_irq-IsValid target t' reset)

  pub restart-IsValid : (now value : ℕ) {c : Counter} → IsValid c → IsValid (restart now value c)
  unfolding restart write_mode_bits mode_of_raw
  restart-IsValid now value {c} v = grind (arith, compute_cycles_per_inc_bounds)

  pub signal-IsValid :
      (id : ℕ) (action : Counter → Counter) (t : Timer Queue)
      → ((c : Counter) → IsValid c → IsValid (action c))
      → IsValid t.counter
      → IsValid (signal events id action t).counter
  unfolding signal
  signal-IsValid id action t keep v =
      let now = update_from_timestamp-IsValid t.status.now v in
      if_either (λ (k : Timer Queue). IsValid k.counter) _
        (update_events-IsValid _ (keep (update_from_timestamp t.status.now t.counter) now)) now

pub blank_begins-IsValid : (c : Counter) → IsValid c → IsValid (blank_begins c)
unfolding blank_begins
blank_begins-IsValid c v = ground arith

pub blank_ends-IsValid : (c : Counter) → IsValid c → IsValid (blank_ends c)
unfolding blank_ends
blank_ends-IsValid c v = ground arith
