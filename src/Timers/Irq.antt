-- ===== src/Timers/Irq.antt =====
-- `RootCounter::FireIRQ` of psxemu/source/psxemu/RootCounters.cpp, and `system_status::Interrupt`.
use psx.Base.{ℕ, ◌*◌, ◌^◌, Bool, true, false, not, bit_and, bit_or, ◌==◌, if◌then◌else◌}
use psx.Cpu.State.{Status}
use psx.Timers.Mode.{Mode}
use psx.Timers.Counter.{Counter, IrqSource, Timer, ov, target}

-- `system_status::Interrupt`: the line rises only with a bit that was low.
unfoldable pub interrupt : ℕ → Status → Status
interrupt code s =
    if bit_and s.interrupt_request code == 0
    then record s { interrupt_request = bit_or s.interrupt_request code; interrupt_line = true }
    else s

-- Whether the mode lets this source interrupt.
unfoldable pub irq_enabled : IrqSource → Mode → Bool
irq_enabled ov m = m.irq_on_ov
irq_enabled target m = m.irq_on_target

unfoldable pub mark_reached : IrqSource → Mode → Mode
mark_reached ov m = record m { ov_reached = true }
mark_reached target m = record m { target_reached = true }

abbrev pub timer0 : ℕ
timer0 = 2 ^ 4

module _ {Queue : Type 0} where
  abbrev pub set_counter : Counter → Timer Queue → Timer Queue
  set_counter c t = record t { counter = c }

  -- The part of `FireIRQ` past the one-shot test: the request bit, and the interrupt when it is low.
  unfoldable pub request_irq : Timer Queue → Timer Queue
  request_irq t =
      let c = t.counter in
      let irq = if c.mode.irq_toggle then not c.mode.irq else false in
      record t {
        counter = record c { mode = record (c.mode) { irq = irq } };
        status = if irq then t.status else interrupt (timer0 * 2 ^ c.counter_id) t.status;
      }

  -- The one-shot test.
  unfoldable pub latch_irq : Timer Queue → Timer Queue
  latch_irq t =
      let c = t.counter in
      if c.mode.irq_repeat
      then request_irq t
      else if c.oneshot_flag
      then t
      else request_irq (set_counter (record c { oneshot_flag = true }) t)

  unfoldable pub fire_irq : IrqSource → Timer Queue → Timer Queue
  fire_irq source t =
      let c = t.counter in
      if c.stopped
      then t
      else (let t' = set_counter (record c { mode = mark_reached source c.mode }) t in
          if irq_enabled source c.mode then latch_irq t' else t')
