-- ===== src/Timers/Oneshot.antt =====
-- The interrupts of a root counter: laws of `FireIRQ`, and of the acknowledgements between its requests.
use psx.Base.{ap, refl, ◌∙◌, ℕ, ◌*◌, ◌^◌, ◌≡◌, List, [], ◌∷◌, true, false, arith}
use psx.Cpu.State.{Status}
use psx.Bus.Io.{acknowledge}
use psx.Timers.Counter.{IrqSource, Timer, ov, target}
use psx.Timers.Irq.{fire_irq, latch_irq, request_irq, mark_reached, interrupt, timer0, irq_enabled}

-- What happens to a counter and to the interrupts: a condition is met, or a value is written to the
-- register of the interrupt requests.
pub data Happening : Type 0 where
  meets : IrqSource → Happening
  acknowledges : ℕ → Happening

abbrev pub acknowledged : ℕ → Status → Status
acknowledged value s = record s { interrupt_request = acknowledge value s.interrupt_request }

-- A status after the acknowledgements alone.
abbrev pub acknowledge_all : List Happening → Status → Status
acknowledge_all [] s = s
acknowledge_all (Happening.meets source ∷ rest) s = acknowledge_all rest s
acknowledge_all (Happening.acknowledges value ∷ rest) s =
    acknowledge_all rest (acknowledged value s)

module _ {Queue : Type 0} where
  abbrev pub happen : Happening → Timer Queue → Timer Queue
  happen (Happening.meets source) t = fire_irq source t
  happen (Happening.acknowledges value) t = record t { status = acknowledged value t.status }

  abbrev pub happen_all : List Happening → Timer Queue → Timer Queue
  happen_all [] t = t
  happen_all (h ∷ rest) t = happen_all rest (happen h t)

  -- A counter in one-shot mode whose condition has been met.
  pub record IsSpent (t : Timer Queue) : Type 0 where
    pub oneshot : t.counter.mode.irq_repeat ≡ false
    pub met : t.counter.oneshot_flag ≡ true

  fire_irq-IsSpent : (s : IrqSource) (t : Timer Queue) → IsSpent t → IsSpent (fire_irq s t)
  unfolding fire_irq latch_irq request_irq mark_reached
  fire_irq-IsSpent ov t h = ground arith
  fire_irq-IsSpent target t h = ground arith

  status-fire_irq : (s : IrqSource) (t : Timer Queue) → IsSpent t → (fire_irq s t).status ≡ t.status
  unfolding fire_irq latch_irq mark_reached
  status-fire_irq ov t h = ground arith
  status-fire_irq target t h = ground arith

  status-happen_all :
      (l : List Happening) (t : Timer Queue)
      → IsSpent t
      → (happen_all l t).status ≡ acknowledge_all l t.status
  status-happen_all [] t h = refl
  status-happen_all (Happening.meets source ∷ rest) t h =
      status-happen_all rest (fire_irq source t) (fire_irq-IsSpent source t h)
      ∙ ap (acknowledge_all rest) (status-fire_irq source t h)
  status-happen_all (Happening.acknowledges value ∷ rest) t h =
      status-happen_all rest (happen (Happening.acknowledges value) t)
        (record { oneshot = h.oneshot; met = h.met })

  fire_irq-spends :
      (s : IrqSource) (t : Timer Queue)
      → t.counter.mode.irq_repeat ≡ false
      → t.counter.stopped ≡ false
      → irq_enabled s t.counter.mode ≡ true
      → IsSpent (fire_irq s t)
  unfolding fire_irq latch_irq request_irq mark_reached irq_enabled
  fire_irq-spends ov t h running enabled = ground arith
  fire_irq-spends target t h running enabled = ground arith

  -- One interrupt at most. A running counter in one-shot mode meets a condition that its mode enables:
  -- whatever conditions it meets after that, and whatever is acknowledged between them, the requested
  -- interrupts and the interrupt line are what that first one and the acknowledgements leave. An
  -- interrupt that has been acknowledged is not requested again.
  pub oneshot_once :
      (s : IrqSource) (later : List Happening) (t : Timer Queue)
      → t.counter.mode.irq_repeat ≡ false
      → t.counter.stopped ≡ false
      → irq_enabled s t.counter.mode ≡ true
      → (happen_all (Happening.meets s ∷ later) t).status
        ≡ acknowledge_all later (fire_irq s t).status
  oneshot_once s later t h running enabled =
      status-happen_all later (fire_irq s t) (fire_irq-spends s t h running enabled)

  -- In toggle mode the interrupt is requested at every second condition only: a pair of them gives
  -- the request bit its value back, and requests the counter's interrupt once, whatever the bit was.
  pub toggle_twice :
      (s : IrqSource) (t : Timer Queue)
      → t.counter.mode.irq_repeat ≡ true
      → t.counter.mode.irq_toggle ≡ true
      → t.counter.stopped ≡ false
      → irq_enabled s t.counter.mode ≡ true
      → let t' = fire_irq s (fire_irq s t) in
        (t'.counter.mode.irq ≡ t.counter.mode.irq)
        × (t'.status ≡ interrupt (timer0 * 2 ^ t.counter.counter_id) t.status)
  unfolding fire_irq latch_irq request_irq mark_reached irq_enabled
  toggle_twice ov t h toggles running enabled = ground arith
  toggle_twice target t h toggles running enabled = ground arith
