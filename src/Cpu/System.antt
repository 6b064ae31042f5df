-- ===== src/Cpu/System.antt =====
-- psxemu/source/psxemu/System.cpp: `InterpreterSingleStep` and `RunInterpreter`, the loop of the emulator.
use psx.Base.{arith, ℕ, zero, suc, Bool, Option, some, if◌then◌else◌, if_either}
use psx.Cpu.State.{Status, Machine, Env, Holds-bind, ◌>>=◌}
use psx.Cpu.Step.{step_instruction}
use psx.Cpu.Engine.{Kept, Keeps}
use psx.Cpu.Rounds.{step_instruction-Kept}

-- What the loop calls besides the processor: the DMA controller, the two fields of the bus, the scheduler, and the
-- callbacks that it left in `sync_callback_buffer`. They reach the status and the bus only.
pub record Rest (env : Env) : Type 0 where
  pub has_active_transfer : env.Bus → Bool
  pub advance_transfer : Status → env.Bus → Option (Status × env.Bus)
  pub curr_cycles : env.Bus → ℕ
  pub set_curr_cycles : ℕ → env.Bus → env.Bus
  pub ignore_overflow_cycles : env.Bus → Bool
  pub clear_ignore_overflow : env.Bus → env.Bus
  pub advance : ℕ → Bool → Status → env.Bus → Option (Status × env.Bus)
  pub run_sync_callbacks : Status → env.Bus → Option (Status × env.Bus)

module _ (env : Env) (rest : Rest env) where
  open env use {Bus, Gte}
  open rest use {
    has_active_transfer, advance_transfer, curr_cycles, set_curr_cycles, ignore_overflow_cycles,
    clear_ignore_overflow, advance, run_sync_callbacks,
  }

  -- A call that reaches the status and the bus.
  abbrev on_bus :
      (Status → Bus → Option (Status × Bus)) → Machine Bus Gte → Option (Machine Bus Gte)
  on_bus f m = f m.status m.bus >>= λ (s, b). some (record m { status = s; bus = b })

  abbrev set_cycles : ℕ → Machine Bus Gte → Machine Bus Gte
  set_cycles n m = record m { bus = set_curr_cycles n m.bus }

  -- A word of the active transfer, which takes one cycle, or an instruction.
  unfoldable pub transfer_or_step : Machine Bus Gte → Option (Machine Bus Gte)
  transfer_or_step m =
      if has_active_transfer m.bus
      then (on_bus advance_transfer m >>= λ t. some (set_cycles 1 t))
      else step_instruction env m

  abbrev cycles_of : Machine Bus Gte → Status → Bus → Option (Status × Bus)
  cycles_of m = advance (curr_cycles m.bus) (ignore_overflow_cycles (set_curr_cycles 0 m.bus))

  abbrev reset_ignore : Machine Bus Gte → Machine Bus Gte
  reset_ignore m = record m { bus = clear_ignore_overflow m.bus }

  -- The scheduler catches up with the cycles.
  unfoldable pub advance_events : Machine Bus Gte → Option (Machine Bus Gte)
  advance_events m = do
    t ←
        on_bus (advance (curr_cycles m.bus) (ignore_overflow_cycles (set_curr_cycles 0 m.bus)))
          (set_cycles 0 m)
    some (record t { bus = clear_ignore_overflow t.bus })

  -- `InterpreterSingleStep`
  unfoldable pub interpreter_single_step : Machine Bus Gte → Option (Machine Bus Gte)
  interpreter_single_step m = do
    stepped ← transfer_or_step m
    advanced ← advance_events stepped
    on_bus run_sync_callbacks advanced

  -- `RunInterpreter`
  unfoldable pub run_interpreter : ℕ → Machine Bus Gte → Option (Machine Bus Gte)
  run_interpreter zero m = some m
  run_interpreter (suc n) m = interpreter_single_step m >>= run_interpreter n

  module _ (P : Gte → Type 0) (keeps : Keeps env P) where
    abbrev Now : Machine Bus Gte → Type 0
    Now m = P (m.gte)

    on_bus-Kept :
        (f : Status → Bus → Option (Status × Bus)) (m : Machine Bus Gte)
        → P (m.gte)
        → Kept P (on_bus f m)
    on_bus-Kept f m h = ground arith

    transfer_or_step-Kept : (m : Machine Bus Gte) → P (m.gte) → Kept P (transfer_or_step m)
    unfolding transfer_or_step
    transfer_or_step-Kept m h =
        if_either (Kept P) (has_active_transfer m.bus)
          (Holds-bind Now Now (on_bus advance_transfer m) _ (on_bus-Kept advance_transfer m h)
            (λ t k. k))
          (step_instruction-Kept env P keeps m h)

    advance_events-Kept : (m : Machine Bus Gte) → P (m.gte) → Kept P (advance_events m)
    unfolding advance_events
    advance_events-Kept m h =
        Holds-bind Now Now (on_bus (cycles_of m) (set_cycles 0 m)) (λ t. some (reset_ignore t))
          (on_bus-Kept (cycles_of m) (set_cycles 0 m) h) (λ t k. k)

    interpreter_single_step-Kept :
        (m : Machine Bus Gte) → P (m.gte) → Kept P (interpreter_single_step m)
    unfolding interpreter_single_step
    interpreter_single_step-Kept m h = Holds-bind Now Now _ _ (transfer_or_step-Kept m h) (λ t k.
        Holds-bind Now Now _ _ (advance_events-Kept t k)
          (λ u l. on_bus-Kept run_sync_callbacks u l))

    -- A property of the geometry engine that its operations and the hooks of the kernel keep holds after any number
    -- of rounds of the loop, where it held before.
    pub run_interpreter-Kept :
        (n : ℕ) (m : Machine Bus Gte) → P (m.gte) → Kept P (run_interpreter n m)
    unfolding run_interpreter
    run_interpreter-Kept zero m h = h
    run_interpreter-Kept (suc n) m h =
        Holds-bind Now Now (interpreter_single_step m) (run_interpreter n)
          (interpreter_single_step-Kept m h) (run_interpreter-Kept n)
