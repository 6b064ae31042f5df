-- ===== src/Scheduler/Advance.antt =====
-- Time goes on and events fire: `Advance` and `NextEvent` of psxemu/source/psxemu/Scheduler.cpp.
use psx.Base.{ℕ, zero, suc, ◌-◌, Bool, Option, none, some, List, [], ◌∷◌, ltb, ◌==◌, if◌then◌else◌}
use psx.Base.Words.{add64, sub64}
use psx.Cpu.State.{◌>>=◌}
use psx.Scheduler.State.{Event, Heap, Scheduler, front}

-- The event at the root, if it is due at `final`.
unfoldable pub next_due : ℕ → List Event → Option Event
next_due final [] = none
next_due final (x ∷ xs) = if ltb final x.trigger_timestamp then none else some x

module _ (heap : Heap) where
  open heap use {pop_heap}

  -- `pop_heap` and `m_num_events--`, which wraps round when a callback has removed the last event:
  -- none.
  unfoldable pub pop_events : List Event → Option (List Event)
  pop_events [] = none
  pop_events (x ∷ xs) = some (front (pop_heap (x ∷ xs)))

-- `call` stands for the functions behind the addresses of the callbacks: it takes the address, the user
-- data and the late cycles. It may schedule and deschedule, and changes the world `W` of the devices.
module _ (heap : Heap) {W : Type 0} (call : ℕ → ℕ → ℕ → Scheduler × W → Scheduler × W) where
  -- Calls the callback of an event, and then removes the root.
  unfoldable pub call_and_pop : Event → ℕ → Scheduler × W → Option (Scheduler × W)
  call_and_pop event late t =
      let (s, w) = if event.callback == 0 then t else call event.callback event.userdata late t in
      pop_events heap s.events >>= λ events. some (record s { events = events }, w)

  -- An event that is due at `final`, in a turn of the loop of `Advance`.
  unfoldable pub fire : ℕ → Bool → Event → Scheduler × W → Option (Scheduler × W)
  fire final ignore_overflow event (s, w) =
      let late = if ignore_overflow then 0 else final - event.trigger_timestamp in
      call_and_pop event late (record s { curr_timestamp = add64 event.trigger_timestamp late }, w)

  unfoldable pub advance_loop : ℕ → ℕ → Bool → Scheduler × W → Option (Scheduler × W)
  advance_loop zero final ignore_overflow t = none
  advance_loop (suc fuel) final ignore_overflow t = elim (next_due final (t.0.events)) [
    | none ↦ some t
    | some event ↦ fire final ignore_overflow event t >>= advance_loop fuel final ignore_overflow
  ]

  unfoldable pub advance : ℕ → ℕ → Bool → Scheduler × W → Option (Scheduler × W)
  advance fuel num_cycles ignore_overflow t =
      let final = add64 t.0.curr_timestamp num_cycles in
      advance_loop fuel final ignore_overflow t >>= λ r.
      some (record (r.0) { curr_timestamp = final }, r.1)

  -- Without an event the code reads an element that no event was written to: none.
  unfoldable pub next_event : Scheduler × W → Option (ℕ × Scheduler × W)
  next_event (s, w) = elim s.events [
    | [] ↦ none
    | event ∷ rest ↦
        let elapsed = sub64 event.trigger_timestamp s.curr_timestamp in
        call_and_pop event 0 (record s { curr_timestamp = event.trigger_timestamp }, w) >>= λ t.
        some (elapsed, t.0, t.1)
  ]
