-- ===== src/Timers/Armed.antt =====
-- The counters and the scheduler together: the interface `Events` filled by the scheduler, and the event
-- that `UpdateEvents` leaves in the queue.
use mathlib.Core.List.{Perm}
use psx.Base.{
  ℕ, ◌^◌, ◌<◌, ◌≡◌, ◌⊎◌, inl, inr, refl, sym, true, false, length, arith, ◌∷◌, if_either,
}
use psx.Base.Words.{add64}
use psx.Scheduler.State.{Event, Heap, Scheduler, schedule, deschedule, new_event, max_events}
use psx.Scheduler.Change.{schedule_adds, deschedule-length}
use psx.Timers.Counter.{Counter, Callback, Events, Timer, cycles_till_overflow, cycles_till_target}
use psx.Timers.Events.{
  nearest_event, target_is_passed, schedule_event, register_event, arrange, update_events,
  set_stopped, sync_stops, catch_up,
}

-- `address` is that of the functions, and a counter stands for its own address.
abbrev pub scheduler_events : Heap → (Callback → ℕ) → Events
scheduler_events heap address = record {
  Queue = Scheduler;
  schedule = λ cycles callback counter q. schedule heap cycles (address callback) counter q;
  deschedule = λ id q. (deschedule heap id q).1;
}

-- The counter's event stands in the queue, beside the events of `others`.
pub record Armed (address : Callback → ℕ) (others after : Scheduler) (c : Counter) : Type 0 where
  pub waiting : Event
  pub its_own : waiting.event_id ≡ c.curr_event_id
  pub on_time : waiting.trigger_timestamp ≡ add64 others.curr_timestamp ((nearest_event c).0)
  pub calls_back : waiting.callback ≡ address ((nearest_event c).1)
  pub with_counter : waiting.userdata ≡ c.counter_id
  pub beside : Perm after.events (waiting ∷ others.events)

module _ (heap : Heap) (address : Callback → ℕ) where
  schedule-Armed :
      (c : Counter) (q : Scheduler)
      → length q.events < max_events
      → q.last_id < 2 ^ 64
      → let near = nearest_event c in
        let r = schedule heap (near.0) (address (near.1)) c.counter_id q in
        Armed address q (r.1) (record c { curr_event_id = r.0 })
  unfolding nearest_event target_is_passed cycles_till_overflow cycles_till_target new_event
  schedule-Armed c q room ids =
      let near = nearest_event c in
      let (id, same) = schedule_adds heap (near.0) (address (near.1)) c.counter_id q room ids in
      record {
        waiting = new_event (add64 q.curr_timestamp (near.0)) (address (near.1)) c.counter_id q;
        its_own = sym id;
        on_time = refl;
        calls_back = refl;
        with_counter = refl;
        beside = same;
      }

  abbrev registered : Timer Scheduler → Timer Scheduler
  registered t = register_event (scheduler_events heap address) t

  register_event-Armed :
      (t : Timer Scheduler)
      → length t.queue.events < max_events
      → t.queue.last_id < 2 ^ 64
      → Armed address t.queue (registered t).queue (registered t).counter
  unfolding register_event schedule_event nearest_event target_is_passed cycles_till_overflow
      cycles_till_target
  register_event-Armed t room ids =
      let near = nearest_event t.counter in
      let reached = record t {
        counter = record (t.counter) { mode = record (t.counter.mode) { target_reached = true } };
      } in
      if_either
        (λ (u : Timer Scheduler).
          let r = schedule_event (scheduler_events heap address) (near.0) (near.1) u in
          Armed address t.queue r.queue r.counter)
        (target_is_passed t.counter) (schedule-Armed reached.counter t.queue room ids)
        (schedule-Armed t.counter t.queue room ids)

  register_event-stopped :
      (t : Timer Scheduler) → (registered t).counter.stopped ≡ t.counter.stopped
  unfolding register_event schedule_event
  register_event-stopped t =
      if_either (λ (u : Timer Scheduler). u.counter.stopped ≡ t.counter.stopped)
        (target_is_passed t.counter) refl refl

-- `UpdateEvents`, with fewer than 60 events in the scheduler and its identifiers below 2 ^ 64, first removes
-- the event that the counter had. Then either it stops the counter and adds no event, or the
-- counter runs and the queue has one event more: that event has the identifier which the counter keeps, is
-- for this counter, and is set for the scheduler's time plus the cycles to the nearest event of the
-- counter, with the callback of that event.
pub update_events-Armed :
    (heap : Heap) (address : Callback → ℕ) (t : Timer Scheduler)
    → length t.queue.events < max_events
    → t.queue.last_id < 2 ^ 64
    → let c = catch_up t.status.now t.counter in
      let others = (deschedule heap c.curr_event_id t.queue).1 in
      let r = update_events (scheduler_events heap address) t in
      ((r.counter.stopped ≡ true) × (r.queue ≡ others))
      ⊎ ((r.counter.stopped ≡ false) × Armed address others r.queue r.counter)
unfolding update_events arrange set_stopped
update_events-Armed heap address t room ids =
    let c = catch_up t.status.now t.counter in
    let q = (deschedule heap c.curr_event_id t.queue).1 in
    let u = record t { counter = record c { stopped = false }; queue = q } in
    let (fewer, same_id, same_time) = deschedule-length heap c.curr_event_id t.queue in
    if_either
      (λ (r : Timer Scheduler).
        ((r.counter.stopped ≡ true) × (r.queue ≡ q))
        ⊎ ((r.counter.stopped ≡ false) × Armed address q r.queue r.counter))
      (sync_stops c) (inl (refl, refl))
      (inr (
        register_event-stopped heap address u,
        register_event-Armed heap address u (omega arith) (omega arith),
      ))
