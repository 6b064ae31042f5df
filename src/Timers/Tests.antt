-- ===== src/Timers/Tests.antt =====
-- Runs of the root counters, and the theorems at concrete inputs.
use psx.Base.{ℕ, ◌+◌, ◌<◌, ◌≤◌, ◌≡◌, ◌≢◌, refl, ◌⊎◌, true, false, List, [], ◌∷◌, arith}
use psx.Cpu.State.{Status}
use psx.Cpu.Samples.{plain_status}
use psx.Scheduler.State.{Scheduler, deschedule}
use psx.Scheduler.Samples.{sorted_heap, three_events}
use psx.Timers.Armed.{Armed, scheduler_events, update_events-Armed}
use psx.Timers.Mode.{mode_of_raw}
use psx.Timers.Counter.{
  cycles_till_target, cycles_till_overflow, Counter, Callback, IrqSource, Events, Timer,
  root_counter, overflow_callback, target_callback, compute_cycles_per_inc,
}
use psx.Timers.Irq.{irq_enabled, fire_irq}
use psx.Timers.Events.{
  elapsed, schedule_event, target_is_passed, register_event, set_stopped, sync_stops, arrange,
  catch_up, update_events, update_counter, update_from_timestamp, nearest_event,
}
use psx.Timers.Sync.{hblank, hblank_end}
use psx.Timers.Registers.{write_target, write}
use psx.Timers.Valid.{IsValid}
use psx.Timers.Reach.{root_counter-Reach-IsValid, here, next, write_register}
use psx.Timers.Count.{update_counter-update_counter, nearest_event_lem}
use psx.Timers.Oneshot.{Happening, happen_all, acknowledge_all, oneshot_once}
use psx.Timers.Pause.{pause_is_counted}

-- The events that were asked for, the last first.
abbrev recorder : Events
recorder = record {
  Queue = List (ℕ × Callback);
  schedule = λ cycles callback id q. (7, (cycles, callback) ∷ q);
  deschedule = λ id q. q;
}

abbrev counter_of : ℕ → ℕ → Counter
counter_of id raw = record {
  counter_id = id;
  count_value = 100;
  count_target = 400;
  oneshot_flag = false;
  count_partial = 0;
  dotclock_sel = 0;
  cycles_per_inc = 8;
  curr_event_id = 0;
  last_update_timestamp = 0;
  stopped = false;
  mode = mode_of_raw raw;
  hblank = false;
  vblank = false;
}

abbrev timer_of : Counter → Timer (List (ℕ × Callback))
timer_of c = record { counter = c; status = plain_status; queue = [] }

abbrev at_time : ℕ → Status
at_time now = record plain_status { now = now }

-- The target 10 at one clock an increment: the event of the target is ten cycles away.
target_event : (write recorder 8 10 (timer_of (root_counter 2))).queue ≡ (10, target_callback) ∷ []
unfolding write write_target update_events catch_up arrange sync_stops set_stopped register_event
    nearest_event target_is_passed cycles_till_overflow cycles_till_target schedule_event
    root_counter compute_cycles_per_inc mode_of_raw elapsed
target_event = refl

root_counter-Reach-IsValid_example :
    IsValid (write recorder 4 0x258 (timer_of (root_counter 2))).counter
root_counter-Reach-IsValid_example =
    root_counter-Reach-IsValid recorder 2 (omega arith) refl
      (next here (write_register (timer_of (root_counter 2)) 4 0x258))

update_counter-update_counter_example :
    update_counter 30 13 (update_counter 17 17 (counter_of 2 0x250))
    ≡ update_counter 30 (17 + 13) (counter_of 2 0x250)
unfolding mode_of_raw
update_counter-update_counter_example =
    update_counter-update_counter 17 30 17 13 (counter_of 2 0x250) refl refl (omega arith)
      (omega arith)

-- Three of the eight cycles of an increment are counted.
abbrev part_counted : Counter
part_counted = record (counter_of 2 0x250) { count_partial = 3 }

nearest_event_lem_example :
    let c = part_counted in
    let (n, callback) = nearest_event c in
    ((callback ≡ overflow_callback)
        × ((m : ℕ) → n ≤ 3 + m → m ≤ n → (update_counter 9 m c).count_value ≡ 0)
      ⊎ (callback ≡ target_callback)
        × ((m : ℕ) → n ≤ 3 + m → m ≤ n → (update_counter 9 m c).count_value ≡ c.count_target))
    × ((m : ℕ)
        → c.cycles_per_inc ≤ 3 + m
        → 3 + m < n
        → (c.count_value < (update_counter 9 m c).count_value)
          × ((update_counter 9 m c).count_value ≢ c.count_target))
unfolding mode_of_raw
nearest_event_lem_example = nearest_event_lem 9 part_counted (ground arith) refl refl

-- Both conditions, with the first request acknowledged between them.
abbrev happenings : List Happening
happenings =
    Happening.meets IrqSource.ov
    ∷ Happening.acknowledges 0x7ef
    ∷ Happening.meets IrqSource.target
    ∷ []

oneshot_once_example :
    let t = timer_of (counter_of 0 0x30) in
    (happen_all (Happening.meets IrqSource.target ∷ happenings) t).status
    ≡ acknowledge_all happenings (fire_irq IrqSource.target t).status
unfolding mode_of_raw irq_enabled
oneshot_once_example =
    oneshot_once IrqSource.target happenings (timer_of (counter_of 0 0x30)) refl refl refl

pause_is_counted_example :
    let t = timer_of (counter_of 0 0x1) in
    let blank = hblank recorder t in
    (blank.counter.stopped ≡ true)
    × ((hblank_end recorder (record blank { status = at_time 80; queue = [] })).counter.count_value
        ≡ (update_from_timestamp 80 (update_from_timestamp 0 t.counter)).count_value)
unfolding mode_of_raw
pause_is_counted_example =
    pause_is_counted recorder (timer_of (counter_of 0 0x1)) (at_time 80) [] (ground arith) refl
      (omega arith) (omega arith)

abbrev armed_timer : Timer Scheduler
armed_timer = record {
  counter = record (counter_of 2 0x0018) { curr_event_id = 5 };
  status = at_time 30;
  queue = record { curr_timestamp = 30; last_id = 8; events = three_events };
}

abbrev address_of : Callback → ℕ
address_of overflow_callback = 4096
address_of target_callback = 8192

update_events-Armed_example :
    let c = catch_up 30 armed_timer.counter in
    let others = (deschedule sorted_heap c.curr_event_id armed_timer.queue).1 in
    let r = update_events (scheduler_events sorted_heap address_of) armed_timer in
    ((r.counter.stopped ≡ true) × (r.queue ≡ others))
    ⊎ ((r.counter.stopped ≡ false) × Armed address_of others r.queue r.counter)
update_events-Armed_example =
    update_events-Armed sorted_heap address_of armed_timer (omega arith) (omega arith)
