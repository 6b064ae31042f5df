-- ===== src/Timers/Events.antt =====
-- Counting and the events that stand for a count to come: `UpdateCounter`, `UpdateEvents` and the two
-- callbacks of psxemu/source/psxemu/RootCounters.cpp.
use psx.Base.{
  ℕ, ◌+◌, ◌*◌, ◌/◌, ◌%◌, ◌^◌, Bool, true, false, min, ltb, leb, ◌&&◌, ◌||◌, not, ◌==◌,
  if◌then◌else◌,
}
use psx.Base.Words.{add64, sub64}
use psx.Timers.Counter.{
  Counter, Callback, IrqSource, Events, Timer, cycles_till_overflow, cycles_till_target,
  overflow_callback, target_callback,
}
use psx.Timers.Irq.{fire_irq, set_counter}

-- `UpdateCounter` at time `now`.
unfoldable pub update_counter : ℕ → ℕ → Counter → Counter
update_counter now cycles c =
    if c.stopped
    then c
    else (let total = add64 c.count_partial cycles in
        let value = (c.count_value + total / c.cycles_per_inc) % 2 ^ 16 in
        record c {
          count_partial = total % c.cycles_per_inc;
          count_value = if c.mode.reset_on_target then min c.count_target value else value;
          last_update_timestamp = now;
        })

-- The cycles since the last update, and the update by them.
unfoldable pub elapsed : ℕ → Counter → ℕ
elapsed now c = sub64 now c.last_update_timestamp

unfoldable pub update_from_timestamp : ℕ → Counter → Counter
update_from_timestamp now c = update_counter now (elapsed now c) c

-- `if(diff) UpdateCounter(diff)`
unfoldable pub catch_up : ℕ → Counter → Counter
catch_up now c = if elapsed now c == 0 then c else update_from_timestamp now c

-- Whether the synchronisation holds the counter at rest.
unfoldable pub sync_stops : Counter → Bool
sync_stops c =
    c.mode.sync_enable
    && (if c.counter_id == 2
        then c.mode.sync_mode == 1 || c.mode.sync_mode == 2
        else if c.counter_id == 0
        then c.hblank && c.mode.sync_mode == 0 || not c.hblank && c.mode.sync_mode == 2
        else if c.counter_id == 1
        then c.vblank && c.mode.sync_mode == 0 || not c.vblank && c.mode.sync_mode == 2
        else false)

-- The counter stands at its target, or has none to come.
unfoldable pub target_is_passed : Counter → Bool
target_is_passed c = c.count_target == c.count_value || c.count_target == 0

-- The event that `UpdateEvents` chooses, and the cycles till then.
unfoldable pub nearest_event : Counter → ℕ × Callback
nearest_event c =
    let till_ov = cycles_till_overflow c in
    let (till_target, neg) = cycles_till_target c in
    if target_is_passed c
    then (till_ov, overflow_callback)
    else if neg || leb till_ov till_target
    then (till_ov, overflow_callback)
    else (till_target, target_callback)

-- A u64 that is negative as an i64, and one whose low half is negative as an int.
abbrev pub negative64 : ℕ → Bool
negative64 x = leb (2 ^ 63) x

abbrev pub negative_int : ℕ → Bool
negative_int x = leb (2 ^ 31) (x % 2 ^ 32)

unfoldable pub till_overflow : ℕ → Counter → ℕ
till_overflow late c = sub64 (cycles_till_overflow c) late

unfoldable pub till_target : ℕ → Counter → ℕ
till_target late c = sub64 ((cycles_till_target c).0) late

-- A u16, so the target 0xffff wraps to 0.
unfoldable pub past_target : Counter → ℕ
past_target c = if c.mode.reset_on_target then 0 else (c.count_target + 1) % 2 ^ 16

-- The choice that both callbacks make between the two events to come.
unfoldable pub overflow_first : ℕ → ℕ → Bool
overflow_first till_ov till_target =
    negative64 till_target || leb till_ov till_target || till_target == 0

module _ {Queue : Type 0} where
  unfoldable pub set_value : ℕ → Timer Queue → Timer Queue
  set_value value t = set_counter (record (t.counter) { count_value = value }) t

  unfoldable pub set_stopped : Bool → Timer Queue → Timer Queue
  set_stopped b t = set_counter (record (t.counter) { stopped = b }) t

  -- A late overflow passes a near target too.
  unfoldable pub target_too : ℕ → Timer Queue → Timer Queue
  target_too late t =
      if ltb (t.counter.count_target * t.counter.cycles_per_inc) late
      then fire_irq IrqSource.target t
      else t

module _ (events : Events) where
  open events use {Queue, schedule, deschedule}

  -- `m_curr_event_id = Schedule(cycles, callback, this)`.
  unfoldable pub schedule_event : ℕ → Callback → Timer Queue → Timer Queue
  schedule_event cycles callback t =
      let (id, queue) = schedule cycles callback t.counter.counter_id t.queue in
      record t { counter = record (t.counter) { curr_event_id = id }; queue = queue }

  -- The end of `UpdateEvents`: the nearest event of a running counter.
  unfoldable pub register_event : Timer Queue → Timer Queue
  register_event t =
      let (cycles, callback) = nearest_event t.counter in
      schedule_event cycles callback (
        if target_is_passed t.counter
        then set_counter
            (record (t.counter) { mode = record (t.counter.mode) { target_reached = true } }) t
        else t)

  -- A synchronised counter may have to rest, with no event.
  unfoldable pub arrange : Timer Queue → Timer Queue
  arrange t =
      if sync_stops t.counter then set_stopped true t else register_event (set_stopped false t)

  unfoldable pub update_events : Timer Queue → Timer Queue
  update_events t =
      let c = catch_up t.status.now t.counter in
      arrange (record t { counter = c; queue = deschedule c.curr_event_id t.queue })

  -- The end of a callback: the nearest event, `late` cycles of which are over.
  unfoldable pub next_event : ℕ → ℕ → Timer Queue → Timer Queue
  next_event till_ov till_target t =
      if overflow_first till_ov till_target
      then schedule_event till_ov overflow_callback t
      else schedule_event till_target target_callback t

  unfoldable pub on_overflow : ℕ → Timer Queue → Timer Queue
  on_overflow late t =
      let t' = set_value 0 (fire_irq IrqSource.ov t) in
      let ov = till_overflow late t'.counter in
      let target = till_target late t'.counter in
      if overflow_first ov target
      then schedule_event ov overflow_callback (target_too late t')
      else schedule_event target target_callback t'

  unfoldable pub resume : ℕ → Timer Queue → Timer Queue
  resume late t =
      if negative_int (till_overflow late t.counter)
      then (let again = set_value 0 (fire_irq IrqSource.ov t) in
          next_event (cycles_till_overflow again.counter) (till_target late again.counter) again)
      else next_event (till_overflow late t.counter) (till_target late t.counter) t

  unfoldable pub on_target : ℕ → Timer Queue → Timer Queue
  on_target late t =
      let fired = fire_irq IrqSource.target t in
      resume late (set_value (past_target fired.counter) fired)

  unfoldable pub run_callback : Callback → ℕ → Timer Queue → Timer Queue
  run_callback overflow_callback late t = on_overflow late t
  run_callback target_callback late t = on_target late t
