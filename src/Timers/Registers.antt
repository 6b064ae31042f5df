-- ===== src/Timers/Registers.antt =====
-- The registers of a root counter: `Write`, `Read` and `SetDotclock` of
-- psxemu/source/psxemu/RootCounters.cpp.
use psx.Base.{ℕ, ◌%◌, ◌^◌, true, false, ◌||◌, ltb, ◌==◌, if◌then◌else◌, get_or}
use psx.Timers.Mode.{Mode, mode_of_raw, raw_of_mode}
use psx.Timers.Counter.{Counter, Events, Timer, compute_cycles_per_inc, dot_cycles}
use psx.Timers.Irq.{set_counter}
use psx.Timers.Events.{update_from_timestamp, update_events}

-- A write keeps the two reached flags and sets the request bit, which means no request.
unfoldable pub write_mode_bits : ℕ → Mode → Mode
write_mode_bits value m = record (mode_of_raw (value % 2 ^ 16)) {
  target_reached = m.target_reached;
  ov_reached = m.ov_reached;
  irq = true;
}

-- The counter that the mode write leaves, before its events.
unfoldable pub restart : ℕ → ℕ → Counter → Counter
restart now value c =
    let c' = record c {
      count_value = 0;
      count_partial = 0;
      oneshot_flag = false;
      mode = write_mode_bits value c.mode;
      last_update_timestamp = now;
    } in
    record c' { cycles_per_inc = compute_cycles_per_inc c' }

module _ (events : Events) where
  open events use {Queue}

  unfoldable pub write_value : ℕ → Timer Queue → Timer Queue
  write_value value t = update_events events (
      set_counter
        (record (t.counter) { count_value = value % 2 ^ 16; last_update_timestamp = t.status.now })
        t)

  unfoldable pub write_mode : ℕ → Timer Queue → Timer Queue
  write_mode value t = update_events events (set_counter (restart t.status.now value t.counter) t)

  unfoldable pub write_target : ℕ → Timer Queue → Timer Queue
  write_target value t =
      update_events events (set_counter (record (t.counter) { count_target = value % 2 ^ 16 }) t)

  -- Any other address is reported and changes nothing.
  unfoldable pub write : ℕ → ℕ → Timer Queue → Timer Queue
  write address value t =
      if ltb address 4
      then write_value value t
      else if ltb address 8
      then write_mode value t
      else if ltb address 12
      then write_target value t
      else t

  -- A read of the value counts up to now, one of the mode takes the reached flags away.
  unfoldable pub read : ℕ → Timer Queue → ℕ × Timer Queue
  read address t =
      if ltb address 4
      then (let c = update_from_timestamp t.status.now t.counter in
          (c.count_value, set_counter c t))
      else if ltb address 8
      then (
        raw_of_mode t.counter.mode,
        set_counter
            (record (t.counter) {
              mode = record (t.counter.mode) { target_reached = false; ov_reached = false };
            })
            t,
      )
      else if ltb address 12
      then (t.counter.count_target, t)
      else (0, t)

  -- The selector is an index of the table; only counter 0 on the dot clock changes its speed.
  unfoldable pub set_dotclock : ℕ → Timer Queue → Timer Queue
  set_dotclock sel t =
      let c = record (t.counter) { dotclock_sel = sel } in
      if c.counter_id == 0
      then if c.mode.clock_src == 1 || c.mode.clock_src == 3
        then update_events events (
            set_counter (record c { cycles_per_inc = get_or dot_cycles sel 0; count_partial = 0 })
              t)
        else set_counter c t
      else set_counter c t
