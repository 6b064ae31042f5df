-- ===== src/Timers/Sync.antt =====
-- The blanking signals: `HBlank`, `VBlank` and their ends of psxemu/source/psxemu/RootCounters.cpp.
-- Counter 0 listens to the horizontal one and counter 1 to the vertical one, in the same way.
use psx.Base.{ℕ, true, false, ◌&&◌, ◌==◌, if◌then◌else◌}
use psx.Timers.Counter.{Counter, Events, Timer}
use psx.Timers.Irq.{set_counter}
use psx.Timers.Events.{update_from_timestamp, update_events}

-- What the signal does to a synchronised counter, by its mode: PAUSE, RESET, RESET_AND_PAUSE and
-- PAUSE_AND_SWITCH.
unfoldable pub blank_begins : Counter → Counter
blank_begins c =
    if c.mode.sync_mode == 0
    then record c { stopped = true }
    else if c.mode.sync_mode == 1
    then record c { count_value = 0 }
    else if c.mode.sync_mode == 2
    then record c { stopped = false; count_value = 0 }
    else record c { stopped = false; mode = record (c.mode) { sync_enable = false } }

unfoldable pub blank_ends : Counter → Counter
blank_ends c =
    if c.mode.sync_mode == 0
    then record c { stopped = false }
    else if c.mode.sync_mode == 2
    then record c { stopped = true }
    else c

module _ (events : Events) where
  open events use {Queue}

  -- The counter `id` is brought up to date, and if it is synchronised it obeys the signal.
  unfoldable pub signal : ℕ → (Counter → Counter) → Timer Queue → Timer Queue
  signal id action t =
      let c = update_from_timestamp t.status.now t.counter in
      if c.counter_id == id && c.mode.sync_enable
      then update_events events (set_counter (action c) t)
      else set_counter c t

  unfoldable pub hblank : Timer Queue → Timer Queue
  hblank t = signal 0 blank_begins (set_counter (record (t.counter) { hblank = true }) t)

  unfoldable pub vblank : Timer Queue → Timer Queue
  vblank t = signal 1 blank_begins (set_counter (record (t.counter) { vblank = true }) t)

  unfoldable pub hblank_end : Timer Queue → Timer Queue
  hblank_end t = signal 0 blank_ends (set_counter (record (t.counter) { hblank = false }) t)

  unfoldable pub vblank_end : Timer Queue → Timer Queue
  vblank_end t = signal 1 blank_ends (set_counter (record (t.counter) { vblank = false }) t)
