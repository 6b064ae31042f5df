-- ===== src/Timers/Pause.antt =====
-- The pause of counter 0 during horizontal blanking: laws of `HBlank` and `HBlankEnd`.
use psx.Base.{refl, ◌∙◌, ℕ, ◌^◌, ◌<◌, ◌≡◌, ◌≢◌, true, false, arith}
use psx.Cpu.State.{Status}
use psx.Timers.Counter.{Counter, Events, Timer}
use psx.Timers.Irq.{set_counter}
use psx.Timers.Events.{
  update_counter, update_from_timestamp, update_events, arrange, set_stopped, catch_up, elapsed,
  sync_stops, register_event, schedule_event,
}
use psx.Timers.Sync.{hblank, hblank_end, signal, blank_begins, blank_ends}

-- Counter 0 in the mode PAUSE.
pub record Pauses (c : Counter) : Type 0 where
  pub id : c.counter_id ≡ 0
  pub enabled : c.mode.sync_enable ≡ true
  pub pause : c.mode.sync_mode ≡ 0

module _ (events : Events) where
  open events use {Queue}

  count_value-arrange :
      (t : Timer Queue) → (arrange events t).counter.count_value ≡ t.counter.count_value
  unfolding arrange register_event schedule_event set_stopped
  count_value-arrange t = ground arith

  -- Bringing a counter up to date once more at the same time does nothing.
  catch_up_again : (now : ℕ) (c : Counter) → c.last_update_timestamp ≡ now → catch_up now c ≡ c
  unfolding catch_up elapsed
  catch_up_again now c e = ground arith

  counter-hblank :
      (t : Timer Queue)
      → Pauses t.counter
      → t.counter.stopped ≡ false
      → (hblank events t).counter
        ≡ record (update_from_timestamp t.status.now t.counter) { stopped = true; hblank = true }
  unfolding hblank signal blank_begins update_events arrange sync_stops set_stopped catch_up elapsed
      update_from_timestamp update_counter
  counter-hblank t p running = ground arith

  count_value-update_events :
      (t : Timer Queue)
      → (update_events events t).counter.count_value ≡ (catch_up t.status.now t.counter).count_value
  unfolding update_events
  count_value-update_events t = count_value-arrange _

  hblank_end_lem :
      (t : Timer Queue)
      → Pauses t.counter
      → t.counter.stopped ≡ true
      → hblank_end events t
        ≡ update_events events
            (set_counter (record (t.counter) { stopped = false; hblank = false }) t)
  unfolding hblank_end signal blank_ends update_from_timestamp update_counter
  hblank_end_lem t p rests = ground arith

  count_value-hblank_end :
      (t : Timer Queue)
      → Pauses t.counter
      → t.counter.stopped ≡ true
      → elapsed t.status.now t.counter ≢ 0
      → (hblank_end events t).counter.count_value
        ≡ (update_from_timestamp t.status.now (record (t.counter) { stopped = false })).count_value
  unfolding catch_up elapsed update_from_timestamp update_counter
  count_value-hblank_end t p rests later =
      rw (hblank_end_lem t p rests, count_value-update_events) (ground arith)

  -- The pause is counted after all. Counter 0 in the mode PAUSE runs until a horizontal blanking, which
  -- stops it; at the end of the blanking, at a later time, its value is the one that it would have if
  -- it had never stopped.
  pub pause_is_counted :
      (t : Timer Queue) (s : Status) (q : Queue)
      → Pauses t.counter
      → t.counter.stopped ≡ false
      → t.status.now < s.now
      → s.now < 2 ^ 64
      → let blank = hblank events t in
        (blank.counter.stopped ≡ true)
        × ((hblank_end events (record blank { status = s; queue = q })).counter.count_value
            ≡ (update_from_timestamp s.now
                (update_from_timestamp t.status.now t.counter)).count_value)
  unfolding elapsed update_from_timestamp update_counter
  pause_is_counted t s q p running later fits =
      let r = update_from_timestamp t.status.now t.counter in
      let b : Timer Queue = record {
        counter = record r { stopped = true; hblank = true };
        status = s;
        queue = q;
      } in
      let pauses : Pauses b.counter = ground arith in
      let goes_on : (update_from_timestamp s.now
            (record (b.counter) { stopped = false })).count_value
          ≡ (update_from_timestamp s.now r).count_value =
        ground arith in
      rw (counter-hblank t p running)
        (refl, count_value-hblank_end b pauses refl (ground arith) ∙ goes_on)
