-- ===== src/Timers/Reach.antt =====
-- Whatever the program and the machine do to a root counter, in any order.
use psx.Base.{◌||◌, ◌≡◌, ◌==◌, ℕ, ◌<◌, arith, if_either}
use psx.Cpu.State.{Status}
use psx.Timers.Counter.{
  Counter, Callback, Events, Timer, root_counter, overflow_callback, target_callback,
}
use psx.Timers.Irq.{set_counter}
use psx.Timers.Events.{run_callback, update_from_timestamp}
use psx.Timers.Sync.{hblank, vblank, hblank_end, vblank_end, blank_begins, blank_ends}
use psx.Timers.Registers.{write, write_value, write_mode, write_target, read, set_dotclock}
use psx.Timers.Valid.{
  IsValid, root_counter-IsValid, update_from_timestamp-IsValid, on_target-IsValid,
  on_overflow-IsValid, restart-IsValid, signal-IsValid, update_events-IsValid, dot_cycles_bounds,
  blank_begins-IsValid, blank_ends-IsValid,
}

module _ (events : Events) where
  open events use {Queue}

  -- The calls of `RootCounter`'s methods, with those of its callbacks by the scheduler. Between them the
  -- machine changes the status, the time in it, and the events, as it likes.
  pub data Step : Timer Queue → Timer Queue → Type 0 where
    write_register : (t : Timer Queue) (address value : ℕ) → Step t (write events address value t)
    read_register : (t : Timer Queue) (address : ℕ) → Step t ((read events address t).1)
    select_dotclock : (t : Timer Queue) (sel : ℕ) → sel < 5 → Step t (set_dotclock events sel t)
    hblank_starts : (t : Timer Queue) → Step t (hblank events t)
    hblank_stops : (t : Timer Queue) → Step t (hblank_end events t)
    vblank_starts : (t : Timer Queue) → Step t (vblank events t)
    vblank_stops : (t : Timer Queue) → Step t (vblank_end events t)
    catches_up :
        (t : Timer Queue) → Step t (set_counter (update_from_timestamp t.status.now t.counter) t)
    event_fires :
        (t : Timer Queue) (e : Callback) (late : ℕ) → Step t (run_callback events e late t)
    machine_runs :
        (t : Timer Queue) (s : Status) (q : Queue) → Step t (record t { status = s; queue = q })

  pub data Reach (t : Timer Queue) : Timer Queue → Type 0 where
    here : Reach t t
    next : {u v : Timer Queue} → Reach t u → Step u v → Reach t v

  write_mode-IsValid :
      (value : ℕ) (t : Timer Queue)
      → IsValid t.counter
      → IsValid (write_mode events value t).counter
  unfolding write_mode
  write_mode-IsValid value t v =
      update_events-IsValid events _ (restart-IsValid events t.status.now value v)

  write_value-IsValid :
      (value : ℕ) (t : Timer Queue)
      → IsValid t.counter
      → IsValid (write_value events value t).counter
  unfolding write_value
  write_value-IsValid value t v = update_events-IsValid events _ (ground arith)

  write_target-IsValid :
      (value : ℕ) (t : Timer Queue)
      → IsValid t.counter
      → IsValid (write_target events value t).counter
  unfolding write_target
  write_target-IsValid value t v = update_events-IsValid events _ (ground arith)

  write-IsValid :
      (address value : ℕ) (t : Timer Queue)
      → IsValid t.counter
      → IsValid (write events address value t).counter
  unfolding write
  write-IsValid address value t v = ground (
    arith,
    write_value-IsValid value t v,
    write_mode-IsValid value t v,
    write_target-IsValid value t v,
  )

  read-IsValid :
      (address : ℕ) (t : Timer Queue)
      → IsValid t.counter
      → IsValid ((read events address t).1).counter
  unfolding read
  read-IsValid address t v = ground (arith, update_from_timestamp-IsValid t.status.now v)

  set_dotclock-IsValid :
      (sel : ℕ) (t : Timer Queue)
      → sel < 5
      → IsValid t.counter
      → IsValid (set_dotclock events sel t).counter
  unfolding set_dotclock
  set_dotclock-IsValid sel t h v =
      let c : Counter = record (t.counter) { dotclock_sel = sel } in
      let keep : IsValid c = ground arith in
      if_either (λ (k : Timer Queue). IsValid k.counter) (c.counter_id == 0)
        (if_either (λ (k : Timer Queue). IsValid k.counter)
          (c.mode.clock_src == 1 || c.mode.clock_src == 3)
          (update_events-IsValid events _ (ground (arith, dot_cycles_bounds sel))) keep)
        keep

  Step-IsValid : {t u : Timer Queue} → Step t u → IsValid t.counter → IsValid u.counter
  unfolding hblank vblank hblank_end vblank_end run_callback
  Step-IsValid (write_register t address value) v = write-IsValid address value t v
  Step-IsValid (read_register t address) v = read-IsValid address t v
  Step-IsValid (select_dotclock t sel h) v = set_dotclock-IsValid sel t h v
  Step-IsValid (hblank_starts t) v =
      signal-IsValid events 0 blank_begins _ blank_begins-IsValid (ground arith)
  Step-IsValid (hblank_stops t) v =
      signal-IsValid events 0 blank_ends _ blank_ends-IsValid (ground arith)
  Step-IsValid (vblank_starts t) v =
      signal-IsValid events 1 blank_begins _ blank_begins-IsValid (ground arith)
  Step-IsValid (vblank_stops t) v =
      signal-IsValid events 1 blank_ends _ blank_ends-IsValid (ground arith)
  Step-IsValid (catches_up t) v = update_from_timestamp-IsValid t.status.now v
  Step-IsValid (event_fires t overflow_callback late) v = on_overflow-IsValid events late t v
  Step-IsValid (event_fires t target_callback late) v = on_target-IsValid events late t v
  Step-IsValid (machine_runs t s q) v = v

  Reach-IsValid : {t u : Timer Queue} → Reach t u → IsValid t.counter → IsValid u.counter
  Reach-IsValid here v = v
  Reach-IsValid (next r s) v = Step-IsValid s (Reach-IsValid r v)

  -- From the constructor on, through any calls of a counter's methods and callbacks in any order: the
  -- registers keep within 16 bits, the rest of the division stays below the divisor, so that
  -- `UpdateCounter` never divides by 0, and the bit-fields and the dot clock's index stay in range.
  pub root_counter-Reach-IsValid :
      {t u : Timer Queue} (id : ℕ)
      → id < 3
      → t.counter ≡ root_counter id
      → Reach t u
      → IsValid u.counter
  root_counter-Reach-IsValid {t} id h e r = Reach-IsValid r (rw e (root_counter-IsValid id h))
