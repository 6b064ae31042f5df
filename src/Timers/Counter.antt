-- ===== src/Timers/Counter.antt =====
-- The state of a root counter, its clock sources, and the part of the machine that it works on.
use psx.Base.{
  ℕ, ◌-◌, ◌*◌, ◌^◌, Bool, true, false, List, [], ◌∷◌, get_or, ltb, ◌==◌, ◌||◌, if◌then◌else◌,
}
use psx.Cpu.State.{Status}
use psx.Scheduler.State.{invalid_event}
use psx.Timers.Mode.{Mode, mode_of_raw}

-- `RootCounter`, without the pointer to the system.
pub record Counter : Type 0 where
  pub counter_id : ℕ
  pub count_value : ℕ
  pub count_target : ℕ
  pub oneshot_flag : Bool
  pub count_partial : ℕ
  pub dotclock_sel : ℕ
  pub cycles_per_inc : ℕ
  pub curr_event_id : ℕ
  pub last_update_timestamp : ℕ
  pub stopped : Bool
  pub mode : Mode
  pub hblank : Bool
  pub vblank : Bool

-- The two functions that a counter hands to the scheduler.
pub data Callback : Type 0 where
  overflow_callback target_callback : Callback

pub data IrqSource : Type 0 where
  ov target : IrqSource

-- What a counter calls of the scheduler: `schedule` takes the cycles, the callback and the counter,
-- and gives the event's id.
pub record Events : Type 1 where
  pub Queue : Type 0
  pub schedule : ℕ → Callback → ℕ → Queue → ℕ × Queue
  pub deschedule : ℕ → Queue → Queue

-- The counter beside the status, whose `now` is the scheduler's time, and the events.
pub record Timer (Queue : Type 0) : Type 0 where
  pub counter : Counter
  pub status : Status
  pub queue : Queue

-- System clocks for a dot at each horizontal resolution, and for a scanline (3413 * 7 / 11).
abbrev pub dot_cycles : List ℕ
dot_cycles = 6 ∷ 5 ∷ 4 ∷ 3 ∷ 2 ∷ []

abbrev pub clocks_scanline_ntsc : ℕ
clocks_scanline_ntsc = 2171

-- `ComputeCyclesPerInc`; the code names no other counter than 0, 1 and 2.
unfoldable pub compute_cycles_per_inc : Counter → ℕ
compute_cycles_per_inc c =
    if c.counter_id == 0
    then if c.mode.clock_src == 1 || c.mode.clock_src == 3
      then get_or dot_cycles c.dotclock_sel 0
      else 1
    else if c.counter_id == 1
    then if c.mode.clock_src == 1 || c.mode.clock_src == 3 then clocks_scanline_ntsc else 1
    else if c.counter_id == 2
    then if c.mode.clock_src == 2 || c.mode.clock_src == 3 then 8 else 1
    else 0

abbrev pub fresh_counter : ℕ → Counter
fresh_counter id = record {
  counter_id = id;
  count_value = 0;
  count_target = 0;
  oneshot_flag = false;
  count_partial = 0;
  dotclock_sel = 0;
  cycles_per_inc = 0;
  curr_event_id = invalid_event;
  last_update_timestamp = 0;
  stopped = false;
  mode = mode_of_raw 0;
  hblank = false;
  vblank = false;
}

-- The constructor.
unfoldable pub root_counter : ℕ → Counter
root_counter id = record (fresh_counter id) {
  cycles_per_inc = compute_cycles_per_inc (fresh_counter id);
}

-- `CyclesTillOverflow`.
unfoldable pub cycles_till_overflow : Counter → ℕ
cycles_till_overflow c = (2 ^ 16 - c.count_value) * c.cycles_per_inc

-- `CyclesTillTarget`: the cycles, and whether the target lies behind.
unfoldable pub cycles_till_target : Counter → ℕ × Bool
cycles_till_target c =
    if ltb c.count_target c.count_value
    then (0, true)
    else ((c.count_target - c.count_value) * c.cycles_per_inc, false)
