-- ===== src/Timers/Mode.antt =====
-- The mode register of a root counter: the union `m_mode` of psxemu/include/psxemu/RootCounters.hpp.
use psx.Base.{ℕ, ◌+◌, ◌*◌, ◌/◌, ◌%◌, ◌^◌, Bool, true, false, ◌==◌}
use psx.Base.Words.{bit}

-- `spare` holds the three bits above the named ones.
pub record Mode : Type 0 where
  pub sync_enable : Bool
  pub sync_mode : ℕ
  pub reset_on_target : Bool
  pub irq_on_target : Bool
  pub irq_on_ov : Bool
  pub irq_repeat : Bool
  pub irq_toggle : Bool
  pub clock_src : ℕ
  pub irq : Bool
  pub target_reached : Bool
  pub ov_reached : Bool
  pub spare : ℕ

abbrev pub flag : ℕ → ℕ → Bool
flag i raw = bit i raw == 1

abbrev pub from_flag : Bool → ℕ
from_flag true = 1
from_flag false = 0

-- The two views of the union.
unfoldable pub mode_of_raw : ℕ → Mode
mode_of_raw raw = record {
  sync_enable = flag 0 raw;
  sync_mode = raw / 2 % 4;
  reset_on_target = flag 3 raw;
  irq_on_target = flag 4 raw;
  irq_on_ov = flag 5 raw;
  irq_repeat = flag 6 raw;
  irq_toggle = flag 7 raw;
  clock_src = raw / 2 ^ 8 % 4;
  irq = flag 10 raw;
  target_reached = flag 11 raw;
  ov_reached = flag 12 raw;
  spare = raw / 2 ^ 13 % 8;
}

unfoldable pub raw_of_mode : Mode → ℕ
raw_of_mode m =
    from_flag m.sync_enable
    + 2 * m.sync_mode
    + 2 ^ 3 * from_flag m.reset_on_target
    + 2 ^ 4 * from_flag m.irq_on_target
    + 2 ^ 5 * from_flag m.irq_on_ov
    + 2 ^ 6 * from_flag m.irq_repeat
    + 2 ^ 7 * from_flag m.irq_toggle
    + 2 ^ 8 * m.clock_src
    + 2 ^ 10 * from_flag m.irq
    + 2 ^ 11 * from_flag m.target_reached
    + 2 ^ 12 * from_flag m.ov_reached
    + 2 ^ 13 * m.spare
