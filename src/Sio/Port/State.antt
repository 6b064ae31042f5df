-- ===== src/Sio/Port/State.antt =====
-- The serial port's registers: psxemu/include/psxemu/SIOPort.hpp and SIOStructs.hpp.
use psx.Base.{
  ℕ, ◌+◌, ◌-◌, ◌*◌, ◌/◌, ◌%◌, ◌^◌, Bool, true, false, List, [], ◌∷◌, Option, ◌==◌, if◌then◌else◌,
  get_or, replicate, ltb,
}
use psx.Base.Words.{bit}
use psx.Cpu.State.{Status}
use psx.Scheduler.State.{invalid_event}

-- `SIOPort`. The bits of `m_stat` are the fields from `tx_not_full` to `int_req`; `mode` and `control` are
-- the raw registers, and `entries` and `num_bytes` the queue of received bytes.
pub record Port : Type 0 where
  pub id : ℕ
  pub pending_transfer : Bool
  pub new_transfer : Bool
  pub tx_enable_latch : Bool
  pub tx_data : ℕ
  pub old_tx : ℕ
  pub new_rx_data : ℕ
  pub has_ack : Bool
  pub has_data : Bool
  pub entries : List ℕ
  pub num_bytes : ℕ
  pub tx_not_full : Bool
  pub rx_not_empty : Bool
  pub tx_idle : Bool
  pub rx_parity_err : Bool
  pub rx_buffer_overrun : Bool
  pub rx_bad_stop : Bool
  pub rx_input_level : Bool
  pub dsr_input_level : Bool
  pub cts_input_level : Bool
  pub int_req : Bool
  pub mode : ℕ
  pub control : ℕ
  pub baud_rate : ℕ
  pub baud_counter : ℕ
  pub clocks_per_bit : ℕ
  pub event_id : ℕ

-- The port, the devices of its two slots (none where there is none), the status and the scheduler.
pub record Sio (Device Queue : Type 0) : Type 0 where
  pub port : Port
  pub port1 : Option Device
  pub port2 : Option Device
  pub status : Status
  pub queue : Queue

-- The constructor.
unfoldable pub sio_port : ℕ → Port
sio_port id = record {
  id = id;
  pending_transfer = false;
  new_transfer = false;
  tx_enable_latch = false;
  tx_data = 0;
  old_tx = 0;
  new_rx_data = 0;
  has_ack = false;
  has_data = false;
  entries = replicate 8 0;
  num_bytes = 0;
  tx_not_full = true;
  rx_not_empty = false;
  tx_idle = true;
  rx_parity_err = false;
  rx_buffer_overrun = false;
  rx_bad_stop = false;
  rx_input_level = false;
  dsr_input_level = false;
  cts_input_level = false;
  int_req = false;
  mode = 0;
  control = 0;
  baud_rate = 0;
  baud_counter = 0;
  clocks_per_bit = 0;
  event_id = invalid_event;
}

-- The bit-fields of `SIOControl` and `SIOMode`.
abbrev pub tx_enable : ℕ → Bool
tx_enable control = bit 0 control == 1

abbrev pub dtr_output_level : ℕ → Bool
dtr_output_level control = bit 1 control == 1

abbrev pub rx_enable : ℕ → Bool
rx_enable control = bit 2 control == 1

abbrev pub rx_irq_after_n_bytes : ℕ → ℕ
rx_irq_after_n_bytes control = control / 2 ^ 8 % 4

abbrev pub rx_int_enable : ℕ → Bool
rx_int_enable control = bit 11 control == 1

abbrev pub dsr_int_enable : ℕ → Bool
dsr_int_enable control = bit 12 control == 1

abbrev pub port_select : ℕ → ℕ
port_select control = bit 13 control

abbrev pub baudrate_reload_factor : ℕ → ℕ
baudrate_reload_factor mode = mode % 4

abbrev pub char_len : ℕ → ℕ
char_len mode = mode / 4 % 4

-- The register without bit `i`.
abbrev pub clear_bit : ℕ → ℕ → ℕ
clear_bit i x = x - bit i x * 2 ^ i

abbrev pub flag : ℕ → Bool → ℕ
flag i b = if b then 2 ^ i else 0

-- `m_stat.reg`.
unfoldable pub stat_reg : Port → ℕ
stat_reg p =
    flag 0 p.tx_not_full
    + flag 1 p.rx_not_empty
    + flag 2 p.tx_idle
    + flag 3 p.rx_parity_err
    + flag 4 p.rx_buffer_overrun
    + flag 5 p.rx_bad_stop
    + flag 6 p.rx_input_level
    + flag 7 p.dsr_input_level
    + flag 8 p.cts_input_level
    + flag 9 p.int_req

abbrev pub muls : List ℕ
muls = 1 ∷ 1 ∷ 16 ∷ 64 ∷ []

unfoldable pub reload_factor : Port → ℕ
reload_factor p = get_or muls (baudrate_reload_factor p.mode) 0

-- `ComputeClocksPerBit`.
unfoldable pub compute_clocks_per_bit : Port → Port
compute_clocks_per_bit p =
    let product = p.baud_rate * reload_factor p in
    let even = product - product % 2 in
    let least = if p.id == 0 then 1 else reload_factor p in
    record p { clocks_per_bit = if ltb even least then least else even }

-- `GetTransferTime`.
unfoldable pub transfer_time : Port → ℕ
transfer_time p = (char_len p.mode + 5) * p.clocks_per_bit
