-- ===== src/Sio/Port/Transfer.antt =====
-- The transfers of the serial port: `HandlePendingTransfer` and `TransferComplete` of
-- psxemu/source/psxemu/SIOPort.cpp. A call of a device that is not there is none.
use psx.Base.{
  ℕ, ◌+◌, ◌^◌, Bool, true, false, not, ◌&&◌, ◌||◌, Option, some, List, [], ◌∷◌, ◌==◌, if◌then◌else◌,
  get_or, set,
}
use psx.Cpu.State.{◌>>=◌}
use psx.Scheduler.State.{invalid_event}
use psx.Timers.Irq.{interrupt}
use psx.Sio.Line.{Line, Alarm}
use psx.Sio.Port.State.{
  Port, Sio, tx_enable, dtr_output_level, rx_enable, rx_irq_after_n_bytes, rx_int_enable,
  dsr_int_enable, port_select, clear_bit, transfer_time,
}

abbrev pub pad_card : ℕ
pad_card = 2 ^ 7

abbrev pub n_bytes : List ℕ
n_bytes = 1 ∷ 2 ∷ 4 ∷ 8 ∷ []

-- Whether a byte waits that can be sent.
unfoldable pub can_send : Port → Bool
can_send p =
    p.pending_transfer
    && (tx_enable p.control || p.tx_enable_latch)
    && p.tx_idle
    && dtr_output_level p.control

-- Whether a received byte is kept.
unfoldable pub receives : Port → Bool
receives p =
    p.id == 1 && rx_enable p.control
    || p.id == 0 && dtr_output_level p.control && not (rx_enable p.control)
    || p.id == 0 && rx_enable p.control

-- Whether the queue of received bytes, with this one, asks for an interrupt.
unfoldable pub asks : Port → Bool
asks p =
    rx_int_enable p.control && p.num_bytes + 1 == get_or n_bytes (rx_irq_after_n_bytes p.control) 0

-- The received byte goes into the queue, in the place of its last byte where it is full.
unfoldable pub push_byte : Port → Port
push_byte p =
    if p.num_bytes == 8
    then record p {
      entries = set p.entries 7 p.new_rx_data;
      rx_buffer_overrun = if p.id == 1 then true else p.rx_buffer_overrun;
    }
    else record p {
      entries = set p.entries p.num_bytes p.new_rx_data;
      num_bytes = p.num_bytes + 1;
      rx_not_empty = true;
    }

-- The byte that came in, and whether the queue asks for an interrupt.
unfoldable pub receive : Port → Bool × Port
receive p =
    let enabled = record p {
      control = if p.id == 0 && rx_enable p.control then clear_bit 2 p.control else p.control;
    } in
    if receives p then (not (p.num_bytes == 8) && asks p, push_byte enabled) else (false, p)

-- The port after the byte has gone, with the next one if there is one.
unfoldable pub sent : Port → Port
sent p = record p { tx_idle = true; pending_transfer = p.new_transfer; old_tx = p.tx_data }

module _ (line : Line) (alarm : Alarm) where
  abbrev pub Bench : Type 0
  Bench = Sio (line.State) (alarm.Queue)

  -- The device of the slot sends its byte back and says whether it acknowledges.
  unfoldable pub exchange_with : ℕ → line.State → Option (ℕ × Bool × Bool × line.State)
  exchange_with value d =
      line.send value d >>= λ r. let (ack, after) = line.ack (r.2) in some (r.0, r.1, ack, after)

  unfoldable pub ask_slot : ℕ → Bench → Option (ℕ × Bool × Bool × Bench)
  ask_slot value s =
      if port_select s.port.control == 0
      then (s.port1 >>= exchange_with value >>= λ r.
          some (r.0, r.1, r.2, record s { port1 = some (r.3) }))
      else (s.port2 >>= exchange_with value >>= λ r.
          some (r.0, r.1, r.2, record s { port2 = some (r.3) }))

  unfoldable pub start_transfer : Bench → Option Bench
  start_transfer s = ask_slot s.port.old_tx s >>= λ r.
      let after = r.3 in
      let (id, queue) = alarm.schedule (transfer_time after.port) after.queue in
      some (record after {
        queue = queue;
        port = record (after.port) {
          tx_idle = false;
          tx_not_full = true;
          new_rx_data = r.0;
          has_data = r.1;
          has_ack = r.2;
          event_id = id;
        };
      })

  -- `HandlePendingTransfer`.
  unfoldable pub handle_pending : Bench → Option Bench
  handle_pending s = if can_send s.port then start_transfer s else some s

  unfoldable pub request : Bool → Bench → Bench
  request b s =
      if b
      then record s {
        port = record (s.port) { int_req = true };
        status = interrupt pad_card s.status;
      }
      else s

  -- `TransferComplete`.
  unfoldable pub transfer_complete : Bench → Option Bench
  transfer_complete s =
      let acknowledged = s.port.has_ack && dsr_int_enable s.port.control in
      let (full, p) = receive (sent s.port) in
      let after = request (acknowledged || full) (record s { port = p }) in
      handle_pending (record after { port = record (after.port) { event_id = invalid_event } })
