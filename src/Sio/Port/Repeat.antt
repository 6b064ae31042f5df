-- ===== src/Sio/Port/Repeat.antt =====
-- A byte that was written while another was on its way is sent again and again: `m_new_transfer` is set by
-- a write, and never cleared.
use psx.Base.{
  ◌<◌, ◌^◌, ◌%◌, List, replicate, ℕ, zero, suc, ◌≡◌, refl, Bool, true, false, Option, some, arith,
  ◌&&◌, ◌||◌,
}
use psx.Cpu.State.{◌>>=◌}
use psx.Scheduler.State.{invalid_event}
use psx.Sio.Line.{Line, Alarm}
use psx.Sio.Session.{Talks}
use psx.Sio.Port.Registers.{write16, write_byte, take_byte}
use psx.Sio.Port.State.{
  dsr_int_enable, tx_enable, dtr_output_level, rx_enable, port_select, transfer_time,
}
use psx.Sio.Port.Transfer.{
  Bench, can_send, receives, push_byte, receive, sent, exchange_with, ask_slot, start_transfer,
  handle_pending, request, transfer_complete,
}

module _ (line : Line) (alarm : Alarm) where
  -- A byte `x` was written while another was on its way, and the program leaves the port enabled.
  pub record Waiting (x : ℕ) (d : line.State) (s : Bench line alarm) : Type 0 where
    pub next : s.port.new_transfer ≡ true
    pub byte : s.port.tx_data ≡ x
    pub enabled : tx_enable s.port.control ≡ true
    pub level : dtr_output_level s.port.control ≡ true
    pub no_rx : rx_enable s.port.control ≡ false
    pub slot : port_select s.port.control ≡ 0
    pub device : s.port1 ≡ some d

  unfoldable pub complete_times : ℕ → Bench line alarm → Option (Bench line alarm)
  complete_times zero s = some s
  complete_times (suc n) s = transfer_complete line alarm s >>= complete_times n

  -- The port with the byte ready to be sent.
  record Loaded (x : ℕ) (d : line.State) (s : Bench line alarm) : Type 0 where
    next : s.port.new_transfer ≡ true
    byte : s.port.tx_data ≡ x
    old : s.port.old_tx ≡ x
    pending : s.port.pending_transfer ≡ true
    idle : s.port.tx_idle ≡ true
    enabled : tx_enable s.port.control ≡ true
    level : dtr_output_level s.port.control ≡ true
    no_rx : rx_enable s.port.control ≡ false
    slot : port_select s.port.control ≡ 0
    device : s.port1 ≡ some d

  abbrev started : ℕ → Bool → Bool → line.State → Bench line alarm → Bench line alarm
  started r has_data ack after s =
      let (id, queue) = alarm.schedule (transfer_time s.port) s.queue in
      record s {
        port1 = some after;
        queue = queue;
        port = record (s.port) {
          tx_idle = false;
          tx_not_full = true;
          new_rx_data = r;
          has_data = has_data;
          has_ack = ack;
          event_id = id;
        };
      }

  handle_pending-Waiting :
      (x r : ℕ) (has_data ack : Bool) (d after : line.State) (s : Bench line alarm)
      → Loaded x d s
      → exchange_with line alarm x d ≡ some (r, has_data, ack, after)
      → (t : Bench line alarm) × (handle_pending line alarm s ≡ some t) × Waiting x after t
  unfolding handle_pending can_send start_transfer ask_slot transfer_time
  handle_pending-Waiting x r has_data ack d after s w e = (
    started r has_data ack after s,
    ground (arith, w.old, w.pending, w.idle, w.enabled, w.level, w.slot, w.device, e),
    ground (arith, w.next, w.byte, w.enabled, w.level, w.no_rx, w.slot),
  )

  -- The port of `transfer_complete` where it calls `handle_pending`.
  abbrev completed : Bench line alarm → Bench line alarm
  completed s =
      let (full, p) = receive (sent s.port) in
      let after =
        request line alarm (s.port.has_ack && dsr_int_enable s.port.control || full)
          (record s { port = p }) in
      record after { port = record (after.port) { event_id = invalid_event } }

  completed-Loaded :
      (x : ℕ) (d : line.State) (s : Bench line alarm) → Waiting x d s → Loaded x d (completed s)
  unfolding receive receives push_byte sent request
  completed-Loaded x d s w =
      ground (arith, w.next, w.byte, w.enabled, w.level, w.no_rx, w.slot, w.device)

  repeats_once :
      (x r : ℕ) (has_data ack : Bool) (d after : line.State) (s : Bench line alarm)
      → Waiting x d s
      → exchange_with line alarm x d ≡ some (r, has_data, ack, after)
      → (t : Bench line alarm) × (transfer_complete line alarm s ≡ some t) × Waiting x after t
  unfolding transfer_complete
  repeats_once x r has_data ack d after s w e =
      handle_pending-Waiting x r has_data ack d after (completed s) (completed-Loaded x d s w) e

  -- A byte is on its way, and the program leaves the port enabled.
  pub record OnItsWay (d : line.State) (s : Bench line alarm) : Type 0 where
    pub pending : s.port.pending_transfer ≡ true
    pub busy : s.port.tx_idle ≡ false
    pub room : s.port.tx_not_full ≡ true
    pub enabled : tx_enable s.port.control ≡ true
    pub level : dtr_output_level s.port.control ≡ true
    pub no_rx : rx_enable s.port.control ≡ false
    pub slot : port_select s.port.control ≡ 0
    pub device : s.port1 ≡ some d

  write_waits :
      (x : ℕ) (d : line.State) (s : Bench line alarm)
      → OnItsWay d s
      → x < 2 ^ 8
      → (t : Bench line alarm) × (write16 line alarm 0 x s ≡ some t) × Waiting x d t
  unfolding write16 write_byte take_byte handle_pending can_send
  write_waits x d s w h = (
    record s { port = take_byte (x % 2 ^ 8) s.port },
    ground (arith, w.pending, w.busy, w.room, w.enabled),
    ground (arith, w.pending, w.enabled, w.level, w.no_rx, w.slot, w.device),
  )

  repeats :
      (x n : ℕ) (d after : line.State) (rs : List ℕ) (s : Bench line alarm)
      → Talks line alarm after d (replicate n x) rs
      → Waiting x d s
      → (t : Bench line alarm) × (complete_times n s ≡ some t) × Waiting x after t
  unfolding complete_times
  repeats x zero d after rs s Talks.done w = (s, refl, w)
  repeats x (suc n) d after rs s (Talks.more e talks) w =
      let (t, completes, still) = repeats_once x _ _ _ d _ s w e in
      let (u, rest, last) = repeats x n _ after _ t talks still in
      (u, rw (completes, rest) refl, last)

  -- While a byte is on its way the program writes a byte `x`, once, and leaves the port enabled; the device answers
  -- to `x` as often as it is sent in what follows. Then each transfer that completes sends the device `x` once more: after `n` of
  -- them the device has been sent `x` `n` times, for any `n`, and the port still waits to send it.
  pub transfer_repeats :
      (x n : ℕ) (d after : line.State) (rs : List ℕ) (s : Bench line alarm)
      → OnItsWay d s
      → x < 2 ^ 8
      → Talks line alarm after d (replicate n x) rs
      → (t : Bench line alarm) × ((write16 line alarm 0 x s >>= complete_times n) ≡ some t)
        × Waiting x after t
  transfer_repeats x n d after rs s v h talks =
      let (t, writes, waiting) = write_waits x d s v h in
      let (u, completes, last) = repeats x n d after rs t talks waiting in
      (u, rw (writes, completes) refl, last)
