-- ===== src/Sio/Port/Bounds.antt =====
-- The queue of received bytes stays within its eight places.
use psx.Base.{
  ℕ, ◌≤◌, ◌≡◌, refl, Bool, false, not, ◌==◌, length, length-set, arith, ◌&&◌, ◌||◌, leb, get_elem?,
  if_cases, if_either,
}
use psx.Cpu.State.{◌>>=◌, Holds, Holds-bind, Holds-last}
use psx.Scheduler.State.{invalid_event}
use psx.Containers.Refine.{length-shifted}
use psx.Sio.Line.{Line, Alarm}
use psx.Sio.Port.State.{Port, sio_port, port_select, dsr_int_enable, compute_clocks_per_bit}
use psx.Sio.Port.Transfer.{
  Bench, can_send, push_byte, receive, sent, exchange_with, ask_slot, start_transfer,
  handle_pending, request, transfer_complete,
}
use psx.Sio.Port.Registers.{
  within, shift_fifo, write_baud, write_mode, acknowledge, reset_bit, take_byte, finish_now,
  fifo_byte, read8, read_stat, read16, read32,
}

pub record IsValid (p : Port) : Type 0 where
  pub places : length p.entries ≡ 8
  pub fits : p.num_bytes ≤ 8
  pub flagged : p.rx_not_empty ≡ not (p.num_bytes == 0)

pub sio_port-IsValid : (id : ℕ) → IsValid (sio_port id)
unfolding sio_port
sio_port-IsValid id = record { places = refl; fits = omega arith; flagged = refl }

shift_fifo-IsValid : (p : Port) → IsValid p → (p.num_bytes == 0) ≡ false → IsValid (shift_fifo p)
unfolding shift_fifo
shift_fifo-IsValid p v h = ground (arith, length-shifted 8 1 p.entries, v.places, v.fits, v.flagged)

receive-IsValid : (p : Port) → IsValid p → IsValid ((receive p).1)
unfolding receive push_byte
receive-IsValid p v = ground (
  arith,
  v.places,
  v.fits,
  v.flagged,
  length-set p.entries 7 p.new_rx_data,
  length-set p.entries p.num_bytes p.new_rx_data,
)

sent-IsValid : (p : Port) → IsValid p → IsValid (sent p)
unfolding sent
sent-IsValid p v = record { places = v.places; fits = v.fits; flagged = v.flagged }

pub write_baud-IsValid : (value : ℕ) (p : Port) → IsValid p → IsValid (write_baud value p)
unfolding write_baud compute_clocks_per_bit
write_baud-IsValid value p v = record { places = v.places; fits = v.fits; flagged = v.flagged }

pub write_mode-IsValid : (value : ℕ) (p : Port) → IsValid p → IsValid (write_mode value p)
unfolding write_mode compute_clocks_per_bit
write_mode-IsValid value p v = record { places = v.places; fits = v.fits; flagged = v.flagged }

pub acknowledge-IsValid : (p : Port) → IsValid p → IsValid (reset_bit (acknowledge p))
unfolding acknowledge reset_bit
acknowledge-IsValid p v = ground (arith, v.places, v.fits, v.flagged)

pub take_byte-IsValid : (value : ℕ) (p : Port) → IsValid p → IsValid (take_byte value p)
unfolding take_byte
take_byte-IsValid value p v = ground (arith, v.places, v.fits, v.flagged)

module _ (line : Line) (alarm : Alarm) where
  abbrev pub Ok : Bench line alarm → Type 0
  Ok s = IsValid s.port

  abbrev pub OkRead : ℕ × Bench line alarm → Type 0
  OkRead r = Ok (r.1)

  abbrev OkAsk : ℕ × Bool × Bool × Bench line alarm → Type 0
  OkAsk r = Ok (r.3)

  ask_slot-Ok :
      (value : ℕ) (s : Bench line alarm) → Ok s → Holds OkAsk (ask_slot line alarm value s)
  unfolding ask_slot
  ask_slot-Ok value s v =
      if_either (Holds OkAsk) (port_select s.port.control == 0)
        (Holds-last OkAsk (s.port1 >>= exchange_with line alarm value) _ (λ r. v))
        (Holds-last OkAsk (s.port2 >>= exchange_with line alarm value) _ (λ r. v))

  start_transfer-Ok : (s : Bench line alarm) → Ok s → Holds Ok (start_transfer line alarm s)
  unfolding start_transfer
  start_transfer-Ok s v =
      Holds-bind OkAsk Ok (ask_slot line alarm s.port.old_tx s) _ (ask_slot-Ok s.port.old_tx s v)
        λ r w. record { places = w.places; fits = w.fits; flagged = w.flagged }

  pub handle_pending-Ok : (s : Bench line alarm) → Ok s → Holds Ok (handle_pending line alarm s)
  unfolding handle_pending
  handle_pending-Ok s v = if_either (Holds Ok) (can_send s.port) (start_transfer-Ok s v) v

  request-Ok : (b : Bool) (s : Bench line alarm) → Ok s → Ok (request line alarm b s)
  unfolding request
  request-Ok b s v =
      if_either Ok b (record { places = v.places; fits = v.fits; flagged = v.flagged }) v

  pub transfer_complete-Ok :
      (s : Bench line alarm) → Ok s → Holds Ok (transfer_complete line alarm s)
  unfolding transfer_complete
  transfer_complete-Ok s v =
      let w = receive-IsValid (sent s.port) (sent-IsValid s.port v) in
      let u =
        request-Ok (s.port.has_ack && dsr_int_enable s.port.control || (receive (sent s.port)).0)
          (record s { port = (receive (sent s.port)).1 }) w in
      handle_pending-Ok _ (record { places = u.places; fits = u.fits; flagged = u.flagged })

  finish_now-Ok : (s : Bench line alarm) → Ok s → Holds Ok (finish_now line alarm s)
  unfolding finish_now
  finish_now-Ok s v =
      if_either (Holds Ok) (s.port.event_id == invalid_event) v (transfer_complete-Ok _ v)

  fifo_byte-Ok :
      (offset : ℕ) (s : Bench line alarm) → Ok s → Holds OkRead (fifo_byte line alarm offset s)
  unfolding fifo_byte
  fifo_byte-Ok offset s v =
      if_cases (Holds OkRead) (leb s.port.num_bytes offset) (λ _. v)
        λ e.
          Holds-last OkRead (get_elem? s.port.entries offset) _ λ b.
            if_cases Ok (offset == 0) (λ f. shift_fifo-IsValid s.port v (ground arith)) (λ _. v)

  pub read8-Ok :
      (address : ℕ) (s : Bench line alarm) → Ok s → Holds OkRead (read8 line alarm address s)
  unfolding read8
  read8-Ok address s v =
      if_either (Holds OkRead) (within 0 4 address)
        (Holds-bind Ok OkRead (finish_now line alarm s) (fifo_byte line alarm address)
          (finish_now-Ok s v) (fifo_byte-Ok address))
        tt

  read_stat-Ok : (s : Bench line alarm) → Ok s → Holds OkRead (read_stat line alarm s)
  unfolding read_stat
  read_stat-Ok s v = Holds-bind Ok OkRead (finish_now line alarm s) _ (finish_now-Ok s v) λ t w.
      if_either (Holds OkRead) (t.port.baud_rate == 0) tt
        (record { places = w.places; fits = w.fits; flagged = w.flagged })

  pub read16-Ok :
      (address : ℕ) (s : Bench line alarm) → Ok s → Holds OkRead (read16 line alarm address s)
  unfolding read16
  read16-Ok address s v =
      if_either (Holds OkRead) (within 0 4 address)
        (if_either (Holds OkRead) (address == 2) tt (
          Holds-bind OkRead OkRead (read8 line alarm 0 s) _ (read8-Ok 0 s v) λ a w.
            Holds-bind OkRead OkRead (read8 line alarm 0 (a.1)) _ (read8-Ok 0 (a.1) w) λ b u. u))
        (if_either (Holds OkRead) (within 4 4 address)
          (Holds-bind OkRead OkRead (read_stat line alarm s) _ (read_stat-Ok s v) λ r w. w)
          (if_either (Holds OkRead) (within 8 2 address) v (
            if_either (Holds OkRead) (within 0xa 2 address) v
              (if_either (Holds OkRead) (within 0xe 2 address) v v))))

  pub read32-Ok :
      (address : ℕ) (s : Bench line alarm) → Ok s → Holds OkRead (read32 line alarm address s)
  unfolding read32
  read32-Ok address s v =
      if_either (Holds OkRead) (within 0 4 address)
        (Holds-bind OkRead OkRead (read8 line alarm 0 s) _ (read8-Ok 0 s v) λ a w.
          Holds-bind OkRead OkRead (read8 line alarm 0 (a.1)) _ (read8-Ok 0 (a.1) w) λ b x.
            Holds-bind OkRead OkRead (read8 line alarm 0 (b.1)) _ (read8-Ok 0 (b.1) x) λ c y.
              Holds-bind OkRead OkRead (read8 line alarm 0 (c.1)) _ (read8-Ok 0 (c.1) y) λ d z. z)
        (if_either (Holds OkRead) (within 4 4 address) (read_stat-Ok s v) (
          if_either (Holds OkRead) (within 8 4 address) v
            (if_either (Holds OkRead) (within 0xc 4 address) v v)))
