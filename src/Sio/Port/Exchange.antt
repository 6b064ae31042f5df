-- ===== src/Sio/Port/Exchange.antt =====
-- A byte that goes through the port is a byte that goes to the device.
use mathlib.Core.Path.{subst}
use psx.Base.{
  sym, ◌∙◌, suc, ℕ, ◌^◌, ◌<◌, ◌≡◌, ◌≢◌, refl, Bool, true, false, ◌&&◌, ◌||◌, Option, some, List,
  length, get_elem?, set, arith, length-set, get_elem?-set_self,
}
use psx.Cpu.State.{◌>>=◌}
use psx.Scheduler.State.{invalid_event}
use psx.Containers.Refine.{length-shifted}
use psx.Sio.Line.{Line, Alarm, Rooms}
use psx.Sio.Port.State.{
  dsr_int_enable, tx_enable, dtr_output_level, rx_enable, port_select, transfer_time,
}
use psx.Sio.Port.Transfer.{
  Bench, can_send, receives, asks, push_byte, receive, sent, exchange_with, ask_slot,
  start_transfer, handle_pending, request, transfer_complete,
}
use psx.Sio.Port.Registers.{
  shift_fifo, take_byte, finish_now, fifo_byte, read8, write_byte, write16,
}

module _ (line : Line) (alarm : Alarm) where
  -- A byte is written to the data register, and the answer is read from it.
  unfoldable pub exchange : ℕ → Bench line alarm → Option (ℕ × Bench line alarm)
  exchange x s = write16 line alarm 0 x s >>= read8 line alarm 0

  -- The port of the controllers, enabled and at rest, with a device in its first slot.
  pub record Ready (d : line.State) (s : Bench line alarm) : Type 0 where
    pub pads : s.port.id ≡ 0
    pub resting : s.port.pending_transfer ≡ false
    pub no_next : s.port.new_transfer ≡ false
    pub idle : s.port.tx_idle ≡ true
    pub room : s.port.tx_not_full ≡ true
    pub enabled : tx_enable s.port.control ≡ true
    pub level : dtr_output_level s.port.control ≡ true
    pub no_rx : rx_enable s.port.control ≡ false
    pub slot : port_select s.port.control ≡ 0
    pub empty : s.port.num_bytes ≡ 0
    pub places : length s.port.entries ≡ 8
    pub no_event : s.port.event_id ≡ invalid_event
    pub device : s.port1 ≡ some d

  -- The transfer is under way.
  abbrev sending : ℕ → ℕ → Bool → Bool → line.State → Bench line alarm → Bench line alarm
  sending x r has_data ack after s =
      let (id, queue) = alarm.schedule (transfer_time s.port) s.queue in
      record s {
        port1 = some after;
        queue = queue;
        port = record (s.port) {
          tx_enable_latch = true;
          pending_transfer = true;
          old_tx = x;
          tx_idle = false;
          tx_not_full = true;
          new_rx_data = r;
          has_data = has_data;
          has_ack = ack;
          event_id = id;
        };
      }

  write_starts :
      (x r : ℕ) (has_data ack : Bool) (d after : line.State) (s : Bench line alarm)
      → Ready d s
      → x < 2 ^ 8
      → exchange_with line alarm x d ≡ some (r, has_data, ack, after)
      → write16 line alarm 0 x s ≡ some (sending x r has_data ack after s)
  unfolding write16 write_byte take_byte handle_pending can_send start_transfer ask_slot
      transfer_time
  write_starts x r has_data ack d after s v h e =
      ground (arith, v.room, v.resting, v.enabled, v.level, v.slot, v.idle, v.device, e)

  -- The answer has arrived, and is not read yet.
  record Arrived (r : ℕ) (d : line.State) (s : Bench line alarm) : Type 0 where
    pads : s.port.id ≡ 0
    resting : s.port.pending_transfer ≡ false
    no_next : s.port.new_transfer ≡ false
    idle : s.port.tx_idle ≡ true
    room : s.port.tx_not_full ≡ true
    enabled : tx_enable s.port.control ≡ true
    level : dtr_output_level s.port.control ≡ true
    no_rx : rx_enable s.port.control ≡ false
    slot : port_select s.port.control ≡ 0
    one : s.port.num_bytes ≡ 1
    first : get_elem? s.port.entries 0 ≡ some r
    places : length s.port.entries ≡ 8
    no_event : s.port.event_id ≡ invalid_event
    device : s.port1 ≡ some d

  -- A transfer of a port that was ready comes to its end.
  record Going (r : ℕ) (d : line.State) (s : Bench line alarm) : Type 0 where
    pads : s.port.id ≡ 0
    no_next : s.port.new_transfer ≡ false
    room : s.port.tx_not_full ≡ true
    enabled : tx_enable s.port.control ≡ true
    level : dtr_output_level s.port.control ≡ true
    no_rx : rx_enable s.port.control ≡ false
    slot : port_select s.port.control ≡ 0
    empty : s.port.num_bytes ≡ 0
    answer : s.port.new_rx_data ≡ r
    places : length s.port.entries ≡ 8
    device : s.port1 ≡ some d

  first-set : (xs : List ℕ) (r : ℕ) → length xs ≡ 8 → get_elem? (set xs 0 r) 0 ≡ some r
  first-set xs r e = get_elem?-set_self xs 0 r (omega arith)

  queue-request : (b : Bool) (s : Bench line alarm) → (request line alarm b s).queue ≡ s.queue
  unfolding request
  queue-request true s = refl
  queue-request false s = refl

  transfer_complete-Arrived :
      (r : ℕ) (d : line.State) (s : Bench line alarm)
      → Going r d s
      → (t : Bench line alarm) × (transfer_complete line alarm s ≡ some t)
        × Arrived r d t
        × (t.queue ≡ s.queue)
  unfolding transfer_complete receive receives push_byte sent request handle_pending can_send asks
  transfer_complete-Arrived r d s g =
      let p = receive (sent s.port) in
      let after =
        request line alarm (s.port.has_ack && dsr_int_enable s.port.control || p.0)
          (record s { port = p.1 }) in
      let t : Bench line alarm = record after {
        port = record (after.port) { event_id = invalid_event };
      } in
      (
        t,
        ground (arith, g.no_next, g.pads, g.level, g.no_rx),
        ground (
          arith,
          g.pads,
          g.no_next,
          g.room,
          g.enabled,
          g.level,
          g.no_rx,
          g.slot,
          g.empty,
          g.answer,
          g.places,
          g.device,
          first-set s.port.entries r,
          length-set s.port.entries 0 r,
        ),
        queue-request _ _,
      )

  fifo_byte-Ready :
      (r : ℕ) (d : line.State) (s : Bench line alarm)
      → Arrived r d s
      → (t : Bench line alarm) × (fifo_byte line alarm 0 s ≡ some (r, t))
        × Ready d t
        × (t.queue ≡ s.queue)
  unfolding fifo_byte shift_fifo
  fifo_byte-Ready r d s a = (
    record s { port = shift_fifo s.port },
    ground (arith, a.one, a.first),
    ground (
      arith,
      a.pads,
      a.resting,
      a.no_next,
      a.idle,
      a.room,
      a.enabled,
      a.level,
      a.no_rx,
      a.slot,
      a.one,
      a.places,
      a.no_event,
      a.device,
      length-shifted 8 1 s.port.entries,
    ),
    refl,
  )

  read8-Ready :
      (r : ℕ) (d : line.State) (s : Bench line alarm)
      → Going r d s
      → s.port.event_id ≢ invalid_event
      → (t : Bench line alarm) × (read8 line alarm 0 s ≡ some (r, t))
        × Ready d t
        × (t.queue ≡ alarm.deschedule s.port.event_id s.queue)
  unfolding read8 finish_now
  read8-Ready r d s g e =
      let stopped = record s { queue = alarm.deschedule s.port.event_id s.queue } in
      let (t, completes, arrived, same) = transfer_complete-Arrived r d stopped (going g) in
      let (u, answers, ready, kept) = fifo_byte-Ready r d t arrived in
      (u, ground (arith, e, completes, answers), ready, kept ∙ same)
    where
      going :
          Going r d s → Going r d (record s { queue = alarm.deschedule s.port.event_id s.queue })
      going g = ground (
        arith, g.pads, g.no_next, g.room, g.enabled, g.level, g.no_rx, g.slot, g.empty, g.answer,
        g.places, g.device,
      )

  sending-Going :
      (x r : ℕ) (has_data ack : Bool) (d after : line.State) (s : Bench line alarm)
      → Ready d s
      → Going r after (sending x r has_data ack after s)
  sending-Going x r has_data ack d after s v =
      ground (arith, v.pads, v.no_next, v.enabled, v.level, v.no_rx, v.slot, v.empty, v.places)

  pub exchange-Ready :
      (rooms : Rooms alarm) (n x r : ℕ) (has_data ack : Bool) (d after : line.State)
      (s : Bench line alarm)
      → rooms.HasRoom (suc n) s.queue
      → Ready d s
      → x < 2 ^ 8
      → exchange_with line alarm x d ≡ some (r, has_data, ack, after)
      → (t : Bench line alarm) × (exchange x s ≡ some (r, t))
        × Ready after t
        × rooms.HasRoom n t.queue
  unfolding exchange
  exchange-Ready rooms n x r has_data ack d after s room v h e =
      let written = write_starts x r has_data ack d after s v h e in
      let (t, reads, ready, same) =
        read8-Ready r after (sending x r has_data ack after s)
          (sending-Going x r has_data ack d after s v)
          (rooms.scheduled n (transfer_time s.port) s.queue room) in
      (
        t,
        rw (written, reads) refl,
        ready,
        subst (rooms.HasRoom n) (sym same) (rooms.taken_back n (transfer_time s.port) s.queue room),
      )
