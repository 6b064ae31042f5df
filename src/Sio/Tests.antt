-- ===== src/Sio/Tests.antt =====
-- Runs of the serial port and of a memory card, and the theorems at concrete inputs.
use psx.Base.{
  ℕ, ◌+◌, ◌*◌, ◌^◌, ◌≡◌, refl, true, false, none, some, List, [], ◌∷◌, ◌++◌, length,
  length-replicate, replicate, arith, ◌==◌, leb,
}
use psx.Cpu.Samples.{plain_status}
use psx.Sio.Pad.State.{ControllerMode, standard_controller, set_mode}
use psx.Sio.Pad.Poll.{AtRest, PadSlot, pad_line, report, read_pad_over_port}
use psx.Sio.Line.{Line, Alarm, Rooms}
use psx.Sio.Room.{scheduler_alarm, scheduler_rooms}
use psx.Scheduler.State.{Scheduler}
use psx.Scheduler.Samples.{sorted_heap, three_events}
use psx.Sio.Driver.{SelectedDevice, driver_send, driver_ack, select_device}
use psx.Cpu.State.{◌>>=◌}
use psx.Sio.Card.State.{
  CurrState, ReadStatus, WriteStatus, Card, memcard_size, max_sector, checksum,
}
use psx.Sio.Card.Send.{send, reset}
use psx.Sio.Card.Run.{send_all}
use psx.Sio.Card.Read.{read_reply, sector_bytes}
use psx.Sio.Card.Store.{verdict, stored, write_sector}
use psx.Sio.Card.Valid.{IsValid}
use psx.Sio.Card.Safe.{send-IsValid}
use psx.Sio.Port.State.{Port, sio_port, transfer_time}
use psx.Sio.Port.Registers.{
  write16, write_control, change_slot, check_dtr, acknowledge, reset_bit, write_byte, take_byte,
}
use psx.Sio.Port.Transfer.{Bench, exchange_with, handle_pending, can_send, start_transfer, ask_slot}
use psx.Sio.Port.Exchange.{Ready}
use psx.Sio.Port.Bounds
use psx.Sio.Port.Reach.{Reach, Step, new_port-Reach-IsValid}
use psx.Sio.Port.Repeat.{Waiting, complete_times, transfer_repeats}
use psx.Sio.Session.{
  Talks, exchange_all, port_carries, card_plug, read_request, read_over_port, CardSlot, slot_line,
}

-- A card whose bytes are all 0.
abbrev blank_card : Card
blank_card = record {
  state = CurrState.idle;
  flag = 0x08;
  rd_status = ReadStatus.id;
  wr_status = WriteStatus.id;
  cmd_step = 0;
  cmd_max_steps = 0;
  selected_sector = 0;
  is_sector_valid = false;
  is_checksum_valid = false;
  mc_buffer = replicate memcard_size 0;
  temp_sector = replicate 128 0;
  update_seq_number = 0;
}

blank_size : length blank_card.mc_buffer ≡ memcard_size
blank_size = length-replicate {A = ℕ} memcard_size 0

write_sector_example :
    let valid = leb (3 * 2 ^ 8 + 9) max_sector in
    let ok = checksum (3 * 2 ^ 8 + 9) (replicate 128 1) == 10 in
    (after : Card) × (send_all
        (0x57 ∷ 0 ∷ 0 ∷ 3 ∷ 9 ∷ (replicate 128 1 ++ 10 ∷ 0 ∷ 0 ∷ 0 ∷ []))
        blank_card
      ≡ some (
        0x08 ∷ 0x5a ∷ 0x5d ∷ 0 ∷ 0 ∷ (replicate 128 0 ++ 0 ∷ 0x5c ∷ 0x5d ∷ verdict valid ok ∷ []),
        after,
      ))
    × (after.state ≡ CurrState.idle)
    × (after.mc_buffer ≡ stored valid ok (3 * 2 ^ 8 + 9) (replicate 128 1) blank_card.mc_buffer)
write_sector_example =
    write_sector blank_card 3 9 0 0 0 0 0 10 (replicate 128 1) refl blank_size refl (omega arith)
      (omega arith) refl

blank_card-IsValid : IsValid blank_card
blank_card-IsValid = ground (arith, blank_size)

send-IsValid_example :
    ((r : ℕ × Card) × (send 0x52 blank_card ≡ some r) × IsValid (r.1)) × IsValid (reset blank_card)
send-IsValid_example = send-IsValid blank_card 0x52 blank_card-IsValid (λ _. omega arith)

-- A device that sends each byte back.
abbrev echo : Line
echo = record {
  State = List ℕ;
  send = λ x d. some (x, true, x ∷ d);
  ack = λ d. (true, d);
  unselect = λ d. d;
}

-- The scheduler with three events, and the port's events in it.
abbrev events : Scheduler
events = record { curr_timestamp = 0; last_id = 8; events = three_events }

abbrev counter : Alarm
counter = scheduler_alarm sorted_heap 4096 1

abbrev rooms : Rooms counter
rooms = scheduler_rooms sorted_heap 4096 1

-- The transmitter enabled, and the signal to the device up.
abbrev pad_port : Port
unfolding sio_port
pad_port = record (sio_port 0) { control = 3; baud_rate = 0x88; clocks_per_bit = 0x88 }

abbrev echo_bench : Bench echo counter
echo_bench = record {
  port = pad_port;
  port1 = some [];
  port2 = none;
  status = plain_status;
  queue = events;
}

port_carries_example :
    (t : Bench echo counter) × (exchange_all echo counter (1 ∷ 2 ∷ []) echo_bench
      ≡ some (1 ∷ 2 ∷ [], t))
    × Ready echo counter (2 ∷ 1 ∷ []) t
unfolding exchange_with pad_port
port_carries_example =
    port_carries echo counter rooms (1 ∷ 2 ∷ []) (1 ∷ 2 ∷ []) [] (2 ∷ 1 ∷ []) echo_bench
      (record { places = omega arith; ids = omega arith })
      (record {
        pads = refl;
        resting = refl;
        no_next = refl;
        idle = refl;
        room = refl;
        enabled = refl;
        level = refl;
        no_rx = refl;
        slot = refl;
        empty = refl;
        places = refl;
        no_event = refl;
        device = refl;
      })
      (omega arith) (Talks.more refl (Talks.more refl Talks.done))

-- The port as it is made, after the transmitter is switched on, and after a byte is on its way.
abbrev new_bench : Bench echo counter
new_bench = record echo_bench { port = sio_port 0 }

abbrev enabled_bench : Bench echo counter
enabled_bench = record echo_bench { port = record (sio_port 0) { control = 3 } }

abbrev sending_bench : Bench echo counter
sending_bench = record echo_bench {
  port = record (sio_port 0) {
    control = 3;
    pending_transfer = true;
    old_tx = 9;
    tx_enable_latch = true;
    tx_idle = false;
    new_rx_data = 9;
    has_data = true;
    has_ack = true;
    event_id = (counter.schedule 0 events).0;
  };
  port1 = some (9 ∷ []);
  queue = (counter.schedule 0 events).1;
}

new_port-Reach-IsValid_example : Bounds.IsValid sending_bench.port
unfolding sio_port write16 write_control change_slot check_dtr acknowledge reset_bit write_byte
    take_byte handle_pending can_send start_transfer ask_slot exchange_with transfer_time
new_port-Reach-IsValid_example =
    new_port-Reach-IsValid echo counter 0 new_bench sending_bench refl
      (Reach.next (Reach.next Reach.here (Step.writes16 0xa 3 refl)) (Step.writes16 0 9 refl))

abbrev card_slot : CardSlot card_plug counter
card_slot = record { selected = SelectedDevice.nothing; controller = blank_card; card = blank_card }

abbrev card_bench : Bench (slot_line card_plug counter) counter
card_bench = record {
  port = pad_port;
  port1 = some card_slot;
  port2 = none;
  status = plain_status;
  queue = events;
}

read_over_port_example :
    (after : CardSlot card_plug counter) × (t : Bench (slot_line card_plug counter) counter)
    × (exchange_all
          (slot_line card_plug counter)
          counter
          (read_request card_plug counter 1 5)
          card_bench
        ≡ some (0xff ∷ read_reply 0x08 1 5 (sector_bytes (1 * 2 ^ 8 + 5) blank_card), t))
    × Ready (slot_line card_plug counter) counter after t
    × (after.card.mc_buffer ≡ blank_card.mc_buffer)
unfolding pad_port
read_over_port_example =
    read_over_port card_plug counter rooms 1 5 card_slot card_bench
      (record { places = omega arith; ids = omega arith })
      (record {
        pads = refl;
        resting = refl;
        no_next = refl;
        idle = refl;
        room = refl;
        enabled = refl;
        level = refl;
        no_rx = refl;
        slot = refl;
        empty = refl;
        places = refl;
        no_event = refl;
        device = refl;
      })
      refl refl blank_size (omega arith) (omega arith) (omega arith)

abbrev pad_slot : PadSlot card_plug counter
pad_slot = record {
  selected = SelectedDevice.nothing;
  controller = set_mode true standard_controller;
  card = blank_card;
}

abbrev stick_bench : Bench (pad_line card_plug counter) counter
stick_bench = record {
  port = pad_port;
  port1 = some pad_slot;
  port2 = none;
  status = plain_status;
  queue = events;
}

-- An analog controller with no button pressed.
read_pad_over_port_example :
    (after : PadSlot card_plug counter) × (t : Bench (pad_line card_plug counter) counter)
    × (exchange_all (pad_line card_plug counter) counter (0x01 ∷ 0x42 ∷ replicate 7 0) stick_bench
        ≡ some (0xff ∷ report ControllerMode.analog 0xffff, t))
    × Ready (pad_line card_plug counter) counter after t
    × (after.selected ≡ SelectedDevice.nothing)
    × AtRest after.controller
    × (after.controller.btn_status ≡ 0xffff)
    × (after.controller.mode ≡ ControllerMode.analog)
unfolding pad_port standard_controller set_mode
read_pad_over_port_example =
    read_pad_over_port card_plug counter rooms (replicate 7 0) pad_slot stick_bench
      (record { places = omega arith; ids = omega arith })
      (record {
        pads = refl;
        resting = refl;
        no_next = refl;
        idle = refl;
        room = refl;
        enabled = refl;
        level = refl;
        no_rx = refl;
        slot = refl;
        empty = refl;
        places = refl;
        no_event = refl;
        device = refl;
      })
      refl
      (record {
        resting = refl;
        valid = record { capacity = refl; fits = omega arith; word = omega arith };
        silent = refl;
      })
      (omega arith) refl

-- The port of the pad with a byte on its way, which a write makes.
abbrev busy_bench : Bench (pad_line card_plug counter) counter
busy_bench = record stick_bench {
  port = record pad_port {
    pending_transfer = true;
    old_tx = 0;
    tx_enable_latch = true;
    tx_idle = false;
    new_rx_data = 0xff;
    has_data = false;
    has_ack = false;
    event_id = (counter.schedule (transfer_time pad_port) events).0;
  };
  queue = (counter.schedule (transfer_time pad_port) events).1;
}

write16-busy_bench : write16 (pad_line card_plug counter) counter 0 0 stick_bench ≡ some busy_bench
unfolding pad_port write16 write_byte take_byte handle_pending can_send start_transfer ask_slot
    exchange_with transfer_time driver_send driver_ack select_device standard_controller set_mode
write16-busy_bench = refl

transfer_repeats_example :
    (t : Bench (pad_line card_plug counter) counter) × ((write16
          (pad_line card_plug counter)
          counter
          0
          3
          busy_bench
        >>= complete_times (pad_line card_plug counter) counter 3)
      ≡ some t)
    × Waiting (pad_line card_plug counter) counter 3 pad_slot t
unfolding pad_port exchange_with driver_send driver_ack select_device standard_controller set_mode
transfer_repeats_example =
    transfer_repeats (pad_line card_plug counter) counter 3 3 pad_slot pad_slot
      (0xff ∷ 0xff ∷ 0xff ∷ []) busy_bench
      (record {
        pending = refl;
        busy = refl;
        room = refl;
        enabled = refl;
        level = refl;
        no_rx = refl;
        slot = refl;
        device = refl;
      })
      (omega arith) (Talks.more refl (Talks.more refl (Talks.more refl Talks.done)))
