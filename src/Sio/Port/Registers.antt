-- ===== src/Sio/Port/Registers.antt =====
-- The registers of the serial port: the reads and writes of psxemu/source/psxemu/SIOPort.cpp. The four reads of the
-- data register that make up a word are made from the low byte on; the source leaves the order open.
use psx.Base.{
  ℕ, ◌+◌, ◌-◌, ◌*◌, ◌/◌, ◌%◌, ◌^◌, Bool, true, false, not, ◌&&◌, Option, none, some, ltb, leb, ◌==◌,
  if◌then◌else◌, get_elem?,
}
use psx.Base.Words.{bit}
use psx.Cpu.State.{◌>>=◌}
use psx.Scheduler.State.{invalid_event}
use psx.Containers.Queue.{shifted}
use psx.Sio.Line.{Line, Alarm}
use psx.Sio.Port.State.{
  Port, tx_enable, dtr_output_level, port_select, clear_bit, stat_reg, reload_factor,
  compute_clocks_per_bit,
}
use psx.Sio.Port.Transfer.{Bench, handle_pending, transfer_complete}

-- Whether an address lies in the `n` bytes from `start` on.
abbrev pub within : ℕ → ℕ → ℕ → Bool
within start n address = leb start address && ltb address (start + n)

-- The oldest byte leaves the queue.
unfoldable pub shift_fifo : Port → Port
shift_fifo p = record p {
  entries = shifted 8 1 p.entries;
  num_bytes = p.num_bytes - 1;
  rx_not_empty = if p.num_bytes - 1 == 0 then false else p.rx_not_empty;
}

-- A write to the baud register.
unfoldable pub write_baud : ℕ → Port → Port
write_baud value p =
    compute_clocks_per_bit
      (record p { baud_rate = value; baud_counter = value * reload_factor p / 2 % 2 ^ 16 })

unfoldable pub write_mode : ℕ → Port → Port
write_mode value p =
    let low = value % 2 ^ 9 in
    compute_clocks_per_bit
      (record p { mode = if p.id == 0 then clear_bit 6 (clear_bit 7 low) else clear_bit 8 low })

-- Bit 4 clears the errors and the request, and bit 6 only itself.
unfoldable pub acknowledge : Port → Port
acknowledge p =
    if bit 4 p.control == 1
    then record p {
      control = clear_bit 4 p.control;
      rx_parity_err = false;
      rx_buffer_overrun = false;
      rx_bad_stop = false;
      int_req = false;
    }
    else p

unfoldable pub reset_bit : Port → Port
reset_bit p = record p {
  control = if bit 6 p.control == 1 then clear_bit 6 p.control else p.control;
}

-- A byte for the device waits, as the next one or the one after.
unfoldable pub take_byte : ℕ → Port → Port
take_byte value p =
    let latched = record p { tx_enable_latch = tx_enable p.control; tx_not_full = false } in
    if p.pending_transfer
    then record latched { new_transfer = true; tx_data = value % 2 ^ 8 }
    else record latched { pending_transfer = true; old_tx = value % 2 ^ 8 }

module _ (line : Line) (alarm : Alarm) where
  -- A transfer under way is completed before its event.
  unfoldable pub finish_now : Bench line alarm → Option (Bench line alarm)
  finish_now s =
      if s.port.event_id == invalid_event
      then some s
      else transfer_complete line alarm
          (record s { queue = alarm.deschedule s.port.event_id s.queue })

  unfoldable pub fifo_byte : ℕ → Bench line alarm → Option (ℕ × Bench line alarm)
  fifo_byte offset s =
      if leb s.port.num_bytes offset
      then some (0, s)
      else get_elem? s.port.entries offset >>= λ b.
          some (b, if offset == 0 then record s { port = shift_fifo s.port } else s)

  unfoldable pub read8 : ℕ → Bench line alarm → Option (ℕ × Bench line alarm)
  read8 address s = if within 0 4 address then (finish_now s >>= fifo_byte address) else none

  -- `SIO_STAT`: a baud rate of 0 stops the program at the division.
  unfoldable pub read_stat : Bench line alarm → Option (ℕ × Bench line alarm)
  read_stat s = finish_now s >>= λ t.
      let p = t.port in
      if p.baud_rate == 0
      then none
      else some (
        (stat_reg p + t.status.now % p.baud_rate * 2 ^ 11) % 2 ^ 32,
        record t { port = record p { dsr_input_level = not p.has_ack } },
      )

  unfoldable pub read16 : ℕ → Bench line alarm → Option (ℕ × Bench line alarm)
  read16 address s =
      if within 0 4 address
      then (if address == 2
          then none
          else read8 0 s >>= λ a. read8 0 (a.1) >>= λ b. some (a.0 + b.0 * 2 ^ 8, b.1))
      else if within 4 4 address
      then (read_stat s >>= λ r. some (r.0 / 2 ^ (8 * ((address - 4) / 2)) % 2 ^ 16, r.1))
      else if within 8 2 address
      then some (s.port.mode, s)
      else if within 0xa 2 address
      then some (s.port.control, s)
      else if within 0xe 2 address
      then some (s.port.baud_rate, s)
      else some (0, s)

  unfoldable pub read32 : ℕ → Bench line alarm → Option (ℕ × Bench line alarm)
  read32 address s =
      if within 0 4 address
      then (read8 0 s >>= λ a. read8 0 (a.1) >>= λ b. read8 0 (b.1) >>= λ c.
          read8 0 (c.1) >>= λ d. some (a.0 + b.0 * 2 ^ 8 + c.0 * 2 ^ 16 + d.0 * 2 ^ 24, d.1))
      else if within 4 4 address
      then read_stat s
      else if within 8 4 address
      then some (s.port.mode + s.port.control * 2 ^ 16, s)
      else if within 0xc 4 address
      then some (s.port.baud_rate * 2 ^ 16, s)
      else some (0, s)

  unfoldable pub unselect_some : Option (line.State) → Option (line.State)
  unselect_some none = none
  unselect_some (some d) = some (line.unselect d)

  unfoldable pub is_there : Option (line.State) → Bool
  is_there none = false
  is_there (some d) = true

  -- The slot is changed: that of before is unselected (the other, where that is not there), and the
  -- received bytes are dropped.
  unfoldable pub change_slot : ℕ → Bench line alarm → Bench line alarm
  change_slot old s =
      let empty = record (s.port) { num_bytes = 0; rx_not_empty = false } in
      if old == port_select s.port.control
      then s
      else if old == 0 && is_there s.port1
      then record s { port = empty; port1 = unselect_some s.port1 }
      else record s { port = empty; port2 = unselect_some s.port2 }

  unfoldable pub check_dtr : Bench line alarm → Bench line alarm
  check_dtr s =
      if dtr_output_level s.port.control
      then s
      else record s { port1 = unselect_some s.port1; port2 = unselect_some s.port2 }

  unfoldable pub write_control : ℕ → Bench line alarm → Option (Bench line alarm)
  write_control value s =
      let before = s.port.control in
      let written = record s { port = record (s.port) { control = value } } in
      let t = check_dtr (change_slot (port_select before) written) in
      (if not (tx_enable before) && tx_enable value then handle_pending line alarm t else some t)
      >>= λ u. some (record u { port = reset_bit (acknowledge u.port) })

  -- A byte to send, where there is room.
  unfoldable pub write_byte : ℕ → Bench line alarm → Option (Bench line alarm)
  write_byte value s =
      if s.port.tx_not_full
      then handle_pending line alarm (record s { port = take_byte value s.port })
      else some s

  unfoldable pub write16 : ℕ → ℕ → Bench line alarm → Option (Bench line alarm)
  write16 address value s =
      if within 0xe 2 address
      then some (record s { port = write_baud value s.port })
      else if within 4 4 address
      then some s
      else if within 0 4 address
      then write_byte value s
      else if within 8 2 address
      then some (record s { port = write_mode value s.port })
      else if within 0xa 2 address
      then write_control value s
      else some s

  unfoldable pub write32 : ℕ → ℕ → Bench line alarm → Option (Bench line alarm)
  write32 address value s = write16 address (value % 2 ^ 16) s

  -- The shift is by eight times the address, which an int has not room for from address 4 on: none.
  unfoldable pub write8 : ℕ → ℕ → Bench line alarm → Option (Bench line alarm)
  write8 address value s =
      let even = address - address % 2 in
      if ltb (8 * even) 32 then write16 even (value * 2 ^ (8 * even) % 2 ^ 16) s else none
