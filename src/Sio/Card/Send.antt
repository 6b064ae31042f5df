-- ===== src/Sio/Card/Send.antt =====
-- The memory card's protocol: psxemu/source/psxemu/OfficialMemcard.cpp, but for the file that it is loaded
-- from. An access past an array, and the command that stops at `__debugbreak`, are `none`.
use psx.Base.{
  ℕ, suc, ◌+◌, ◌*◌, ◌/◌, ◌%◌, ◌^◌, Bool, true, false, not, ◌||◌, Option, none, some, List, leb,
  ◌==◌, if◌then◌else◌, length, get_elem?, set,
}
use psx.Base.Words.{add32}
use psx.Cpu.State.{◌>>=◌}
use psx.Sio.Card.State.{
  CurrState, ReadStatus, WriteStatus, Card, card_id, cmd_ack, read_max_steps, write_max_steps,
  max_sector, sector_size, end_byte, bad_checksum, bad_sector, next_read, next_write, slice, splice,
  compute_sector_checksum, compute_temp_sector_checksum,
}

unfoldable pub idle_process_byte : ℕ → Card → Option (ℕ × Card)
idle_process_byte value c =
    let started = record c { cmd_step = 0; cmd_max_steps = 2 } in
    some (
      c.flag,
      if value == 0x53
          then record started { state = CurrState.getid }
          else if value == 0x52
          then record started { state = CurrState.read; rd_status = ReadStatus.id }
          else if value == 0x57
          then record started { state = CurrState.write; wr_status = WriteStatus.id }
          else started,
    )

-- A byte of the sector number arrives.
unfoldable pub receive_sector : ℕ → Card → Card
receive_sector value c =
    let sector = (c.selected_sector * 2 ^ 8 + value) % 2 ^ 16 in
    record c { selected_sector = sector; is_sector_valid = leb sector max_sector }

unfoldable pub confirm_byte : Card → ℕ
confirm_byte c =
    if not c.is_sector_valid
    then 0xff
    else if c.cmd_step == 0
    then c.selected_sector / 2 ^ 8 % 2 ^ 8
    else c.selected_sector % 2 ^ 8

-- The switch of `READ_ProcessByte`.
unfoldable pub read_answer : ReadStatus → ℕ → Card → Option (ℕ × Card)
read_answer ReadStatus.id value c = get_elem? card_id c.cmd_step >>= λ b. some (b, c)
read_answer ReadStatus.recv_sector value c = some (0, receive_sector value c)
read_answer ReadStatus.send_ack value c = get_elem? cmd_ack c.cmd_step >>= λ b. some (b, c)
read_answer ReadStatus.send_confirm value c = some (confirm_byte c, c)
read_answer ReadStatus.send_sector value c =
    get_elem? c.mc_buffer (c.selected_sector * sector_size + c.cmd_step) >>= λ b. some (b, c)
read_answer ReadStatus.send_checksum value c =
    compute_sector_checksum c.selected_sector c >>= λ b. some (b, c)
read_answer ReadStatus.send_end_byte value c = some (end_byte, c)

-- The transfer ends after the last status, and after the confirmation of a sector that is not there.
unfoldable pub read_ends : ReadStatus → Bool → Bool
read_ends ReadStatus.send_end_byte valid = true
read_ends ReadStatus.send_confirm valid = not valid
read_ends _ valid = false

unfoldable pub read_advance : Card → Card
read_advance c =
    let step = add32 c.cmd_step 1 in
    let next = next_read c.rd_status in
    if step == c.cmd_max_steps
    then (if read_ends c.rd_status c.is_sector_valid
        then record c { cmd_step = 0; state = CurrState.idle; selected_sector = 0 }
        else record c { cmd_step = 0; rd_status = next; cmd_max_steps = read_max_steps next })
    else record c { cmd_step = step }

unfoldable pub read_process_byte : ℕ → Card → Option (ℕ × Card)
read_process_byte value c = read_answer c.rd_status value c >>= λ r. some (r.0, read_advance (r.1))

-- The last byte of a write: the sector is written where it and its checksum are right.
unfoldable pub finish_write : Card → Option (ℕ × Card)
finish_write c =
    if not c.is_sector_valid
    then some (bad_sector, c)
    else if not c.is_checksum_valid
    then some (bad_checksum, c)
    else slice 0 sector_size c.temp_sector >>= λ bytes.
        splice (c.selected_sector * sector_size) bytes c.mc_buffer >>= λ buffer.
        some (
          end_byte,
          record c { mc_buffer = buffer; update_seq_number = add32 c.update_seq_number 1 },
        )

-- The checksum arrives.
unfoldable pub receive_checksum : ℕ → Card → Option (ℕ × Card)
receive_checksum value c =
    if c.is_sector_valid
    then (compute_temp_sector_checksum c.selected_sector c >>= λ sum.
        some (0, record c { is_checksum_valid = sum == value }))
    else some (0, record c { is_checksum_valid = false })

-- `m_temp_sector[m_cmd_step] = value`.
unfoldable pub receive_data : ℕ → Card → Option (ℕ × Card)
receive_data value c =
    if leb (suc c.cmd_step) (length c.temp_sector)
    then some (0, record c { temp_sector = set c.temp_sector c.cmd_step value })
    else none

-- The switch of `WRITE_ProcessByte`.
unfoldable pub write_answer : WriteStatus → ℕ → Card → Option (ℕ × Card)
write_answer WriteStatus.id value c = get_elem? card_id c.cmd_step >>= λ b. some (b, c)
write_answer WriteStatus.recv_sector value c = some (0, receive_sector value c)
write_answer WriteStatus.recv_data value c = receive_data value c
write_answer WriteStatus.recv_checksum value c = receive_checksum value c
write_answer WriteStatus.send_ack value c = get_elem? cmd_ack c.cmd_step >>= λ b. some (b, c)
write_answer WriteStatus.send_end_byte value c = finish_write c

unfoldable pub write_ends : WriteStatus → Bool
write_ends WriteStatus.send_end_byte = true
write_ends _ = false

unfoldable pub write_advance : Card → Card
write_advance c =
    let step = add32 c.cmd_step 1 in
    let next = next_write c.wr_status in
    if step == c.cmd_max_steps
    then (if write_ends c.wr_status
        then record c { cmd_step = 0; state = CurrState.idle; selected_sector = 0; flag = 0 }
        else record c { cmd_step = 0; wr_status = next; cmd_max_steps = write_max_steps next })
    else record c { cmd_step = step }

unfoldable pub write_process_byte : ℕ → Card → Option (ℕ × Card)
write_process_byte value c =
    write_answer c.wr_status value c >>= λ r. some (r.0, write_advance (r.1))

unfoldable pub send_in : CurrState → ℕ → Card → Option (ℕ × Card)
send_in CurrState.idle value c = idle_process_byte value c
send_in CurrState.getid value c = none
send_in CurrState.read value c = read_process_byte value c
send_in CurrState.write value c = write_process_byte value c

-- `Send`.
unfoldable pub send : ℕ → Card → Option (ℕ × Card)
send value c = send_in c.state value c

unfoldable pub reset : Card → Card
reset c = record c {
  state = CurrState.idle;
  rd_status = ReadStatus.id;
  wr_status = WriteStatus.id;
  cmd_step = 0;
  selected_sector = 0;
  is_sector_valid = false;
  is_checksum_valid = false;
}

unfoldable pub read_frame : ℕ → Card → Option (List ℕ)
read_frame frame_num c =
    if leb frame_num max_sector
    then slice (frame_num * sector_size) sector_size c.mc_buffer
    else none

-- `WriteFrame`, which answers whether it wrote.
unfoldable pub write_frame : ℕ → List ℕ → Card → Option (Bool × Card)
write_frame frame_num bytes c =
    if not (length bytes == sector_size) || not (leb frame_num max_sector)
    then some (false, c)
    else splice (frame_num * sector_size) bytes c.mc_buffer >>= λ buffer.
        some
          (true, record c { mc_buffer = buffer; update_seq_number = add32 c.update_seq_number 1 })
