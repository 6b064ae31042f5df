-- ===== src/Sio/Card/Valid.antt =====
-- A memory card stays within its arrays, whatever the host sends.
use psx.Base.{
  ℕ, ◌+◌, ◌*◌, ◌≤◌, ◌<◌, ◌≡◌, ◌≢◌, refl, ap, Bool, true, false, some, leb, length, arith, Option,
  take, drop,
}
use psx.Cpu.State.{◌>>=◌}
use psx.Sio.Card.State.{
  cmd_ack, card_id, CurrState, ReadStatus, Card, read_max_steps, write_max_steps, max_sector,
  memcard_size, sector_size, slice, checksum, compute_sector_checksum,
}
use psx.Sio.Card.Send.{
  idle_process_byte, read_process_byte, read_answer, read_advance, read_ends, receive_sector,
}
use psx.Sio.Card.Run.{drop-get_elem?}

-- The statuses of a read at which the sector is known to be there.
abbrev is_sending : ReadStatus → Bool
is_sending ReadStatus.send_sector = true
is_sending ReadStatus.send_checksum = true
is_sending ReadStatus.send_end_byte = true
is_sending _ = false

-- What holds of a loaded card between two bytes.
pub record IsValid (c : Card) : Type 0 where
  pub size : length c.mc_buffer ≡ memcard_size
  pub temp : length c.temp_sector ≡ 128
  pub known : c.state ≢ CurrState.getid
  pub in_range : c.is_sector_valid ≡ true → c.selected_sector ≤ max_sector
  pub read_steps :
      c.state ≡ CurrState.read
      → (c.cmd_max_steps ≡ read_max_steps c.rd_status) × (c.cmd_step < c.cmd_max_steps)
  pub read_sector :
      c.state ≡ CurrState.read → is_sending c.rd_status ≡ true → c.is_sector_valid ≡ true
  pub write_steps :
      c.state ≡ CurrState.write
      → (c.cmd_max_steps ≡ write_max_steps c.wr_status) × (c.cmd_step < c.cmd_max_steps)

pub idle-IsValid :
    (c : Card) (value : ℕ)
    → IsValid c
    → c.state ≡ CurrState.idle
    → value ≢ 0x53
    → (r : ℕ × Card) × (idle_process_byte value c ≡ some r) × IsValid (r.1)
unfolding idle_process_byte
idle-IsValid c value v s h = (_, refl, ground (arith, v.size, v.temp, v.known, v.in_range))

read_advance-IsValid : (c : Card) → IsValid c → c.state ≡ CurrState.read → IsValid (read_advance c)
unfolding read_advance read_ends
read_advance-IsValid c v s = ground arith

-- What the switch of a transfer gives.
abbrev pub Gives : CurrState → Option (ℕ × Card) → Type 0
Gives state o = (r : ℕ × Card) × (o ≡ some r) × IsValid (r.1) × (r.1.state ≡ state)

pub Gives-byte :
    (c : Card) (o : Option ℕ) (b : ℕ) {state : CurrState}
    → IsValid c
    → c.state ≡ state
    → o ≡ some b
    → Gives state (o >>= λ x. some (x, c))
Gives-byte c o b v s e = ((b, c), ap (λ p. p >>= λ x. some (x, c)) e, v, s)

pub receive_sector-IsValid :
    (c : Card) (value : ℕ)
    → IsValid c
    → (c.state ≡ CurrState.read → c.rd_status ≡ ReadStatus.recv_sector)
    → IsValid (receive_sector value c)
unfolding receive_sector
receive_sector-IsValid c value v s = ground arith

-- The sector of a valid card lies in its buffer.
pub sector_slice :
    (c : Card)
    → IsValid c
    → c.is_sector_valid ≡ true
    → c.selected_sector * sector_size + sector_size ≤ length c.mc_buffer
sector_slice c v e = omega (arith, v.size, v.in_range e)

sum_exists :
    (c : Card)
    → IsValid c
    → c.is_sector_valid ≡ true
    → (b : ℕ) × (compute_sector_checksum c.selected_sector c ≡ some b)
unfolding compute_sector_checksum slice
sum_exists c v e =
    let le : leb (c.selected_sector * sector_size + sector_size) (length c.mc_buffer) ≡ true =
      ground (arith, sector_slice c v e) in
    (
      checksum c.selected_sector
          (take sector_size (drop (c.selected_sector * sector_size) c.mc_buffer)),
      rw le refl,
    )

read_answer-Gives :
    (status : ReadStatus) (value : ℕ) (c : Card)
    → IsValid c
    → c.state ≡ CurrState.read
    → c.rd_status ≡ status
    → Gives CurrState.read (read_answer status value c)
unfolding read_answer receive_sector
read_answer-Gives ReadStatus.id value c v s e =
    let (b, at_step, _) = drop-get_elem? card_id c.cmd_step (ground (arith, v.read_steps s)) in
    Gives-byte c _ b v s at_step
read_answer-Gives ReadStatus.recv_sector value c v s e =
    (_, refl, receive_sector-IsValid c value v (λ _. e), s)
read_answer-Gives ReadStatus.send_ack value c v s e =
    let (b, at_step, _) = drop-get_elem? cmd_ack c.cmd_step (ground (arith, v.read_steps s)) in
    Gives-byte c _ b v s at_step
read_answer-Gives ReadStatus.send_confirm value c v s e = (_, refl, v, s)
read_answer-Gives ReadStatus.send_sector value c v s e =
    let valid : c.is_sector_valid ≡ true = v.read_sector s (ap is_sending e) in
    let room = sector_slice c v valid in
    let (b, at_step, _) =
      drop-get_elem? c.mc_buffer (c.selected_sector * sector_size + c.cmd_step)
        (ground (arith, v.read_steps s)) in
    Gives-byte c _ b v s at_step
read_answer-Gives ReadStatus.send_checksum value c v s e =
    let (b, sum) = sum_exists c v (v.read_sector s (ap is_sending e)) in Gives-byte c _ b v s sum
read_answer-Gives ReadStatus.send_end_byte value c v s e = (_, refl, v, s)

pub read-IsValid :
    (c : Card) (value : ℕ)
    → IsValid c
    → c.state ≡ CurrState.read
    → (r : ℕ × Card) × (read_process_byte value c ≡ some r) × IsValid (r.1)
unfolding read_process_byte
read-IsValid c value v s =
    let (r, e, w, t) = read_answer-Gives c.rd_status value c v s refl in
    ((r.0, read_advance (r.1)), rw e refl, read_advance-IsValid (r.1) w t)
