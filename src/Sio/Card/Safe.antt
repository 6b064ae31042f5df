-- ===== src/Sio/Card/Safe.antt =====
-- A memory card stays within its arrays in a write too, and so at every byte.
use psx.Base.{
  ℕ, suc, ◌+◌, ◌*◌, ◌≤◌, ◌≡◌, ◌≢◌, refl, true, false, some, List, leb, ◌==◌, length, arith,
  length-set, length-append, length-take, length-drop, if_either, if_cases, not, ◌++◌, set, take,
  drop,
}
use psx.Base.Words.{add32}
use psx.Sio.Card.State.{
  cmd_ack, card_id, CurrState, WriteStatus, Card, sector_size, slice, splice, end_byte, checksum,
  compute_temp_sector_checksum,
}
use psx.Sio.Card.Send.{
  send, send_in, idle_process_byte, receive_sector, write_process_byte, write_answer, write_advance,
  write_ends, receive_data, receive_checksum, finish_write, reset,
}
use psx.Sio.Card.Run.{drop-get_elem?}
use psx.Sio.Card.Valid.{
  IsValid, Gives, Gives-byte, receive_sector-IsValid, sector_slice, idle-IsValid, read-IsValid,
}

write_advance-IsValid :
    (c : Card) → IsValid c → c.state ≡ CurrState.write → IsValid (write_advance c)
unfolding write_advance write_ends
write_advance-IsValid c v s = ground arith

length-splice :
    (start : ℕ) (part arr : List ℕ)
    → start + length part ≤ length arr
    → (r : List ℕ) × (splice start part arr ≡ some r) × (length r ≡ length arr)
unfolding splice
length-splice start part arr h =
    let le : leb (start + length part) (length arr) ≡ true = ground arith in
    (
      take start arr ++ (part ++ drop (start + length part) arr),
      rw le refl,
      omega (
        arith,
        length-append (take start arr) (part ++ drop (start + length part) arr),
        length-append part (drop (start + length part) arr),
        length-take start arr,
        length-drop (start + length part) arr,
      ),
    )

temp_slice :
    (c : Card)
    → IsValid c
    → (bytes : List ℕ) × (slice 0 sector_size c.temp_sector ≡ some bytes) × (length bytes ≡ 128)
unfolding slice
temp_slice c v =
    let le : leb 128 (length c.temp_sector) ≡ true = ground (arith, v.temp) in
    (take 128 c.temp_sector, rw le refl, omega (arith, length-take 128 c.temp_sector, v.temp))

receive_checksum-Gives :
    (value : ℕ) (c : Card)
    → IsValid c
    → c.state ≡ CurrState.write
    → Gives CurrState.write (receive_checksum value c)
unfolding receive_checksum compute_temp_sector_checksum
receive_checksum-Gives value c v s =
    let (bytes, e, _) = temp_slice c v in
    if_either (Gives CurrState.write) c.is_sector_valid
      (
        (0, record c { is_checksum_valid = checksum c.selected_sector bytes == value }),
        rw e refl,
        ground arith,
        s,
      )
      ((0, record c { is_checksum_valid = false }), refl, ground arith, s)

finish_write-Gives :
    (c : Card) → IsValid c → c.state ≡ CurrState.write → Gives CurrState.write (finish_write c)
unfolding finish_write
finish_write-Gives c v s =
    let (bytes, e, n) = temp_slice c v in
    if_cases (Gives CurrState.write) (not c.is_sector_valid) (λ _. (_, refl, v, s))
      λ valid.
        if_either (Gives CurrState.write) (not c.is_checksum_valid) (_, refl, v, s)
          (let (buffer, f, m) =
              length-splice (c.selected_sector * sector_size) bytes c.mc_buffer
                (omega (arith, n, sector_slice c v (ground arith))) in
            (
              (
                end_byte,
                record c { mc_buffer = buffer; update_seq_number = add32 c.update_seq_number 1 },
              ),
              rw (e) (rw f refl),
              ground (arith, m),
              s,
            ))

receive_data-Gives :
    (value : ℕ) (c : Card)
    → IsValid c
    → c.state ≡ CurrState.write
    → c.wr_status ≡ WriteStatus.recv_data
    → Gives CurrState.write (receive_data value c)
unfolding receive_data
receive_data-Gives value c v s e =
    let room : leb (suc c.cmd_step) (length c.temp_sector) ≡ true =
      ground (arith, v.temp, v.write_steps s) in
    (
      (0, record c { temp_sector = set c.temp_sector c.cmd_step value }),
      rw room refl,
      ground (arith, length-set c.temp_sector c.cmd_step value),
      s,
    )

write_answer-Gives :
    (status : WriteStatus) (value : ℕ) (c : Card)
    → IsValid c
    → c.state ≡ CurrState.write
    → c.wr_status ≡ status
    → Gives CurrState.write (write_answer status value c)
unfolding write_answer receive_sector
write_answer-Gives WriteStatus.id value c v s e =
    let (b, at_step, _) = drop-get_elem? card_id c.cmd_step (ground (arith, v.write_steps s)) in
    Gives-byte c _ b v s at_step
write_answer-Gives WriteStatus.recv_sector value c v s e =
    (_, refl, receive_sector-IsValid c value v (λ r. cc), s)
write_answer-Gives WriteStatus.recv_data value c v s e = receive_data-Gives value c v s e
write_answer-Gives WriteStatus.recv_checksum value c v s e = receive_checksum-Gives value c v s
write_answer-Gives WriteStatus.send_ack value c v s e =
    let (b, at_step, _) = drop-get_elem? cmd_ack c.cmd_step (ground (arith, v.write_steps s)) in
    Gives-byte c _ b v s at_step
write_answer-Gives WriteStatus.send_end_byte value c v s e = finish_write-Gives c v s

write-IsValid :
    (c : Card) (value : ℕ)
    → IsValid c
    → c.state ≡ CurrState.write
    → (r : ℕ × Card) × (write_process_byte value c ≡ some r) × IsValid (r.1)
unfolding write_process_byte
write-IsValid c value v s =
    let (r, e, w, t) = write_answer-Gives c.wr_status value c v s refl in
    ((r.0, write_advance (r.1)), rw e refl, write_advance-IsValid (r.1) w t)

reset-IsValid : (c : Card) → IsValid c → IsValid (reset c)
unfolding reset
reset-IsValid c v = ground (arith, v.size, v.temp)

-- A card that holds 128K and is valid answers every byte that the host sends it, with no access past its
-- arrays, and is valid then, as it is after a reset; but for the command 0x53, which the code has not.
pub send-IsValid :
    (c : Card) (value : ℕ)
    → IsValid c
    → (c.state ≡ CurrState.idle → value ≢ 0x53)
    → ((r : ℕ × Card) × (send value c ≡ some r) × IsValid (r.1)) × IsValid (reset c)
unfolding send send_in idle_process_byte
send-IsValid c value v h = (by_state c.state refl, reset-IsValid c v)
  where
    by_state :
        (state : CurrState)
        → c.state ≡ state
        → (r : ℕ × Card) × (send_in state value c ≡ some r) × IsValid (r.1)
    by_state CurrState.idle e = idle-IsValid c value v e (h e)
    by_state CurrState.getid e = absurd (v.known e)
    by_state CurrState.read e = read-IsValid c value v e
    by_state CurrState.write e = write-IsValid c value v e
