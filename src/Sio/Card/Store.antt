-- ===== src/Sio/Card/Store.antt =====
-- What a write to a memory card leaves in it.
use mathlib.Core.Path.{subst}
use psx.Base.{
  leb→le, ℕ, ◌+◌, ◌*◌, ◌^◌, ◌≤◌, ◌<◌, ◌≡◌, ◌∙◌, refl, ap, Bool, true, false, some, List, [], ◌∷◌,
  ◌++◌, leb, ◌==◌, length, take, drop, arith, replicate, take_all,
}
use psx.Base.Words.{add32}
use psx.Sio.Card.State.{
  CurrState, WriteStatus, Card, max_sector, memcard_size, sector_size, slice, splice, checksum,
  compute_temp_sector_checksum,
}
use psx.Sio.Card.Send.{
  send, send_in, write_process_byte, write_answer, write_advance, write_ends, receive_checksum,
  finish_write,
}
use psx.Sio.Card.Run.{Answers, done, more, Answers-append, Answers-send_all, send_all}
use psx.Sio.Card.Write.{writing, start_write, write_opening, write_bytes}

abbrev acknowledged : ℕ → Bool → Bool → List ℕ → Card → Card
acknowledged sector valid ok bytes c =
    writing WriteStatus.send_ack 0 sector valid bytes (record c { is_checksum_valid = ok })

whole_slice : (bytes : List ℕ) → length bytes ≡ 128 → slice 0 sector_size bytes ≡ some bytes
unfolding slice
whole_slice bytes e =
    let le : leb 128 (length bytes) ≡ true = ground (arith, e) in
    rw le (ap some (take_all 128 bytes e))

sum_received :
    (c : Card) (sector sum : ℕ) (bytes : List ℕ)
    → length bytes ≡ 128
    → send sum (writing WriteStatus.recv_checksum 0 sector true bytes c)
      ≡ some (0, acknowledged sector true (checksum sector bytes == sum) bytes c)
unfolding send send_in write_process_byte write_answer write_advance write_ends receive_checksum
    compute_temp_sector_checksum
sum_received c sector sum bytes e = rw (whole_slice bytes e) refl

-- What the card says of a write, and what it then holds, by whether the sector is there and the checksum
-- right.
abbrev pub verdict : Bool → Bool → ℕ
verdict false ok = 0xff
verdict true false = 0x4e
verdict true true = 0x47

abbrev pub stored : Bool → Bool → ℕ → List ℕ → List ℕ → List ℕ
stored true true sector bytes buffer =
    take (sector * 128) buffer ++ (bytes ++ drop (sector * 128 + 128) buffer)
stored _ _ sector bytes buffer = buffer

-- The end of a write: the card answers `rs`, is idle and holds `buffer`.
abbrev Closes : Card → List ℕ → List ℕ → List ℕ → Type 0
Closes c xs rs buffer =
    (after : Card) × Answers after c xs rs
    × (after.state ≡ CurrState.idle)
    × (after.mc_buffer ≡ buffer)

none_received :
    (c : Card) (sector sum : ℕ) (bytes : List ℕ)
    → send sum (writing WriteStatus.recv_checksum 0 sector false bytes c)
      ≡ some (0, acknowledged sector false false bytes c)
unfolding send send_in write_process_byte write_answer write_advance write_ends receive_checksum
none_received c sector sum bytes = refl

close_invalid :
    (c : Card) (sector z w e : ℕ) (bytes : List ℕ)
    → Closes
        (acknowledged sector false false bytes c)
        (z ∷ w ∷ e ∷ [])
        (0x5c ∷ 0x5d ∷ 0xff ∷ [])
        c.mc_buffer
unfolding send send_in write_process_byte write_answer write_advance write_ends finish_write
close_invalid c sector z w e bytes = (_, more refl (more refl (more refl done)), refl, refl)

close_wrong :
    (c : Card) (sector z w e : ℕ) (bytes : List ℕ)
    → Closes
        (acknowledged sector true false bytes c)
        (z ∷ w ∷ e ∷ [])
        (0x5c ∷ 0x5d ∷ 0x4e ∷ [])
        c.mc_buffer
unfolding send send_in write_process_byte write_answer write_advance write_ends finish_write
close_wrong c sector z w e bytes = (_, more refl (more refl (more refl done)), refl, refl)

whole_splice :
    (start : ℕ) (bytes buffer : List ℕ)
    → length bytes ≡ 128
    → start + 128 ≤ length buffer
    → splice start bytes buffer ≡ some (take start buffer ++ (bytes ++ drop (start + 128) buffer))
unfolding splice
whole_splice start bytes buffer e room =
    let le : leb (start + 128) (length buffer) ≡ true = ground arith in rw (e, le) refl

-- A card at the last byte of a write that is right.
abbrev ready : ℕ → List ℕ → Card → Card
ready sector bytes c = record (acknowledged sector true true bytes c) {
  wr_status = WriteStatus.send_end_byte;
  cmd_max_steps = 1;
}

abbrev finished : List ℕ → List ℕ → Card → Card
finished bytes buffer c = record (ready 0 bytes c) {
  state = CurrState.idle;
  flag = 0;
  mc_buffer = buffer;
  update_seq_number = add32 c.update_seq_number 1;
}

send_last :
    (c : Card) (sector x : ℕ) (bytes buffer : List ℕ)
    → length bytes ≡ 128
    → splice (sector * 128) bytes c.mc_buffer ≡ some buffer
    → send x (ready sector bytes c) ≡ some (0x47, finished bytes buffer c)
unfolding send send_in write_process_byte write_answer write_advance write_ends finish_write
send_last c sector x bytes buffer e f = rw (whole_slice bytes e) (rw f refl)

close_good :
    (c : Card) (sector z w x : ℕ) (bytes buffer : List ℕ)
    → length bytes ≡ 128
    → splice (sector * 128) bytes c.mc_buffer ≡ some buffer
    → Closes
        (acknowledged sector true true bytes c)
        (z ∷ w ∷ x ∷ [])
        (0x5c ∷ 0x5d ∷ 0x47 ∷ [])
        buffer
unfolding send send_in write_process_byte write_answer write_advance write_ends
close_good c sector z w x bytes buffer e f =
    (_, more refl (more refl (more (send_last c sector x bytes buffer e f) done)), refl, refl)

Closes-cons :
    {c next : Card} {x r : ℕ} {xs rs buffer : List ℕ}
    → send x c ≡ some (r, next)
    → Closes next xs rs buffer
    → Closes c (x ∷ xs) (r ∷ rs) buffer
Closes-cons e (after, d, idle, holds) = (after, more e d, idle, holds)

close :
    (c : Card) (sector sum z w x : ℕ) (bytes : List ℕ) (valid ok : Bool)
    → length bytes ≡ 128
    → length c.mc_buffer ≡ memcard_size
    → leb sector max_sector ≡ valid
    → (checksum sector bytes == sum) ≡ ok
    → Closes
        (writing WriteStatus.recv_checksum 0 sector valid bytes c)
        (sum ∷ z ∷ w ∷ x ∷ [])
        (0 ∷ 0x5c ∷ 0x5d ∷ verdict valid ok ∷ [])
        (stored valid ok sector bytes c.mc_buffer)
close c sector sum z w x bytes false ok e size v f =
    Closes-cons (none_received c sector sum bytes) (close_invalid c sector z w x bytes)
close c sector sum z w x bytes true false e size v f =
    Closes-cons
      (sum_received c sector sum bytes e ∙ ap (λ b. some (0, acknowledged sector true b bytes c)) f)
      (close_wrong c sector z w x bytes)
close c sector sum z w x bytes true true e size v f =
    Closes-cons
      (sum_received c sector sum bytes e ∙ ap (λ b. some (0, acknowledged sector true b bytes c)) f)
      (close_good c sector z w x bytes _ e (
        whole_splice (sector * 128) bytes c.mc_buffer e
          (omega (arith, size, leb→le sector max_sector v))))

-- The card has its 128K and is idle, `msb` and `lsb` are bytes, and there are 128 bytes to write. The host
-- sends the write command, the number of the sector in the fourth and fifth byte, the bytes, `sum`, and
-- any other bytes besides. The card then answers its flag, its name, zeros, the command's acknowledgement, and last
-- 0xff where there is no such sector, else 0x4e where `sum` is not the checksum of the bytes, else `G`. It is
-- idle again. In the last case those bytes stand in the place of that sector, and the rest of its
-- contents is what it was; in the others nothing of them has changed.
pub write_sector :
    (c : Card) (msb lsb x y z w u sum : ℕ) (bytes : List ℕ)
    → c.state ≡ CurrState.idle
    → length c.mc_buffer ≡ memcard_size
    → length c.temp_sector ≡ 128
    → msb < 2 ^ 8
    → lsb < 2 ^ 8
    → length bytes ≡ 128
    → let sector = msb * 2 ^ 8 + lsb in
      let valid = leb sector max_sector in
      let ok = checksum sector bytes == sum in
      (after : Card) × (send_all (0x57 ∷ x ∷ y ∷ msb ∷ lsb ∷ (bytes ++ sum ∷ z ∷ w ∷ u ∷ [])) c
        ≡ some (
          c.flag
              ∷ 0x5a
              ∷ 0x5d
              ∷ 0
              ∷ 0
              ∷ (replicate 128 0 ++ 0 ∷ 0x5c ∷ 0x5d ∷ verdict valid ok ∷ []),
          after,
        ))
      × (after.state ≡ CurrState.idle)
      × (after.mc_buffer ≡ stored valid ok sector bytes c.mc_buffer)
write_sector c msb lsb x y z w u sum [] idle size temp hm hl e = absurd (omega arith)
write_sector c msb lsb x y z w u sum (d ∷ ds) idle size temp hm hl e =
    let sector = msb * 2 ^ 8 + lsb in
    let bytes = d ∷ ds in
    let opening =
      write_opening c x y msb lsb sector c.selected_sector c.is_sector_valid _ c.temp_sector
        (omega arith) refl in
    let middle =
      write_bytes c sector (leb sector max_sector) [] c.temp_sector d ds (omega (arith, e))
        (omega arith) in
    let (after, closing, is_idle, holds) = close c sector sum z w u bytes _ _ e size refl refl in
    (
      after,
      Answers-send_all (
          more (start_write c idle) (
            Answers-append opening (
              Answers-append (subst (Answers _ _ bytes) (ap (λ n. replicate n 0) e) middle)
                closing))),
      is_idle,
      holds,
    )
