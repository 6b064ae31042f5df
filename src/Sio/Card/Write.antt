-- ===== src/Sio/Card/Write.antt =====
-- The protocol of a write.
use mathlib.Core.Path.{subst}
use mathlib.Core.List.{append-nil, append_assoc}
use psx.Base.Lists
use psx.Base.{
  ℕ, suc, ◌+◌, ◌*◌, ◌%◌, ◌^◌, ◌<◌, ◌≡◌, ◌∙◌, refl, sym, ap, Bool, some, List, [], ◌∷◌, ◌++◌, leb,
  length, set, arith, replicate,
}
use psx.Sio.Card.State.{CurrState, WriteStatus, Card, write_max_steps, max_sector}
use psx.Sio.Card.Send.{
  send, send_in, idle_process_byte, write_process_byte, write_answer, write_advance, write_ends,
  receive_sector, receive_data,
}
use psx.Sio.Card.Run.{Answers, done, more, set-append}

-- A card in a transfer to it.
abbrev pub writing : WriteStatus → ℕ → ℕ → Bool → List ℕ → Card → Card
writing status step sector valid temp c = record c {
  state = CurrState.write;
  wr_status = status;
  cmd_step = step;
  cmd_max_steps = write_max_steps status;
  selected_sector = sector;
  is_sector_valid = valid;
  temp_sector = temp;
}

pub start_write :
    (c : Card)
    → c.state ≡ CurrState.idle
    → send 0x57 c
      ≡ some (c.flag, writing WriteStatus.id 0 c.selected_sector c.is_sector_valid c.temp_sector c)
unfolding send send_in idle_process_byte
start_write c e = ap (λ s. send_in s 0x57 c) e

-- Two bytes of the card's name and the number of the sector.
pub write_opening :
    (c : Card) (x y msb lsb sector s : ℕ) (v valid : Bool) (temp : List ℕ)
    → ((s * 2 ^ 8 + msb) % 2 ^ 16 * 2 ^ 8 + lsb) % 2 ^ 16 ≡ sector
    → leb sector max_sector ≡ valid
    → Answers
        (writing WriteStatus.recv_data 0 sector valid temp c)
        (writing WriteStatus.id 0 s v temp c)
        (x ∷ y ∷ msb ∷ lsb ∷ [])
        (0x5a ∷ 0x5d ∷ 0 ∷ 0 ∷ [])
unfolding send send_in write_process_byte write_answer write_advance write_ends receive_sector
write_opening c x y msb lsb sector s v valid temp e h =
    rw (← h, ← e) (more refl (more refl (more refl (more refl done))))

next_data :
    (c : Card) (sector k x : ℕ) (valid : Bool) (temp : List ℕ)
    → k < 127
    → k < length temp
    → send x (writing WriteStatus.recv_data k sector valid temp c)
      ≡ some (0, writing WriteStatus.recv_data (suc k) sector valid (set temp k x) c)
unfolding send send_in write_process_byte write_answer write_advance write_ends receive_data
next_data c sector k x valid temp h room = ground arith

last_data :
    (c : Card) (sector k x : ℕ) (valid : Bool) (temp : List ℕ)
    → k ≡ 127
    → k < length temp
    → send x (writing WriteStatus.recv_data k sector valid temp c)
      ≡ some (0, writing WriteStatus.recv_checksum 0 sector valid (set temp k x) c)
unfolding send send_in write_process_byte write_answer write_advance write_ends receive_data
last_data c sector k x valid temp h room = ground arith

-- The bytes from the `k`th on; those before it are `before`.
pub write_bytes :
    (c : Card) (sector : ℕ) (valid : Bool) (before left : List ℕ) (x : ℕ) (xs : List ℕ)
    → length before + suc (length xs) ≡ 128
    → length left ≡ suc (length xs)
    → Answers
        (writing WriteStatus.recv_checksum 0 sector valid (before ++ (x ∷ xs)) c)
        (writing WriteStatus.recv_data (length before) sector valid (before ++ left) c)
        (x ∷ xs)
        (replicate (suc (length xs)) 0)
write_bytes c sector valid before [] x xs e l = absurd (omega arith)
write_bytes c sector valid before (t ∷ s ∷ left) x [] e l = absurd (omega arith)
write_bytes c sector valid before (t ∷ []) x [] e l =
    more
      (last_data c sector (length before) x valid (before ++ (t ∷ [])) (omega arith)
          (omega (arith, Lists.length-append before (t ∷ [])))
        ∙ ap (λ temp. some (0, writing WriteStatus.recv_checksum 0 sector valid temp c))
            (set-append before [] t x ∙ append-nil (before ++ (x ∷ []))))
      done
write_bytes c sector valid before (t ∷ left) x (y ∷ ys) e l =
    let longer = before ++ (x ∷ []) in
    let size : length longer ≡ suc (length before) =
      omega (arith, Lists.length-append before (x ∷ [])) in
    let rest = write_bytes c sector valid longer left y ys (omega (arith, size)) (omega arith) in
    subst
      (λ temp.
        Answers (writing WriteStatus.recv_checksum 0 sector valid temp c)
          (writing WriteStatus.recv_data (length before) sector valid (before ++ (t ∷ left)) c)
          (x ∷ y ∷ ys) (replicate (suc (suc (length ys))) 0))
      (append_assoc before (x ∷ []) (y ∷ ys))
      (more
        (next_data c sector (length before) x valid (before ++ (t ∷ left)) (omega arith)
            (omega (arith, Lists.length-append before (t ∷ left)))
          ∙ ap
              (λ (r : ℕ × List ℕ).
                some (0, writing WriteStatus.recv_data (r.0) sector valid (r.1) c))
              (λ i. (sym size i, set-append before left t x i)))
        rest)
