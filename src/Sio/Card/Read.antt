-- ===== src/Sio/Card/Read.antt =====
-- The protocol of a read.
use mathlib.Core.Path.{subst}
use psx.Base.{
  ℕ, suc, ◌+◌, ◌*◌, ◌/◌, ◌%◌, ◌^◌, ◌≤◌, ◌<◌, ◌≡◌, refl, sym, ap, Bool, true, some, List, [], ◌∷◌,
  ◌++◌, leb, length, get_elem?, take, drop, arith,
}
use psx.Sio.Card.State.{
  CurrState, ReadStatus, Card, read_max_steps, max_sector, memcard_size, slice, checksum,
  compute_sector_checksum,
}
use psx.Sio.Card.Send.{
  send, send_in, idle_process_byte, read_process_byte, read_answer, read_advance, read_ends,
  receive_sector, confirm_byte,
}
use psx.Sio.Card.Run.{
  Answers-send_all, Answers, done, more, send_all, Answers-append, drop-get_elem?,
}

-- A card in a transfer from it.
abbrev reading : ReadStatus → ℕ → ℕ → Bool → Card → Card
reading status step sector valid c = record c {
  state = CurrState.read;
  rd_status = status;
  cmd_step = step;
  cmd_max_steps = read_max_steps status;
  selected_sector = sector;
  is_sector_valid = valid;
}

start_read :
    (c : Card)
    → c.state ≡ CurrState.idle
    → send 0x52 c ≡ some (c.flag, reading ReadStatus.id 0 c.selected_sector c.is_sector_valid c)
unfolding send send_in idle_process_byte
start_read c e = ap (λ s. send_in s 0x52 c) e

-- Two bytes of the card's name, the number of the sector, and two bytes more.
read_opening :
    (c : Card) (x y msb lsb z w sector s : ℕ) (v : Bool)
    → ((s * 2 ^ 8 + msb) % 2 ^ 16 * 2 ^ 8 + lsb) % 2 ^ 16 ≡ sector
    → leb sector max_sector ≡ true
    → Answers
        (reading ReadStatus.send_confirm 0 sector true c)
        (reading ReadStatus.id 0 s v c)
        (x ∷ y ∷ msb ∷ lsb ∷ z ∷ w ∷ [])
        (0x5a ∷ 0x5d ∷ 0 ∷ 0 ∷ 0x5c ∷ 0x5d ∷ [])
unfolding send send_in read_process_byte read_answer read_advance read_ends receive_sector
read_opening c x y msb lsb z w sector s v e h =
    rw (← h, ← e) (more refl (more refl (more refl (more refl (more refl (more refl done))))))

-- The number of the sector again.
read_confirm :
    (c : Card) (x y msb lsb : ℕ)
    → msb < 2 ^ 8
    → lsb < 2 ^ 8
    → Answers
        (reading ReadStatus.send_sector 0 (msb * 2 ^ 8 + lsb) true c)
        (reading ReadStatus.send_confirm 0 (msb * 2 ^ 8 + lsb) true c)
        (x ∷ y ∷ [])
        (msb ∷ lsb ∷ [])
unfolding send send_in read_process_byte read_answer read_advance read_ends confirm_byte
read_confirm c x y msb lsb hm hl =
    more
      (ap (λ b. some (b, reading ReadStatus.send_confirm 1 (msb * 2 ^ 8 + lsb) true c))
        (high msb lsb hm hl))
      (more
        (ap (λ b. some (b, reading ReadStatus.send_sector 0 (msb * 2 ^ 8 + lsb) true c))
          (low msb lsb hl))
        done)
  where
    high : (m l : ℕ) → m < 2 ^ 8 → l < 2 ^ 8 → (m * 2 ^ 8 + l) / 2 ^ 8 % 2 ^ 8 ≡ m
    high m l hm hl = omega arith

    low : (m l : ℕ) → l < 2 ^ 8 → (m * 2 ^ 8 + l) % 2 ^ 8 ≡ l
    low m l hl = omega arith

next_byte :
    (c : Card) (sector k b x : ℕ)
    → k < 127
    → get_elem? c.mc_buffer (sector * 128 + k) ≡ some b
    → send x (reading ReadStatus.send_sector k sector true c)
      ≡ some (b, reading ReadStatus.send_sector (suc k) sector true c)
unfolding send send_in read_process_byte read_answer read_advance read_ends
next_byte c sector k b x h e = ground (arith, e)

last_byte :
    (c : Card) (sector k b x : ℕ)
    → k ≡ 127
    → get_elem? c.mc_buffer (sector * 128 + k) ≡ some b
    → send x (reading ReadStatus.send_sector k sector true c)
      ≡ some (b, reading ReadStatus.send_checksum 0 sector true c)
unfolding send send_in read_process_byte read_answer read_advance read_ends
last_byte c sector k b x h e = ground (arith, e)

-- The rest of the sector, from its byte `k` on.
abbrev SendsFrom : Card → ℕ → ℕ → List ℕ → List ℕ → Type 0
SendsFrom c sector k =
    Answers (reading ReadStatus.send_checksum 0 sector true c)
      (reading ReadStatus.send_sector k sector true c)

read_bytes :
    (c : Card) (sector : ℕ)
    → sector ≤ max_sector
    → length c.mc_buffer ≡ memcard_size
    → (k : ℕ) (x : ℕ) (xs : List ℕ) → k + suc (length xs) ≡ 128
    → SendsFrom c sector k (x ∷ xs) (take (suc (length xs)) (drop (sector * 128 + k) c.mc_buffer))
read_bytes c sector h size k x [] e =
    let (b, at_k, eq) = drop-get_elem? c.mc_buffer (sector * 128 + k) (omega arith) in
    subst (SendsFrom c sector k (x ∷ [])) (sym (ap (take 1) eq))
      (more (last_byte c sector k b x (omega arith) at_k) done)
read_bytes c sector h size k x (y ∷ ys) e =
    let (b, at_k, eq) = drop-get_elem? c.mc_buffer (sector * 128 + k) (omega arith) in
    let following : sector * 128 + suc k ≡ suc (sector * 128 + k) = omega arith in
    let rest =
      subst (λ i. SendsFrom c sector (suc k) (y ∷ ys) (take (suc (length ys)) (drop i c.mc_buffer)))
        following (read_bytes c sector h size (suc k) y ys (omega arith)) in
    subst (SendsFrom c sector k (x ∷ y ∷ ys)) (sym (ap (take (suc (suc (length ys)))) eq))
      (more (next_byte c sector k b x (omega arith) at_k) rest)

read_closing :
    (c : Card) (sector x y : ℕ)
    → sector ≤ max_sector
    → length c.mc_buffer ≡ memcard_size
    → Answers
        (record (reading ReadStatus.send_end_byte 0 0 true c) { state = CurrState.idle })
        (reading ReadStatus.send_checksum 0 sector true c)
        (x ∷ y ∷ [])
        (checksum sector (take 128 (drop (sector * 128) c.mc_buffer)) ∷ 0x47 ∷ [])
unfolding send send_in read_process_byte read_answer read_advance read_ends compute_sector_checksum
    slice
read_closing c sector x y h size = more (sum_byte (rw size (ground arith))) (more refl done)
  where
    sum_byte :
        leb (sector * 128 + 128) (length c.mc_buffer) ≡ true
        → send x (reading ReadStatus.send_checksum 0 sector true c)
          ≡ some (
            checksum sector (take 128 (drop (sector * 128) c.mc_buffer)),
            reading ReadStatus.send_end_byte 0 sector true c,
          )
    sum_byte e = ground (arith, e)

-- The bytes of a sector.
abbrev pub sector_bytes : ℕ → Card → List ℕ
sector_bytes n c = take 128 (drop (n * 128) c.mc_buffer)

-- What a card with this flag answers to the reading of a sector with these bytes.
abbrev pub read_reply : ℕ → ℕ → ℕ → List ℕ → List ℕ
read_reply flag msb lsb bytes =
    flag
    ∷ 0x5a
    ∷ 0x5d
    ∷ 0
    ∷ 0
    ∷ 0x5c
    ∷ 0x5d
    ∷ msb
    ∷ lsb
    ∷ (bytes ++ checksum (msb * 2 ^ 8 + lsb) bytes ∷ 0x47 ∷ [])

pub read_sector-Answers :
    (c : Card) (msb lsb x y z w u v p q : ℕ) (zs : List ℕ)
    → c.state ≡ CurrState.idle
    → length c.mc_buffer ≡ memcard_size
    → msb < 2 ^ 8
    → lsb < 2 ^ 8
    → msb * 2 ^ 8 + lsb ≤ max_sector
    → length zs ≡ 128
    → (after : Card) × Answers after c
        (0x52 ∷ x ∷ y ∷ msb ∷ lsb ∷ z ∷ w ∷ u ∷ v ∷ (zs ++ p ∷ q ∷ []))
        (read_reply c.flag msb lsb (sector_bytes (msb * 2 ^ 8 + lsb) c))
      × (after.state ≡ CurrState.idle)
      × (after.mc_buffer ≡ c.mc_buffer)
read_sector-Answers c msb lsb x y z w u v p q [] idle size hm hl h e = absurd (omega arith)
read_sector-Answers c msb lsb x y z w u v p q (d ∷ ds) idle size hm hl h e =
    let sector = msb * 2 ^ 8 + lsb in
    let opening =
      read_opening c x y msb lsb z w sector c.selected_sector c.is_sector_valid (omega arith)
        (ground arith) in
    let start =
      more (start_read c idle) (Answers-append opening (read_confirm c u v msb lsb hm hl)) in
    let bytes = bytes_whole sector (read_bytes c sector h size 0 d ds (omega (arith, e))) in
    (_, Answers-append start (Answers-append bytes (read_closing c sector p q h size)), refl, refl)
  where
    bytes_whole :
        (sector : ℕ)
        → SendsFrom c sector 0
            (d ∷ ds)
            (take (suc (length ds)) (drop (sector * 128 + 0) c.mc_buffer))
        → SendsFrom c sector 0 (d ∷ ds) (sector_bytes sector c)
    bytes_whole sector a =
        subst (λ n. SendsFrom c sector 0 (d ∷ ds) (take n (drop (sector * 128) c.mc_buffer))) e
          (subst (λ i. SendsFrom c sector 0 (d ∷ ds) (take (suc (length ds)) (drop i c.mc_buffer)))
            (omega arith) a)

-- The card has its 128K and is idle, `msb` and `lsb` are bytes and make up the number of a sector, and `zs` has
-- 128 elements. The host sends the read command, the number in the fourth and fifth byte, and any other
-- bytes besides. The card then answers its flag, its name, two zeros, the command's acknowledgement, the
-- number again, the bytes of that sector, its checksum and `G`. It is idle again, and its contents are
-- what they were.
pub read_sector_lem :
    (c : Card) (msb lsb x y z w u v p q : ℕ) (zs : List ℕ)
    → c.state ≡ CurrState.idle
    → length c.mc_buffer ≡ memcard_size
    → msb < 2 ^ 8
    → lsb < 2 ^ 8
    → msb * 2 ^ 8 + lsb ≤ max_sector
    → length zs ≡ 128
    → (after : Card) × (send_all (0x52 ∷ x ∷ y ∷ msb ∷ lsb ∷ z ∷ w ∷ u ∷ v ∷ (zs ++ p ∷ q ∷ [])) c
        ≡ some (read_reply c.flag msb lsb (sector_bytes (msb * 2 ^ 8 + lsb) c), after))
      × (after.state ≡ CurrState.idle)
      × (after.mc_buffer ≡ c.mc_buffer)
read_sector_lem c msb lsb x y z w u v p q zs idle size hm hl h e =
    let (after, answers, is_idle, same) =
      read_sector-Answers c msb lsb x y z w u v p q zs idle size hm hl h e in
    (after, Answers-send_all answers, is_idle, same)
