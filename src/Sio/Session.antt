-- ===== src/Sio/Session.antt =====
-- Sessions over the port with the driver of a slot, and with a memory card behind it.

use psx.Base.{
  ℕ, ◌+◌, ◌*◌, ◌^◌, ◌≤◌, ◌<◌, ◌≡◌, refl, Bool, true, false, Option, some, List, [], ◌∷◌, ◌++◌,
  length, replicate, arith,
}
use psx.Cpu.State.{◌>>=◌}
use psx.Sio.Line.{Line, Plugged, Alarm, Rooms}
use psx.Sio.Driver.{SelectedDevice, Slot, driver_line, driver_send, driver_ack, select_device}
use psx.Sio.Card.State.{CurrState, Card, memcard_size, max_sector}
use psx.Sio.Card.Send.{send, reset}
use psx.Sio.Card.Run.{Answers}
use psx.Sio.Card.Read.{sector_bytes, read_reply, read_sector-Answers}
use psx.Sio.Port.Transfer.{Bench, exchange_with}
use psx.Sio.Port.Exchange.{exchange, Ready, exchange-Ready}

abbrev pub AreBytes : List ℕ → Type 0
AreBytes [] = Unit
AreBytes (x ∷ xs) = (x < 2 ^ 8) × AreBytes xs

module _ (line : Line) (alarm : Alarm) where
  -- A device that is sent bytes, and asked for an acknowledgement after each.
  pub data Talks (after : line.State) : line.State → List ℕ → List ℕ → Type 0 where
    done : Talks after after [] []
    more :
        {d next : line.State} {x r : ℕ} {has_data ack : Bool} {xs rs : List ℕ}
        → exchange_with line alarm x d ≡ some (r, has_data, ack, next)
        → Talks after next xs rs
        → Talks after d (x ∷ xs) (r ∷ rs)

  -- The same through the registers of the port.
  unfoldable pub exchange_all : List ℕ → Bench line alarm → Option (List ℕ × Bench line alarm)
  exchange_all [] s = some ([], s)
  exchange_all (x ∷ xs) s =
      exchange line alarm x s >>= λ r. exchange_all xs (r.1) >>= λ u. some (r.0 ∷ u.0, u.1)

  -- The port is that of the controllers, is enabled and at rest, and has the device in its first slot; the
  -- scheduler's queue has room for as many events, one at a time, as there are bytes. Then what the program reads from the data register after each byte that it writes to it is
  -- what the device answers to these bytes, and the port is at rest again.
  pub port_carries :
      (rooms : Rooms alarm) (xs rs : List ℕ) (d after : line.State) (s : Bench line alarm)
      → rooms.HasRoom (length xs) s.queue
      → Ready line alarm d s
      → AreBytes xs
      → Talks after d xs rs
      → (t : Bench line alarm) × (exchange_all xs s ≡ some (rs, t)) × Ready line alarm after t
  unfolding exchange_all
  port_carries rooms xs rs d after s room v bytes talks = carry talks s room v bytes
    where
      carry :
          {d : line.State} {xs rs : List ℕ}
          → Talks after d xs rs
          → (s : Bench line alarm) → rooms.HasRoom (length xs) s.queue
          → Ready line alarm d s
          → AreBytes xs
          → (t : Bench line alarm) × (exchange_all xs s ≡ some (rs, t)) × Ready line alarm after t
      carry Talks.done s room v bytes = (s, refl, v)
      carry (Talks.more {x = x} {r = r} {has_data = h} {ack = a} {xs = ys} e talks) s room v bytes =
          let (t, one, ready, left) =
            exchange-Ready line alarm rooms (length ys) x r h a _ _ s room v (bytes.0) e in
          let (u, rest, last) = carry talks t left ready (bytes.1) in (u, rw (one, rest) refl, last)

-- The memory card as what is plugged into a slot: `Ack` always acknowledges.
abbrev pub card_plug : Plugged
card_plug = record { State = Card; send = send; ack = λ c. (true, c); reset = reset }

module _ (pad : Plugged) (alarm : Alarm) where
  abbrev pub CardSlot : Type 0
  CardSlot = Slot pad card_plug

  abbrev pub slot_line : Line
  slot_line = driver_line pad card_plug

  abbrev selected : Card → CardSlot → CardSlot
  selected c d = record d { selected = SelectedDevice.memcard; card = c }

  select_card :
      (d : CardSlot)
      → d.selected ≡ SelectedDevice.nothing
      → exchange_with slot_line alarm 0x81 d ≡ some (0xff, false, true, selected d.card d)
  unfolding exchange_with driver_send driver_ack select_device
  select_card d e = ground (arith, e)

  card_exchange :
      (d : CardSlot) (c next : Card) (x r : ℕ)
      → send x c ≡ some (r, next)
      → exchange_with slot_line alarm x (selected c d) ≡ some (r, true, true, selected next d)
  unfolding exchange_with driver_send driver_ack
  card_exchange d c next x r e = rw (e) refl

  card_Talks :
      (d : CardSlot) {after c : Card} {xs rs : List ℕ}
      → Answers after c xs rs
      → Talks slot_line alarm (selected after d) (selected c d) xs rs
  card_Talks d Answers.done = Talks.done
  card_Talks d (Answers.more e answers) =
      Talks.more (card_exchange d _ _ _ _ e) (card_Talks d answers)

  -- The bytes that a program writes to read a sector of the card in the first slot.
  abbrev pub read_request : ℕ → ℕ → List ℕ
  read_request msb lsb =
      0x81 ∷ 0x52 ∷ 0 ∷ 0 ∷ msb ∷ lsb ∷ 0 ∷ 0 ∷ 0 ∷ 0 ∷ (replicate 128 0 ++ 0 ∷ 0 ∷ [])

  -- The port is that of the controllers, enabled and at rest, and the scheduler's queue has room for 140 events,
  -- one at a time. The first slot has a loaded memory card, and nothing is selected in it. A program writes the address of the card, the read
  -- command with the number of a sector that there is, and zeros, to the data register, and reads the register after each
  -- byte. It reads 0xff, and then the whole answer of the card, with the bytes of that sector and
  -- their checksum. The port is at rest again, and the contents of the card are what they were.
  pub read_over_port :
      (rooms : Rooms alarm) (msb lsb : ℕ) (d : CardSlot) (s : Bench slot_line alarm)
      → rooms.HasRoom 140 s.queue
      → Ready slot_line alarm d s
      → d.selected ≡ SelectedDevice.nothing
      → d.card.state ≡ CurrState.idle
      → length d.card.mc_buffer ≡ memcard_size
      → msb < 2 ^ 8
      → lsb < 2 ^ 8
      → msb * 2 ^ 8 + lsb ≤ max_sector
      → (after : CardSlot) × (t : Bench slot_line alarm) × (exchange_all slot_line alarm
            (read_request msb lsb)
            s
          ≡ some
              (0xff ∷ read_reply d.card.flag msb lsb (sector_bytes (msb * 2 ^ 8 + lsb) d.card), t))
        × Ready slot_line alarm after t
        × (after.card.mc_buffer ≡ d.card.mc_buffer)
  read_over_port rooms msb lsb d s room v nothing idle size hm hl h =
      let (after, answers, _, same) =
        read_sector-Answers d.card msb lsb 0 0 0 0 0 0 0 0 (replicate 128 0) idle size hm hl h
          refl in
      let talks = Talks.more (select_card d nothing) (card_Talks d answers) in
      let (t, run, ready) =
        port_carries slot_line alarm rooms (read_request msb lsb) _ d (selected after d) s room v
          (request_bytes msb lsb hm hl) talks in
      (selected after d, t, run, ready, same)
    where
      request_bytes : (msb lsb : ℕ) → msb < 2 ^ 8 → lsb < 2 ^ 8 → AreBytes (read_request msb lsb)
      request_bytes msb lsb hm hl = omega arith
