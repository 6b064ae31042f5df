-- ===== src/Sio/Driver.antt =====
-- The driver that stands between a port and the controller and memory card of a slot:
-- psxemu/source/psxemu/SIOPadMemcardDriver.cpp.
use psx.Base.{ℕ, Bool, true, false, Option, some, ◌==◌, if◌then◌else◌}
use psx.Cpu.State.{◌>>=◌}
use psx.Sio.Line.{Line, Plugged}

pub data SelectedDevice : Type 0 where
  nothing pad memcard : SelectedDevice

pub record Driver (Pad Card : Type 0) : Type 0 where
  pub selected : SelectedDevice
  pub controller : Pad
  pub card : Card

-- `SelectDevice`: the addresses are the numbers of the enumeration.
unfoldable pub select_device : {Pad Card : Type 0} → ℕ → Driver Pad Card → Driver Pad Card
select_device address d =
    if address == 0
    then record d { selected = SelectedDevice.nothing }
    else if address == 0x01
    then record d { selected = SelectedDevice.pad }
    else if address == 0x81
    then record d { selected = SelectedDevice.memcard }
    else d

module _ (pad card : Plugged) where
  abbrev pub Slot : Type 0
  Slot = Driver (pad.State) (card.State)

  unfoldable send_to : SelectedDevice → ℕ → Slot → Option (ℕ × Bool × Slot)
  send_to SelectedDevice.nothing value d = some (0xff, false, select_device value d)
  send_to SelectedDevice.pad value d =
      pad.send value d.controller >>= λ r. some (r.0, true, record d { controller = r.1 })
  send_to SelectedDevice.memcard value d =
      card.send value d.card >>= λ r. some (r.0, true, record d { card = r.1 })

  unfoldable ask : SelectedDevice → Slot → Bool × Slot
  ask SelectedDevice.nothing d = (false, d)
  ask SelectedDevice.pad d =
      let (ack, state) = pad.ack d.controller in (ack, record d { controller = state })
  ask SelectedDevice.memcard d =
      let (ack, state) = card.ack d.card in (ack, record d { card = state })

  unfoldable pub driver_send : ℕ → Slot → Option (ℕ × Bool × Slot)
  unfolding send_to
  driver_send value d = send_to d.selected value d

  unfoldable pub driver_ack : Slot → Bool × Slot
  unfolding ask
  driver_ack d =
      let (ack, after) = ask d.selected d in
      if ack then (true, after) else (false, record after { selected = SelectedDevice.nothing })

  unfoldable pub unselect : Slot → Slot
  unselect d = record d {
    selected = SelectedDevice.nothing;
    controller = pad.reset d.controller;
    card = card.reset d.card;
  }

  abbrev pub driver_line : Line
  driver_line = record { State = Slot; send = driver_send; ack = driver_ack; unselect = unselect }
