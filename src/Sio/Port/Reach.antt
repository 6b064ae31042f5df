-- ===== src/Sio/Port/Reach.antt =====
-- Every access of the program and every event of the scheduler keeps the port within its bounds.
use mathlib.Core.Path.{subst}
use psx.Base.{
  sym, arith, ℕ, ◌≡◌, ◌*◌, ◌-◌, ◌%◌, refl, not, ◌&&◌, Option, some, if◌then◌else◌, ◌==◌, ltb,
  if_either,
}
use psx.Cpu.State.{Holds, Holds-bind}
use psx.Sio.Line.{Line, Alarm}
use psx.Sio.Port.State.{sio_port, tx_enable, dtr_output_level, port_select}
use psx.Sio.Port.Transfer.{Bench, handle_pending, transfer_complete}
use psx.Sio.Port.Registers.{
  within, take_byte, read8, read16, read32, is_there, change_slot, check_dtr, write_control,
  write_byte, write16, write8, write32,
}
use psx.Sio.Port.Bounds.{
  IsValid, sio_port-IsValid, write_baud-IsValid, write_mode-IsValid, acknowledge-IsValid,
  take_byte-IsValid, Ok, OkRead, handle_pending-Ok, transfer_complete-Ok, read8-Ok, read16-Ok,
  read32-Ok,
}

module _ (line : Line) (alarm : Alarm) where
  abbrev Kept : Option (Bench line alarm) → Type 0
  Kept = Holds (Ok line alarm)

  change_slot-Ok :
      (old : ℕ) (s : Bench line alarm)
      → Ok line alarm s
      → Ok line alarm (change_slot line alarm old s)
  unfolding change_slot
  change_slot-Ok old s v = if_either (Ok line alarm) (old == port_select s.port.control) v (
      if_either (Ok line alarm) (old == 0 && is_there line alarm s.port1)
        (record { places = v.places; fits = omega arith; flagged = refl })
        (record { places = v.places; fits = omega arith; flagged = refl }))

  check_dtr-Ok : (s : Bench line alarm) → Ok line alarm s → Ok line alarm (check_dtr line alarm s)
  unfolding check_dtr
  check_dtr-Ok s v = if_either (Ok line alarm) (dtr_output_level s.port.control) v v

  write_control-Ok :
      (value : ℕ) (s : Bench line alarm) → Ok line alarm s → Kept (write_control line alarm value s)
  unfolding write_control
  write_control-Ok value s v =
      let written = record s { port = record (s.port) { control = value } } in
      let old = port_select s.port.control in
      let t = check_dtr line alarm (change_slot line alarm old written) in
      let w = check_dtr-Ok (change_slot line alarm old written) (
        change_slot-Ok old written
          (record { places = v.places; fits = v.fits; flagged = v.flagged })) in
      let started = not (tx_enable s.port.control) && tx_enable value in
      Holds-bind (Ok line alarm) (Ok line alarm)
        (if started then handle_pending line alarm t else some t) _
        (if_either Kept started (handle_pending-Ok line alarm t w) w)
        (λ u x. acknowledge-IsValid u.port x)

  write_byte-Ok :
      (value : ℕ) (s : Bench line alarm) → Ok line alarm s → Kept (write_byte line alarm value s)
  unfolding write_byte
  write_byte-Ok value s v =
      if_either Kept s.port.tx_not_full
        (handle_pending-Ok line alarm (record s { port = take_byte value s.port })
          (take_byte-IsValid value s.port v))
        v

  write16-Ok :
      (address value : ℕ) (s : Bench line alarm)
      → Ok line alarm s
      → Kept (write16 line alarm address value s)
  unfolding write16
  write16-Ok address value s v =
      if_either Kept (within 0xe 2 address) (write_baud-IsValid value s.port v) (
        if_either Kept (within 4 4 address) v (
          if_either Kept (within 0 4 address) (write_byte-Ok value s v) (
            if_either Kept (within 8 2 address) (write_mode-IsValid value s.port v)
              (if_either Kept (within 0xa 2 address) (write_control-Ok value s v) v))))

  write8-Ok :
      (address value : ℕ) (s : Bench line alarm)
      → Ok line alarm s
      → Kept (write8 line alarm address value s)
  unfolding write8
  write8-Ok address value s v =
      if_either Kept (ltb (8 * (address - address % 2)) 32) (write16-Ok _ _ s v) tt

  -- What the program and the scheduler may do, and other parts of the machine to the status, the scheduler
  -- and the devices.
  pub data Step (s t : Bench line alarm) : Type 0 where
    reads8 : (a r : ℕ) → read8 line alarm a s ≡ some (r, t) → Step s t
    reads16 : (a r : ℕ) → read16 line alarm a s ≡ some (r, t) → Step s t
    reads32 : (a r : ℕ) → read32 line alarm a s ≡ some (r, t) → Step s t
    writes8 : (a v : ℕ) → write8 line alarm a v s ≡ some t → Step s t
    writes16 : (a v : ℕ) → write16 line alarm a v s ≡ some t → Step s t
    writes32 : (a v : ℕ) → write32 line alarm a v s ≡ some t → Step s t
    fires : transfer_complete line alarm s ≡ some t → Step s t
    elsewhere : t.port ≡ s.port → Step s t

  pub data Reach (s : Bench line alarm) : Bench line alarm → Type 0 where
    here : Reach s s
    next : {t u : Bench line alarm} → Reach s t → Step t u → Reach s u

  Step-Ok : {s t : Bench line alarm} → Step s t → Ok line alarm s → Ok line alarm t
  unfolding write32
  Step-Ok {s} (Step.reads8 a r e) v =
      subst (Holds (OkRead line alarm)) e (read8-Ok line alarm a s v)
  Step-Ok {s} (Step.reads16 a r e) v =
      subst (Holds (OkRead line alarm)) e (read16-Ok line alarm a s v)
  Step-Ok {s} (Step.reads32 a r e) v =
      subst (Holds (OkRead line alarm)) e (read32-Ok line alarm a s v)
  Step-Ok {s} (Step.writes8 a x e) v = subst Kept e (write8-Ok a x s v)
  Step-Ok {s} (Step.writes16 a x e) v = subst Kept e (write16-Ok a x s v)
  Step-Ok {s} (Step.writes32 a x e) v = subst Kept e (write16-Ok a _ s v)
  Step-Ok {s} (Step.fires e) v = subst Kept e (transfer_complete-Ok line alarm s v)
  Step-Ok (Step.elsewhere e) v = subst IsValid (sym e) v

  Reach-Ok : {s t : Bench line alarm} → Reach s t → Ok line alarm s → Ok line alarm t
  Reach-Ok Reach.here v = v
  Reach-Ok (Reach.next r st) v = Step-Ok st (Reach-Ok r v)

  -- From a new port on, whatever the program, the scheduler, and the rest of the machine do: the queue of
  -- received bytes has eight places, holds at most eight bytes, and the status register says that it is not
  -- empty exactly when it holds one.
  pub new_port-Reach-IsValid :
      (id : ℕ) (s t : Bench line alarm) → s.port ≡ sio_port id → Reach s t → IsValid t.port
  new_port-Reach-IsValid id s t e r = Reach-Ok r (subst IsValid (sym e) (sio_port-IsValid id))
