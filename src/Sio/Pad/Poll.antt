-- ===== src/Sio/Pad/Poll.antt =====
-- The state of the buttons is read from the standard controller.
use mathlib.Core.Path.{subst}
use psx.Base.{
  ℕ, suc, ◌/◌, ◌%◌, ◌^◌, ◌≤◌, ◌≡◌, ◌∙◌, refl, sym, ap, true, false, some, List, [], ◌∷◌, length,
  arith,
}
use psx.Cpu.State.{◌>>=◌}
use psx.Containers.Refine.{contents, IsValid}
use psx.Sio.Line.{Line, Plugged, Alarm, Rooms}
use psx.Sio.Driver.{SelectedDevice, Slot, driver_line, driver_send, driver_ack, select_device}
use psx.Sio.Port.Transfer.{Bench, exchange_with}
use psx.Sio.Port.Exchange.{Ready}
use psx.Sio.Session.{Talks, AreBytes, exchange_all, port_carries}
use psx.Sio.Pad.State.{ControllerStatus, ControllerMode, Pad, is_analog, pad_command}
use psx.Sio.Pad.Send.{
  send, ack, reset, answer, settle, process_byte, idle_process_byte, idle_command, enqueue_status,
  status_bytes, is_waiting, acknowledged,
}
use psx.Sio.Pad.Answer.{nonempty, is_empty, answer_lem, respond_lem}

-- What a controller tells: its kind, its buttons, and the middle position of four levers where it has them.
abbrev pub report : ControllerMode → ℕ → List ℕ
report ControllerMode.digital buttons = 0x41 ∷ 0x5a ∷ buttons % 2 ^ 8 ∷ buttons / 2 ^ 8 % 2 ^ 8 ∷ []
report ControllerMode.analog buttons =
    0x73 ∷ 0x5a ∷ buttons % 2 ^ 8 ∷ buttons / 2 ^ 8 % 2 ^ 8 ∷ 0x80 ∷ 0x80 ∷ 0x80 ∷ 0x80 ∷ []

status_bytes_lem : (p : Pad) → status_bytes false p ≡ report p.mode p.btn_status
unfolding status_bytes is_analog
status_bytes_lem p = by_mode p.mode p
  where
    by_mode :
        (m : ControllerMode) (p : Pad)
        → status_bytes false (record p { mode = m }) ≡ report m p.btn_status
    by_mode ControllerMode.digital p = refl
    by_mode ControllerMode.analog p = refl

length-report : (m : ControllerMode) (buttons : ℕ) → length (report m buttons) ≤ 16
length-report ControllerMode.digital buttons = omega arith
length-report ControllerMode.analog buttons = omega arith

-- At rest, with nothing to tell.
pub record AtRest (p : Pad) : Type 0 where
  pub resting : p.status ≡ ControllerStatus.idle
  pub valid : IsValid 16 p.response
  pub silent : contents p.response ≡ []

-- The bytes are left to be told.
record Tells (bytes : List ℕ) (p : Pad) : Type 0 where
  telling : p.status ≡ ControllerStatus.read_stat
  valid : IsValid 16 p.response
  left : contents p.response ≡ bytes

-- The controller between two of its bytes: only the answer and the status have changed.
record Same (p q : Pad) : Type 0 where
  buttons : q.btn_status ≡ p.btn_status
  mode : q.mode ≡ p.mode

-- One byte of several.
tell_one :
    (b c : ℕ) (bs : List ℕ) (p : Pad)
    → Tells (b ∷ c ∷ bs) p
    → (next : Pad) × (answer p ≡ some (b, next))
      × (ack next ≡ (true, next))
      × Tells (c ∷ bs) next
      × Same p next
unfolding settle ack is_waiting acknowledged
tell_one b c bs p t =
    let (q, e, v, s) = answer_lem p b (c ∷ bs) t.valid t.left in
    (
      record p { response = q },
      rw (e, nonempty q c bs v s) refl,
      simp (t.telling, nonempty q c bs v s),
      record { telling = t.telling; valid = v; left = s },
      record { buttons = refl; mode = refl },
    )

tell_next :
    (x b c : ℕ) (bs : List ℕ) (p : Pad)
    → Tells (b ∷ c ∷ bs) p
    → (next : Pad) × (send x p ≡ some (b, next))
      × (ack next ≡ (true, next))
      × Tells (c ∷ bs) next
      × Same p next
unfolding send process_byte
tell_next x b c bs p t =
    let (next, answers, acks, tells, same) = tell_one b c bs p t in
    (next, ap (λ s. process_byte s x p >>= answer) t.telling ∙ answers, acks, tells, same)

-- The last byte: the controller does not acknowledge it.
tell_last :
    (x b : ℕ) (p : Pad)
    → Tells (b ∷ []) p
    → (next after : Pad) × (send x p ≡ some (b, next))
      × (ack next ≡ (false, after))
      × AtRest after
      × Same p after
unfolding send process_byte settle ack is_waiting acknowledged
tell_last x b p t =
    let (q, e, v, s) = answer_lem p b [] t.valid t.left in
    (
      record p { response = q; status = ControllerStatus.command_end },
      record p { response = q; status = ControllerStatus.idle },
      ap (λ s. process_byte s x p >>= answer) t.telling ∙ simp (e, is_empty q v s, t.telling),
      rw (is_empty q v s) refl,
      record { resting = refl; valid = v; silent = s },
      record { buttons = refl; mode = refl },
    )

-- The read command.
tell_first :
    (p : Pad) (b c : ℕ) (bs : List ℕ)
    → AtRest p
    → report p.mode p.btn_status ≡ b ∷ c ∷ bs
    → (next : Pad) × (send 0x42 p ≡ some (b, next))
      × (ack next ≡ (true, next))
      × Tells (c ∷ bs) next
      × Same p next
unfolding send process_byte idle_process_byte idle_command enqueue_status pad_command
tell_first p b c bs r e =
    let reading : Pad = record p { status = ControllerStatus.read_stat } in
    let (q, runs, v, s) = respond_lem reading (status_bytes false reading) r.valid r.silent (
      subst (λ bytes. length bytes ≤ 16) (sym (status_bytes_lem reading))
        (length-report p.mode p.btn_status)) in
    let (next, answers, acks, tells, same) =
      tell_one b c bs (record reading { response = q })
        (record { telling = refl; valid = v; left = s ∙ status_bytes_lem reading ∙ e }) in
    (
      next,
      rw (r.resting, runs, answers) refl,
      acks,
      tells,
      record { buttons = same.buttons; mode = same.mode },
    )

module _ (card : Plugged) (alarm : Alarm) where
  -- The controller as what is plugged into a slot.
  abbrev pub pad_plug : Plugged
  pad_plug = record { State = Pad; send = send; ack = ack; reset = reset }

  abbrev pub PadSlot : Type 0
  PadSlot = Slot pad_plug card

  abbrev pub pad_line : Line
  pad_line = driver_line pad_plug card

  abbrev selected : SelectedDevice → Pad → PadSlot → PadSlot
  selected s p d = record d { selected = s; controller = p }

  abbrev talking : Pad → PadSlot → PadSlot
  talking = selected SelectedDevice.pad

  select_pad :
      (d : PadSlot)
      → d.selected ≡ SelectedDevice.nothing
      → d.controller.status ≡ ControllerStatus.idle
      → exchange_with pad_line alarm 0x01 d ≡ some (0xff, false, true, talking d.controller d)
  unfolding exchange_with driver_send driver_ack select_device ack is_waiting acknowledged
  select_pad d e k = ground (arith, e, k)

  pad_goes_on :
      (d : PadSlot) (p next : Pad) (x r : ℕ)
      → send x p ≡ some (r, next)
      → ack next ≡ (true, next)
      → exchange_with pad_line alarm x (talking p d) ≡ some (r, true, true, talking next d)
  unfolding exchange_with driver_send driver_ack
  pad_goes_on d p next x r e k = rw (e, k) refl

  pad_stops :
      (d : PadSlot) (p next after : Pad) (x r : ℕ)
      → send x p ≡ some (r, next)
      → ack next ≡ (false, after)
      → exchange_with pad_line alarm x (talking p d)
        ≡ some (r, true, false, selected SelectedDevice.nothing after d)
  unfolding exchange_with driver_send driver_ack
  pad_stops d p next after x r e k = rw (e, k) refl

  record Told (p : Pad) (d : PadSlot) (xs bs : List ℕ) (start : PadSlot) : Type 0 where
    after : Pad
    talks : Talks pad_line alarm (selected SelectedDevice.nothing after d) start xs bs
    rest : AtRest after
    same : Same p after

  tell_all :
      (bs xs : List ℕ) (b : ℕ) (p : Pad) (d : PadSlot)
      → Tells (b ∷ bs) p
      → length xs ≡ length (b ∷ bs)
      → Told p d xs (b ∷ bs) (talking p d)
  tell_all bs [] b p d t h = absurd (omega arith)
  tell_all [] (x ∷ y ∷ xs) b p d t h = absurd (omega arith)
  tell_all [] (x ∷ []) b p d t h =
      let (next, after, sends, acks, rest, same) = tell_last x b p t in
      record {
        after = after;
        talks = Talks.more (pad_stops d p next after x b sends acks) Talks.done;
        rest = rest;
        same = same;
      }
  tell_all (c ∷ bs) (x ∷ xs) b p d t h =
      let (next, sends, acks, tells, same) = tell_next x b c bs p t in
      let told = tell_all bs xs c next d tells (omega arith) in
      record {
        after = told.after;
        talks = Talks.more (pad_goes_on d p next x b sends acks) told.talks;
        rest = told.rest;
        same = record {
          buttons = told.same.buttons ∙ same.buttons;
          mode = told.same.mode ∙ same.mode;
        };
      }

  read_pad :
      (xs bytes : List ℕ) (d : PadSlot)
      → d.selected ≡ SelectedDevice.nothing
      → AtRest d.controller
      → report d.controller.mode d.controller.btn_status ≡ bytes
      → 2 ≤ length bytes
      → suc (length xs) ≡ length bytes
      → Told d.controller d (0x01 ∷ 0x42 ∷ xs) (0xff ∷ bytes) d
  read_pad xs [] d n r e h k = absurd (omega arith)
  read_pad xs (b ∷ []) d n r e h k = absurd (omega arith)
  read_pad xs (b ∷ c ∷ bs) d n r e h k =
      let (next, sends, acks, tells, same) = tell_first d.controller b c bs r e in
      let told = tell_all bs xs c next d tells (omega arith) in
      record {
        after = told.after;
        talks =
            Talks.more (select_pad d n r.resting)
              (Talks.more (pad_goes_on d d.controller next 0x42 b sends acks) told.talks);
        rest = told.rest;
        same = record {
          buttons = told.same.buttons ∙ same.buttons;
          mode = told.same.mode ∙ same.mode;
        };
      }

  pair_at_least : (m : ControllerMode) (buttons : ℕ) → 2 ≤ length (report m buttons)
  pair_at_least ControllerMode.digital buttons = omega arith
  pair_at_least ControllerMode.analog buttons = omega arith

  -- The port is that of the controllers, enabled and at rest, and the scheduler's queue has room for an event, one at a
  -- time, for each byte. The first slot has a
  -- controller at rest with nothing left to tell, and nothing is selected in it. A program writes the address
  -- of the controller, the read command, and any bytes, one for each of the answer but the first, to the data register, and
  -- reads the register after each byte. It reads 0xff and then the whole report of the controller: its kind, the buttons, and four
  -- levers in the middle in the analog mode. The controller is at rest again with nothing left to tell, its buttons and its mode
  -- are what they were, nothing is selected, and the port is at rest.
  pub read_pad_over_port :
      (rooms : Rooms alarm) (xs : List ℕ) (d : PadSlot) (s : Bench pad_line alarm)
      → rooms.HasRoom (suc (suc (length xs))) s.queue
      → Ready pad_line alarm d s
      → d.selected ≡ SelectedDevice.nothing
      → AtRest d.controller
      → AreBytes xs
      → suc (length xs) ≡ length (report d.controller.mode d.controller.btn_status)
      → (after : PadSlot) × (t : Bench pad_line alarm) × (exchange_all pad_line alarm
            (0x01 ∷ 0x42 ∷ xs)
            s
          ≡ some (0xff ∷ report d.controller.mode d.controller.btn_status, t))
        × Ready pad_line alarm after t
        × (after.selected ≡ SelectedDevice.nothing)
        × AtRest after.controller
        × (after.controller.btn_status ≡ d.controller.btn_status)
        × (after.controller.mode ≡ d.controller.mode)
  read_pad_over_port rooms xs d s room v nothing rest bytes h =
      let told =
        read_pad xs (report d.controller.mode d.controller.btn_status) d nothing rest refl
          (pair_at_least d.controller.mode d.controller.btn_status) h in
      let after = selected SelectedDevice.nothing told.after d in
      let (t, run, ready) =
        port_carries pad_line alarm rooms (0x01 ∷ 0x42 ∷ xs) _ d after s room v
          (omega arith, (omega arith, bytes)) told.talks in
      (after, t, run, ready, refl, told.rest, told.same.buttons, told.same.mode)
