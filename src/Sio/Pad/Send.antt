-- ===== src/Sio/Pad/Send.antt =====
-- The protocol of the standard controller: psxemu/source/psxemu/StandardController.cpp. Where the code stops at
-- `__debugbreak` or at what it takes for unreachable, and where it leaves the array of a queue, the model has `none`.
use psx.Base.{
  ℕ, zero, suc, ◌-◌, ◌/◌, ◌%◌, ◌^◌, Bool, true, false, not, ◌||◌, Option, none, some, List, [], ◌∷◌,
  ◌++◌, ◌==◌, if◌then◌else◌,
}
use psx.Cpu.State.{◌>>=◌}
use psx.Containers.Queue.{Queue, len, peek, back, deque, queue, empty, clear}
use psx.Sio.Pad.State.{
  ControllerStatus, ConfigStatus, ControllerMode, PadCommand, Pad, pad_command, u8_to_keylock,
  digital_id, analog_id, config_id, is_analog, transfer_length, enqueue,
}

abbrev low : ℕ → ℕ
low x = x % 2 ^ 8

abbrev high : ℕ → ℕ
high x = x / 2 ^ 8 % 2 ^ 8

-- The bytes that `EnqueueStatus` queues.
unfoldable pub status_bytes : Bool → Pad → List ℕ
status_bytes force_analog p =
    let buttons = low p.btn_status ∷ high p.btn_status ∷ [] in
    if is_analog p.mode || force_analog
    then low analog_id ∷ high analog_id ∷ (buttons ++ 0x80 ∷ 0x80 ∷ 0x80 ∷ 0x80 ∷ [])
    else low digital_id ∷ high digital_id ∷ buttons

-- The bytes are queued for the program.
unfoldable pub respond : List ℕ → Pad → Option Pad
respond bytes p = enqueue bytes p.response >>= λ q. some (record p { response = q })

unfoldable pub enqueue_status : Bool → Pad → Option Pad
enqueue_status force_analog p = respond (status_bytes force_analog p) p

unfoldable pub idle_command : Option PadCommand → Pad → Option Pad
idle_command (some PadCommand.read) p =
    enqueue_status false (record p { status = ControllerStatus.read_stat })
idle_command (some PadCommand.config_mode) p =
    enqueue_status false (record p { status = ControllerStatus.config }) >>= λ q.
    some (record q { conf_status = ConfigStatus.just_entered })
idle_command _ p = none

unfoldable pub idle_process_byte : ℕ → Pad → Option Pad
idle_process_byte value p = idle_command (pad_command value) p

-- The first bytes of the answer, by the command.
unfoldable pub config_answer : PadCommand → Pad → List ℕ
config_answer PadCommand.read p =
    low config_id ∷ high config_id ∷ low p.btn_status ∷ high p.btn_status ∷ 0 ∷ 0 ∷ 0 ∷ 0 ∷ []
config_answer PadCommand.set_led_state p =
    low config_id ∷ high config_id ∷ 0 ∷ 0 ∷ 0 ∷ 0 ∷ 0 ∷ 0 ∷ []
config_answer PadCommand.get_led_state p =
    low config_id ∷ high config_id ∷ 1 ∷ 2 ∷ p.led_state ∷ 2 ∷ 1 ∷ 0 ∷ []
config_answer PadCommand.get_variable_response_a p = low config_id ∷ high config_id ∷ []
config_answer PadCommand.get_variable_response_b p = low config_id ∷ high config_id ∷ []
config_answer PadCommand.get_whatever p =
    low config_id ∷ high config_id ∷ 0 ∷ 0 ∷ 2 ∷ 0 ∷ 1 ∷ 0 ∷ []
config_answer PadCommand.config_mode p = low config_id ∷ high config_id ∷ 0 ∷ 0 ∷ 0 ∷ 0 ∷ 0 ∷ 0 ∷ []
config_answer PadCommand.get_set_rumble_protocol p =
    low config_id ∷ high config_id ∷ p.curr_rumble_protocol

unfoldable pub config_idle_command : Option PadCommand → Pad → Option Pad
config_idle_command none p = none
config_idle_command (some c) p = respond (config_answer c p) p

-- `ConfigIdleProcessByte`.
unfoldable pub config_idle_process_byte : ℕ → Pad → Option Pad
config_idle_process_byte value p = config_idle_command (pad_command value) p >>= λ q.
    queue value q.in_fifo >>= λ f. some (record q { in_fifo = f })

unfoldable pub variables_a : ℕ → List ℕ
variables_a param =
    if param == 0
    then 1 ∷ 2 ∷ 0 ∷ 0xa ∷ []
    else if param == 1
    then 1 ∷ 1 ∷ 1 ∷ 0x14 ∷ []
    else 0 ∷ 0 ∷ 0 ∷ 0 ∷ []

unfoldable pub variable_b : ℕ → ℕ
variable_b param = if param == 0 then 4 else if param == 1 then 7 else 0

-- What the third byte of a command adds to the answer.
unfoldable pub parameter_answer : Option PadCommand → ℕ → List ℕ
parameter_answer (some PadCommand.get_variable_response_a) param = 0 ∷ 0 ∷ variables_a param
parameter_answer (some PadCommand.get_variable_response_b) param =
    0 ∷ 0 ∷ variable_b param ∷ 0 ∷ 0 ∷ 0 ∷ []
parameter_answer _ param = []

unfoldable pub third_byte : Pad → Option Pad
third_byte p =
    if len p.in_fifo == 3
    then (peek p.in_fifo >>= λ c.
        back p.in_fifo >>= λ param. respond (parameter_answer (pad_command c) param) p)
    else some p

-- The queue is emptied one by one.
unfoldable pub drain : ℕ → Queue ℕ → Option (Queue ℕ)
drain zero f = some f
drain (suc n) f = deque f >>= λ r. drain n (r.1)

-- The command has arrived, and `f` has what follows it.
unfoldable pub end_command : Option PadCommand → Queue ℕ → Pad → Option Pad
end_command (some PadCommand.set_led_state) f p = deque f >>= λ a. deque (a.1) >>= λ led.
    deque (led.1) >>= λ key. drain (len (key.1)) (key.1) >>= λ rest. some (record p {
      led_state = led.0;
      key_lock = u8_to_keylock (key.0);
      mode = if led.0 == 1 then ControllerMode.analog else ControllerMode.digital;
      in_fifo = clear rest;
      conf_status = ConfigStatus.config_command_end;
    })
end_command (some PadCommand.config_mode) f p = deque f >>= λ a. deque (a.1) >>= λ b.
    let emptied = record p { in_fifo = clear (b.1) } in
    some (
      if b.0 % 2 == 1
      then record emptied { conf_status = ConfigStatus.config_command_end }
      else record emptied {
        conf_status = ConfigStatus.just_entered;
        status = ControllerStatus.command_end;
      })
end_command (some PadCommand.get_set_rumble_protocol) f p = deque f >>= λ a. deque (a.1) >>= λ b.
    deque (b.1) >>= λ c. deque (c.1) >>= λ d. deque (d.1) >>= λ e. deque (e.1) >>= λ g.
    deque (g.1) >>= λ h. some (record p {
      curr_rumble_protocol = b.0 ∷ c.0 ∷ d.0 ∷ e.0 ∷ g.0 ∷ h.0 ∷ [];
      in_fifo = clear (h.1);
      conf_status = ConfigStatus.config_command_end;
    })
end_command (some _) f p =
    some (record p { in_fifo = clear f; conf_status = ConfigStatus.config_command_end })
end_command none f p = none

-- `ConfigCommandEnd`.
unfoldable pub config_command_ends : Pad → Option Pad
config_command_ends p = deque p.in_fifo >>= λ c. end_command (pad_command (c.0)) (c.1) p

-- The bytes after the command that enters the configuration: the second of them says whether it is entered.
unfoldable pub enter_byte : ℕ → Pad → Option Pad
enter_byte value p = queue value p.in_fifo >>= λ f.
    if len f == transfer_length p - 2
    then (deque f >>= λ a. deque (a.1) >>= λ b.
        let emptied = record p { in_fifo = clear (b.1) } in
        some (
          if b.0 == 0
          then record emptied { status = ControllerStatus.command_end }
          else record emptied { conf_status = ConfigStatus.config_command_end }))
    else some (record p { in_fifo = f })

unfoldable pub parameter_byte : ℕ → Pad → Option Pad
parameter_byte value p = queue value p.in_fifo >>= λ f.
    third_byte (record p { in_fifo = f }) >>= λ q.
    if len q.in_fifo == 8 then config_command_ends q else some q

unfoldable pub config_byte : ConfigStatus → ℕ → Pad → Option Pad
config_byte ConfigStatus.just_entered value p = enter_byte value p
config_byte ConfigStatus.config_idle value p =
    if empty p.in_fifo then config_idle_process_byte value p else parameter_byte value p
config_byte ConfigStatus.config_command_end value p = none

-- `ConfigProcessByte`.
unfoldable pub config_process_byte : ℕ → Pad → Option Pad
config_process_byte value p = config_byte p.conf_status value p

-- The switch of `Send`.
unfoldable pub process_byte : ControllerStatus → ℕ → Pad → Option Pad
process_byte ControllerStatus.idle value p = idle_process_byte value p
process_byte ControllerStatus.read_stat value p = some p
process_byte ControllerStatus.config value p = config_process_byte value p
process_byte ControllerStatus.command_end value p =
    some (record p { status = ControllerStatus.idle })

abbrev pub finished : ControllerStatus → ControllerStatus
finished ControllerStatus.idle = ControllerStatus.idle
finished ControllerStatus.read_stat = ControllerStatus.command_end
finished ControllerStatus.config = ControllerStatus.config
finished ControllerStatus.command_end = ControllerStatus.command_end

-- The status after the answer, if nothing is left of it.
unfoldable pub settle : Pad → Pad
settle p = if empty p.response then record p { status = finished p.status } else p

unfoldable pub answer : Pad → Option (ℕ × Pad)
answer p =
    if empty p.response
    then some (0xff, settle p)
    else deque p.response >>= λ r. some (r.0, settle (record p { response = r.1 }))

unfoldable pub send : ℕ → Pad → Option (ℕ × Pad)
send value p = process_byte p.status value p >>= answer

unfoldable pub is_waiting : ControllerStatus → ConfigStatus → Bool
is_waiting ControllerStatus.idle conf = true
is_waiting ControllerStatus.config ConfigStatus.config_idle = true
is_waiting _ conf = false

unfoldable pub acknowledged : ControllerStatus → ConfigStatus → Pad → Pad
acknowledged ControllerStatus.command_end conf p = record p { status = ControllerStatus.idle }
acknowledged ControllerStatus.config ConfigStatus.config_command_end p = record p {
  conf_status = ConfigStatus.config_idle;
}
acknowledged _ conf p = p

unfoldable pub ack : Pad → Bool × Pad
ack p = (
  is_waiting p.status p.conf_status || not (empty p.response),
  acknowledged p.status p.conf_status p,
)

abbrev pub kept : ControllerStatus → ControllerStatus
kept ControllerStatus.config = ControllerStatus.config
kept _ = ControllerStatus.idle

unfoldable pub reset : Pad → Pad
reset p = record p { response = clear p.response; status = kept p.status }
