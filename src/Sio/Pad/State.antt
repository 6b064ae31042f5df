-- ===== src/Sio/Pad/State.antt =====
-- The state of the standard controller: psxemu/include/psxemu/StandardController.hpp.
use psx.Base.{
  ℕ, ◌%◌, Bool, true, false, Option, none, some, List, [], ◌∷◌, ◌==◌, ltb, if◌then◌else◌, replicate,
}
use psx.Base.Words.{set_bit}
use psx.Cpu.State.{◌>>=◌}
use psx.Containers.Queue.{Queue, queue}

pub data ControllerStatus : Type 0 where
  idle read_stat config command_end : ControllerStatus

pub data ConfigStatus : Type 0 where
  just_entered config_idle config_command_end : ConfigStatus

pub data ControllerMode : Type 0 where
  digital analog : ControllerMode

pub data KeyLock : Type 0 where
  unlock lock : KeyLock

pub data PadCommand : Type 0 where
  read config_mode set_led_state get_led_state get_variable_response_a get_whatever : PadCommand
  get_variable_response_b get_set_rumble_protocol : PadCommand

-- `led_state` is the byte of the enumeration, which may have any value, and `btn_status` the register of
-- 16 bits. The two queues have room for 16 and 32 bytes.
pub record Pad : Type 0 where
  pub status : ControllerStatus
  pub conf_status : ConfigStatus
  pub mode : ControllerMode
  pub response : Queue ℕ
  pub in_fifo : Queue ℕ
  pub btn_status : ℕ
  pub led_state : ℕ
  pub curr_rumble_protocol : List ℕ
  pub key_lock : KeyLock

unfoldable pub standard_controller : Pad
standard_controller = record {
  status = ControllerStatus.idle;
  conf_status = ConfigStatus.just_entered;
  mode = ControllerMode.digital;
  response = record { curr_size = 0; arr = replicate 16 0 };
  in_fifo = record { curr_size = 0; arr = replicate 32 0 };
  btn_status = 0xffff;
  led_state = 0;
  curr_rumble_protocol = replicate 6 0xff;
  key_lock = KeyLock.unlock;
}

-- The command of a byte, if it is one.
unfoldable pub pad_command : ℕ → Option PadCommand
pad_command value =
    if value == 0x42
    then some PadCommand.read
    else if value == 0x43
    then some PadCommand.config_mode
    else if value == 0x44
    then some PadCommand.set_led_state
    else if value == 0x45
    then some PadCommand.get_led_state
    else if value == 0x46
    then some PadCommand.get_variable_response_a
    else if value == 0x47
    then some PadCommand.get_whatever
    else if value == 0x4c
    then some PadCommand.get_variable_response_b
    else if value == 0x4d
    then some PadCommand.get_set_rumble_protocol
    else none

unfoldable pub u8_to_keylock : ℕ → KeyLock
u8_to_keylock value = if ltb (value % 4) 3 then KeyLock.unlock else KeyLock.lock

abbrev pub digital_id : ℕ
digital_id = 0x5a41

abbrev pub analog_id : ℕ
analog_id = 0x5a73

abbrev pub config_id : ℕ
config_id = 0x5af3

unfoldable pub set_mode : Bool → Pad → Pad
set_mode b p = record p { mode = if b then ControllerMode.analog else ControllerMode.digital }

unfoldable pub is_analog : ControllerMode → Bool
is_analog ControllerMode.analog = true
is_analog ControllerMode.digital = false

unfoldable pub transfer_length : Pad → ℕ
transfer_length p = if is_analog p.mode then 9 else 5

-- The buttons, by the names that `m_btn_map` has.
pub data Button : Type 0 where
  select l3 r3 start dpad_up dpad_right dpad_down dpad_left l2 r2 l1 r1 triangle circle : Button
  cross square : Button

unfoldable pub btn_index : Button → ℕ
btn_index Button.select = 0
btn_index Button.l3 = 1
btn_index Button.r3 = 2
btn_index Button.start = 3
btn_index Button.dpad_up = 4
btn_index Button.dpad_right = 5
btn_index Button.dpad_down = 6
btn_index Button.dpad_left = 7
btn_index Button.l2 = 8
btn_index Button.r2 = 9
btn_index Button.l1 = 10
btn_index Button.r1 = 11
btn_index Button.triangle = 12
btn_index Button.circle = 13
btn_index Button.cross = 14
btn_index Button.square = 15

pub data ButtonType : Type 0 where
  normal analog : ButtonType

unfoldable pub is_normal : ButtonType → Bool
is_normal ButtonType.normal = true
is_normal ButtonType.analog = false

-- A button's bit is 0 while it is pressed; nothing changes for a name that the map does not have.
unfoldable pub set_button : Option Button → Bool → Pad → Pad
set_button none pressed p = p
set_button (some b) pressed p = record p {
  btn_status = set_bit (btn_index b) (if pressed then 0 else 1) p.btn_status;
}

unfoldable pub update_status : ButtonType → Option Button → Bool → Pad → Pad
update_status ty name pressed p =
    if is_analog p.mode
    then (if is_normal ty then set_button name pressed p else p)
    else set_button name pressed p

-- `m_response.queue` of each of the bytes.
unfoldable pub enqueue : List ℕ → Queue ℕ → Option (Queue ℕ)
enqueue [] q = some q
enqueue (x ∷ xs) q = queue x q >>= enqueue xs
