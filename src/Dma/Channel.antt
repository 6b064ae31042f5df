-- ===== src/Dma/Channel.antt =====
-- A channel of the DMA controller: psxemu/include/psxemu/DmaBase.hpp, DmaCommon.hpp and
-- psxemu/source/psxemu/DmaBase.cpp. Where the code stops at `__debugbreak`, the model has none.
use psx.Base.{
  ℕ, ◌+◌, ◌-◌, ◌*◌, ◌/◌, ◌%◌, ◌^◌, bit_and, bit_or, Bool, true, false, not, ◌&&◌, ◌||◌, Option,
  none, some, ◌==◌, leb, ltb, if◌then◌else◌,
}
use psx.Base.Words.{bit, set_bit, add32, sub32}
use psx.Cpu.State.{Status, ◌>>=◌}
use psx.Dma.Control.{signal_exception, interrupt_request}
use psx.Dma.Active.{Controller, channel_enabled, add_transfer, remove_transfer}

-- What a channel needs of the bus and of its device: `read` and `write` are the accesses of a transfer,
-- `header` those that count no time, and `dreq` and `port` the virtual functions of the class.
pub record Device : Type 1 where
  pub State : Type 0
  pub read : ℕ → Status → State → Option (ℕ × Status × State)
  pub header : ℕ → Status → State → Option (ℕ × Status × State)
  pub write : ℕ → ℕ → Status → State → Option (Status × State)
  pub add_cycles : ℕ → State → State
  pub dreq : State → Bool
  pub port : ℕ

-- `DmaBase`. `control` is the raw register CHCR.
pub record Channel : Type 0 where
  pub id : ℕ
  pub shadow_base_address : ℕ
  pub shadow_block_control : ℕ
  pub base_address : ℕ
  pub block_control : ℕ
  pub control : ℕ
  pub words_rem : ℕ
  pub blocks_rem : ℕ
  pub next_block_add : ℕ
  pub curr_address : ℕ
  pub running : Bool
  pub transfer_active : Bool

-- A channel with its controller, the status, and the bus with the device.
pub record Site (State : Type 0) : Type 0 where
  pub channel : Channel
  pub controller : Controller
  pub status : Status
  pub state : State

-- The bit-fields of `CHCR` and `SliceBlockControl`.
abbrev pub transfer_dir : Channel → Bool
transfer_dir c = bit 0 c.control == 1

abbrev pub decrement : Channel → Bool
decrement c = bit 1 c.control == 1

abbrev pub chopping : Channel → Bool
chopping c = bit 8 c.control == 1

abbrev pub sync : Channel → ℕ
sync c = c.control / 2 ^ 9 % 4

abbrev pub start_busy : ℕ → Bool
start_busy control = bit 24 control == 1

abbrev pub force_start : ℕ → Bool
force_start control = bit 28 control == 1

abbrev pub blocksize : ℕ → ℕ
blocksize raw = raw % 2 ^ 16

abbrev pub block_count : ℕ → ℕ
block_count raw = raw / 2 ^ 16 % 2 ^ 16

-- `x & 0xFFFFFC`.
abbrev pub aligned : ℕ → ℕ
aligned x = x % 2 ^ 24 - x % 4

unfoldable pub next_address : Bool → ℕ → ℕ
next_address down address = aligned (if down then sub32 address 4 else add32 address 4)

-- The first lines of `TransferStart`.
unfoldable pub load_shadow : Channel → Channel
load_shadow c = record c {
  transfer_active = true;
  shadow_base_address = c.base_address;
  shadow_block_control =
      if blocksize c.block_control == 0 && sync c == 0 then 0x10000 else c.block_control;
  curr_address = c.base_address;
}

unfoldable pub load_burst : Channel → Channel
load_burst c = record c {
  words_rem =
      if blocksize c.shadow_block_control == 0 then 0x10000 else blocksize c.shadow_block_control;
}

unfoldable pub load_slice : Bool → Channel → Channel
load_slice resume c = record c {
  words_rem = blocksize c.shadow_block_control;
  blocks_rem = if resume then c.blocks_rem else block_count c.shadow_block_control;
}

module _ (device : Device) where
  abbrev pub Place : Type 0
  Place = Site (device.State)

  abbrev pub with_channel : Place → Channel → Place
  with_channel s c = record s { channel = c }

  -- The header of a block at `address`, after which the words are at `first`.
  unfoldable pub load_header : ℕ → ℕ → Place → Option Place
  load_header address first s = device.header address s.status s.state >>= λ r. some (record s {
    status = r.1;
    state = r.2;
    channel = record (s.channel) {
      words_rem = r.0 / 2 ^ 24 % 2 ^ 8;
      next_block_add = aligned (r.0);
      curr_address = first;
    };
  })

  unfoldable pub load_linked : Bool → Place → Option Place
  load_linked resume s =
      if resume
      then load_header s.channel.next_block_add (add32 s.channel.next_block_add 4) s
      else load_header s.channel.curr_address (add32 s.channel.curr_address 4) s

  -- The transfer takes its place in the queue.
  unfoldable pub enter_queue : Place → Option Place
  enter_queue s = add_transfer s.channel.id s.controller >>= λ c. some (record s {
    controller = c;
    channel = record (s.channel) { control = set_bit 28 0 s.channel.control; running = true };
  })

  -- `TransferStart`.
  unfoldable pub transfer_start : Bool → Place → Option Place
  transfer_start resume s =
      let c = load_shadow s.channel in
      if not (channel_enabled s.channel.id s.controller)
      then some s
      else if chopping s.channel
      then none
      else if sync c == 0
      then enter_queue (with_channel s (load_burst c))
      else if sync c == 1
      then enter_queue (with_channel s (load_slice resume c))
      else if sync c == 2
      then load_linked resume (with_channel s c) >>= enter_queue
      else some (with_channel s c)

  -- The interrupt of the channel, at the end of a block or of the transfer.
  unfoldable pub request_interrupt : Bool → Place → Place
  request_interrupt last s =
      let (d, status) = interrupt_request s.channel.id last s.controller.int_control s.status in
      record s { controller = record (s.controller) { int_control = d }; status = status }

  -- `TransferEnd`.
  unfoldable pub transfer_end : Bool → Place → Place
  transfer_end last s =
      let c =
        if last
        then record (s.channel) {
          control = set_bit 24 0 s.channel.control;
          transfer_active = false;
        }
        else s.channel in
      let t =
        request_interrupt last
          (record s { channel = c; controller = remove_transfer s.controller }) in
      record t { channel = record (t.channel) { running = false } }

  unfoldable pub check_exception : Place → Place
  check_exception s =
      let (d, status) = signal_exception s.controller.int_control s.status in
      if s.status.exception
      then record s { controller = record (s.controller) { int_control = d }; status = status }
      else s

  -- The lines after the accesses of a word.
  unfoldable pub finish_word : ℕ → Place → Place
  finish_word cycles s =
      let t = check_exception s in
      record t {
        channel = record (t.channel) {
          curr_address = next_address (decrement t.channel) t.channel.curr_address;
          words_rem = sub32 t.channel.words_rem 1;
        };
        state = device.add_cycles cycles t.state;
      }

  -- A word goes from one address to another.
  unfoldable pub copy_word : ℕ → ℕ → Place → Option Place
  copy_word from to s = device.read from s.status s.state >>= λ r.
      device.write to (r.0) (r.1) (r.2) >>= λ w. some (record s { status = w.0; state = w.1 })

  unfoldable pub move_word : Place → Option Place
  move_word s =
      if transfer_dir s.channel
      then copy_word s.channel.curr_address device.port s
      else copy_word device.port s.channel.curr_address s

  -- `DoLinked`.
  unfoldable pub do_linked : Place → Option Place
  do_linked s =
      let next = s.channel.next_block_add in
      if s.channel.words_rem == 0
      then (if bit 23 next == 1
          then some (transfer_end true s)
          else if device.dreq s.state
          then load_header next (add32 next 4) (request_interrupt false s)
          else some (transfer_end false s))
      else if transfer_dir s.channel
      then (move_word s >>= λ t. some (finish_word 2 t))
      else none

  -- The end of a block of `DoSlice`.
  unfoldable pub end_block : Place → Place
  end_block s =
      let raw = s.channel.shadow_block_control in
      let left = sub32 s.channel.blocks_rem 1 in
      let t = with_channel s (record (s.channel) {
        blocks_rem = left;
        shadow_block_control = blocksize raw + (block_count raw + 2 ^ 16 - 1) % 2 ^ 16 * 2 ^ 16;
      }) in
      let u = request_interrupt false t in
      if left == 0 || left == 2 ^ 32 - 1
      then transfer_end true t
      else if device.dreq t.state
      then with_channel u (record (u.channel) { words_rem = blocksize raw })
      else transfer_end false t

  -- `DoSlice`.
  unfoldable pub do_slice : Place → Option Place
  do_slice s =
      if s.channel.words_rem == 0
      then some (end_block s)
      else move_word s >>= λ t. some (finish_word 2 t)

  -- `AdvanceTransfer`; `DoBurst` of the class stops at once.
  unfoldable pub advance_transfer : Place → Option Place
  advance_transfer s =
      if sync s.channel == 2 then do_linked s else if sync s.channel == 1 then do_slice s else none

  -- `Write`: a start that the program or the device asks for.
  unfoldable pub write_control : ℕ → Place → Option Place
  write_control value s =
      let old = s.channel.control in
      let t = with_channel s (record (s.channel) { control = value }) in
      let start_edge = not (start_busy old) && start_busy value in
      let force_edge = not (force_start old) && force_start value in
      if force_edge || start_edge && sync t.channel == 0 || start_edge && device.dreq t.state
      then transfer_start false t
      else some t

  unfoldable pub write_channel : ℕ → ℕ → ℕ → Place → Option Place
  write_channel address value mask s =
      let c = s.channel in
      if ltb address 4
      then some (with_channel s (record c { base_address = value % 2 ^ 24 }))
      else if leb 4 address && ltb address 8
      then some (
          with_channel s (record c {
            block_control =
                bit_or (bit_and c.block_control (2 ^ 32 - 1 - mask)) (bit_and value mask);
          }))
      else if leb 8 address && ltb address 12
      then write_control value s
      else some s

  unfoldable pub read_channel : ℕ → Place → ℕ
  read_channel address s =
      if ltb address 4
      then s.channel.base_address
      else if leb 4 address && ltb address 8
      then s.channel.block_control
      else if leb 8 address && ltb address 12
      then s.channel.control
      else 0

  -- `DreqRisingEdge` of the graphics, drive and sound channels.
  unfoldable pub dreq_rising_edge : Place → Option Place
  dreq_rising_edge s =
      if not (start_busy s.channel.control) || s.channel.running
      then some s
      else transfer_start s.channel.transfer_active s
