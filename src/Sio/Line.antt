-- ===== src/Sio/Line.antt =====
-- What the serial port and its devices call: the abstract classes of
-- psxemu/include/psxemu/SIOAbstractDevice.hpp, AbstractController.hpp and AbstractMemcard.hpp, and the part of
-- the scheduler that the port uses.
use psx.Base.{ℕ, suc, ◌≢◌, Bool, Option}
use psx.Scheduler.State.{invalid_event}

-- `SIOAbstractDevice`: `send` gives the answer and `has_data`, and none where the code stops.
pub record Line : Type 1 where
  pub State : Type 0
  pub send : ℕ → State → Option (ℕ × Bool × State)
  pub ack : State → Bool × State
  pub unselect : State → State

-- `AbstractController` and `AbstractMemcard`, as far as the driver calls them.
pub record Plugged : Type 1 where
  pub State : Type 0
  pub send : ℕ → State → Option (ℕ × State)
  pub ack : State → Bool × State
  pub reset : State → State

-- The events of the port, all with the one callback `transfer_end_callback`.
pub record Alarm : Type 1 where
  pub Queue : Type 0
  pub schedule : ℕ → Queue → ℕ × Queue
  pub deschedule : ℕ → Queue → Queue

-- When a queue has room for a number of events, one at a time: then an event is scheduled, and room for one
-- less is left when it is taken back.
pub record Rooms (alarm : Alarm) : Type 1 where
  pub HasRoom : ℕ → alarm.Queue → Type 0
  pub scheduled :
      (n cycles : ℕ) (q : alarm.Queue)
      → HasRoom (suc n) q
      → (alarm.schedule cycles q).0 ≢ invalid_event
  pub taken_back :
      (n cycles : ℕ) (q : alarm.Queue)
      → HasRoom (suc n) q
      → HasRoom n (alarm.deschedule ((alarm.schedule cycles q).0) ((alarm.schedule cycles q).1))
