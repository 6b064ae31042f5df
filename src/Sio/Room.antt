-- ===== src/Sio/Room.antt =====
-- The scheduler of psxemu/source/psxemu/Scheduler.cpp as that of the port, and the room in its queue.
use mathlib.Core.List.{mem-cons_self}
use mathlib.Core.List.Perm
use psx.Base.{ap, Bool, ◌%◌, ℕ, suc, ◌+◌, ◌^◌, ◌<◌, ◌≡◌, ◌≢◌, sym, inl, inr, length, arith}
use psx.Scheduler.State.{
  Heap, Scheduler, schedule, schedule_absolute, deschedule, new_event, max_events, invalid_event,
}
use psx.Scheduler.Change.{schedule_adds, deschedule_cases, length-perm}
use psx.Sio.Line.{Alarm, Rooms}

-- `callback` is the address of `transfer_end_callback`, and `user` that of the port.
abbrev pub scheduler_alarm : Heap → ℕ → ℕ → Alarm
scheduler_alarm heap callback user = record {
  Queue = Scheduler;
  schedule = λ cycles q. schedule heap cycles callback user q;
  deschedule = λ id q. (deschedule heap id q).1;
}

-- A free place in the queue, and identifiers left that are not the invalid one.
pub record IsFree (n : ℕ) (q : Scheduler) : Type 0 where
  pub places : length q.events < max_events
  pub ids : q.last_id + n < 2 ^ 64

module _ (heap : Heap) (callback user : ℕ) where
  pub scheduled :
      (n cycles : ℕ) (q : Scheduler)
      → IsFree (suc n) q
      → (schedule heap cycles callback user q).0 ≢ invalid_event
  scheduled n cycles q f =
      let (id, same) = schedule_adds heap cycles callback user q f.places (omega (arith, f.ids)) in
      λ e. absurd (omega (arith, id, e, f.ids))

  last_id_lem :
      (cycles : ℕ) (q : Scheduler)
      → length q.events < max_events
      → (schedule heap cycles callback user q).1.last_id ≡ (q.last_id + 1) % 2 ^ 64
  unfolding schedule schedule_absolute
  last_id_lem cycles q room = ground arith

  pub taken_back :
      (n cycles : ℕ) (q : Scheduler)
      → IsFree (suc n) q
      → let (id, after) = schedule heap cycles callback user q in
        IsFree n ((deschedule heap id after).1)
  unfolding new_event
  taken_back n cycles q f =
      let (id, same) = schedule_adds heap cycles callback user q f.places (omega (arith, f.ids)) in
      let after = (schedule heap cycles callback user q).1 in
      elim (deschedule_cases heap ((schedule heap cycles callback user q).0) after) [
        | inl (e, other) ↦ absurd (other _ ((Perm.mem_iff same).1 mem-cons_self) (sym id))
        | inr (x, xs, e, found, rest, h) ↦ record {
          places = omega (
            arith,
            ap (λ (r : Bool × Scheduler). length (r.1.events)) e,
            length-perm rest,
            length-perm same,
            f.places,
          );
          ids = omega (
            arith,
            ap (λ (r : Bool × Scheduler). r.1.last_id) e,
            last_id_lem cycles q f.places,
            f.ids,
          );
        }
      ]

  abbrev pub scheduler_rooms : Rooms (scheduler_alarm heap callback user)
  scheduler_rooms = record { HasRoom = IsFree; scheduled = scheduled; taken_back = taken_back }
