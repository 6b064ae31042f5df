-- ===== src/Scheduler/State.antt =====
-- The queue of events and the operations on it: `Schedule`, `ScheduleAbsolute` and `Deschedule` of
-- psxemu/source/psxemu/Scheduler.cpp.
use mathlib.Core.List.{Mem, Perm}
use psx.Base.{
  ℕ, ◌-◌, ◌^◌, ◌≤◌, ◌≡◌, Bool, true, false, Option, none, some, List, [], ◌∷◌, ◌++◌, ◌==◌,
  if◌then◌else◌, length,
}
use psx.Base.Words.{add64, sub64}

-- `callback` is the address of a function, 0 for none, and `userdata` the address that it is given.
pub record Event : Type 0 where
  pub event_id : ℕ
  pub registered_timestamp : ℕ
  pub trigger_timestamp : ℕ
  pub callback : ℕ
  pub userdata : ℕ

-- The heap operations of the standard library on a range ordered by the trigger, with what is
-- documented of them: the root comes first, `push_heap` puts the last element into the heap
-- before it, and `pop_heap` moves the root to the end.
pub record Heap : Type 1 where
  pub IsHeap : List Event → Type 0
  pub push_heap : List Event → List Event
  pub pop_heap : List Event → List Event
  pub make_heap : List Event → List Event
  pub empty : IsHeap []
  pub root :
      (x : Event) (xs : List Event)
      → IsHeap (x ∷ xs)
      → (y : Event) → Mem y xs
      → x.trigger_timestamp ≤ y.trigger_timestamp
  pub pushed : (xs : List Event) (x : Event) → IsHeap xs → IsHeap (push_heap (xs ++ x ∷ []))
  pub push_same : (xs : List Event) → Perm (push_heap xs) xs
  pub popped :
      (x : Event) (xs : List Event)
      → IsHeap (x ∷ xs)
      → (ys : List Event) × (pop_heap (x ∷ xs) ≡ ys ++ x ∷ []) × IsHeap ys × Perm ys xs
  pub made : (xs : List Event) → IsHeap (make_heap xs)
  pub make_same : (xs : List Event) → Perm (make_heap xs) xs

-- `events` is the first `m_num_events` elements of the array.
pub record Scheduler : Type 0 where
  pub curr_timestamp : ℕ
  pub last_id : ℕ
  pub events : List Event

abbrev pub max_events : ℕ
max_events = 60

abbrev pub invalid_event : ℕ
invalid_event = 2 ^ 64 - 1

-- All elements but the last: what is left of the range after `m_num_events--`.
abbrev pub front {ℓ} : {A : Type ℓ} → List A → List A
front [] = []
front (x ∷ []) = []
front (x ∷ y ∷ xs) = x ∷ front (y ∷ xs)

-- The last element, for a list that begins with `x`.
abbrev pub last_from {ℓ} : {A : Type ℓ} → A → List A → A
last_from x [] = x
last_from x (y ∷ xs) = last_from y xs

-- The `find_if`, the `swap` with the last element and `m_num_events--` of `Deschedule`.
unfoldable pub take_out : ℕ → List Event → Option (List Event)
take_out id [] = none
take_out id (x ∷ []) = if x.event_id == id then some [] else none
take_out id (x ∷ y ∷ xs) =
    let rest = take_out id (y ∷ xs) in
    if x.event_id == id
    then some (last_from y xs ∷ front (y ∷ xs))
    else elim rest [ none ↦ none | some zs ↦ some (x ∷ zs) ]

unfoldable pub new_event : ℕ → ℕ → ℕ → Scheduler → Event
new_event timestamp callback user s = record {
  event_id = s.last_id;
  registered_timestamp = s.curr_timestamp;
  trigger_timestamp = timestamp;
  callback = callback;
  userdata = user;
}

module _ (heap : Heap) where
  open heap use {push_heap, make_heap}

  unfoldable pub schedule_absolute : ℕ → ℕ → ℕ → Scheduler → ℕ × Scheduler
  schedule_absolute timestamp callback user s =
      let last_id = add64 s.last_id 1 in
      let events = push_heap (s.events ++ new_event timestamp callback user s ∷ []) in
      if length s.events == max_events
      then (invalid_event, s)
      else (sub64 last_id 1, record s { last_id = last_id; events = events })

  unfoldable pub schedule : ℕ → ℕ → ℕ → Scheduler → ℕ × Scheduler
  schedule cycles callback user s =
      schedule_absolute (add64 s.curr_timestamp cycles) callback user s

  unfoldable pub deschedule : ℕ → Scheduler → Bool × Scheduler
  deschedule id s = elim (take_out id s.events) [
    | none ↦ (false, s)
    | some xs ↦ (true, record s { events = make_heap xs })
  ]
