-- ===== src/Scheduler/Change.antt =====
-- What `Schedule` and `Deschedule` do to the queue.
use mathlib.Core.List.{Permᴰ, Mem, Perm, perm_append_singleton, not-mem-nil, forall_mem-cons}
use mathlib.Core.HLevel.{¬_prop}
use native.Mathlib.Decide.{ℕ_discrete}
use native.Mathlib.Bridge.{le_prop}
use mathlib.Core.List.Perm
use mathlib.Core.Logic.{∥∥₁_elim}
use native.Mathlib.Nat.{ℕ_set}
use psx.Base.Words.{add64}
use psx.Base.{
  ◌^◌, ◌≤◌, suc, ◌∙◌, ap, ℕ, ◌<◌, ◌≡◌, ◌≢◌, ◌⊎◌, inl, inr, refl, true, false, none, some, List, [],
  ◌∷◌, ◌==◌, length, arith, if_either,
}
use psx.Scheduler.State.{
  Event, Heap, Scheduler, front, last_from, take_out, schedule, new_event, schedule_absolute,
  deschedule, max_events,
}
use psx.Scheduler.Finish.{OnlyLater, OnlyLater-refl}

-- The list without its last element, and that element.
last-perm : (y : Event) (xs : List Event) → Perm (last_from y xs ∷ front (y ∷ xs)) (y ∷ xs)
last-perm y [] = Perm.rfl
last-perm y (z ∷ zs) =
    Perm.trans (Perm.swap y (last_from z zs) (front (z ∷ zs))) (Perm.cons y (last-perm z zs))

take_out-cases :
    (id : ℕ) (xs : List Event)
    → ((take_out id xs ≡ none) × ((x : Event) → Mem x xs → x.event_id ≢ id))
      ⊎ ((x : Event) × (zs : List Event) × (take_out id xs ≡ some zs)
          × (x.event_id ≡ id)
          × Perm (x ∷ zs) xs)
unfolding take_out
take_out-cases id [] = inl (refl, λ x m. absurd (not-mem-nil m))
take_out-cases id (x ∷ []) = elim (ℕ_discrete x.event_id id) [
  | yes p ↦ inr (x, [], ground arith, p, Perm.rfl)
  | no p ↦ inl (ground arith, (forall_mem-cons λ y. ¬_prop).1 (p, λ y m. absurd (not-mem-nil m)))
]
take_out-cases id (x ∷ y ∷ xs) = elim (ℕ_discrete x.event_id id) [
  | yes p ↦ inr (x, last_from y xs ∷ front (y ∷ xs), ground arith, p, Perm.cons x (last-perm y xs))
  | no p ↦ elim (take_out-cases id (y ∷ xs)) [
    | inl (e, other) ↦ inl (ground (arith, e), (forall_mem-cons λ y. ¬_prop).1 (p, other))
    | inr (z, zs, e, q, same) ↦
        inr (z, x ∷ zs, ground (arith, e), q, Perm.trans (Perm.swap x z zs) (Perm.cons x same))
  ]
]

-- `Deschedule` answers false and changes nothing where no event has the identifier. Else it answers true, and
-- removes one event with the identifier: the rest of the queue is what it was but for
-- the order, and a heap again.
pub deschedule_cases :
    (heap : Heap) (id : ℕ) (s : Scheduler)
    → ((deschedule heap id s ≡ (false, s)) × ((x : Event) → Mem x s.events → x.event_id ≢ id))
      ⊎ ((x : Event) × (xs : List Event) × (deschedule heap id s ≡ (true, record s { events = xs }))
          × (x.event_id ≡ id)
          × Perm (x ∷ xs) s.events
          × heap.IsHeap xs)
unfolding deschedule
deschedule_cases heap id s = elim (take_out-cases id s.events) [
  | inl (e, other) ↦ inl (rw (deschedule, e) refl, other)
  | inr (x, zs, e, q, same) ↦ inr (
    x,
    heap.make_heap zs,
    rw (deschedule, e) refl,
    q,
    Perm.trans (Perm.cons x (heap.make_same zs)) same,
    heap.made zs,
  )
]

-- `ScheduleAbsolute` keeps the heap and adds one event for a time that is later than the end, so that
-- it is among the changes that a callback may make.
pub schedule_absolute-OnlyLater :
    (heap : Heap) (final timestamp callback user : ℕ) (s : Scheduler)
    → heap.IsHeap s.events
    → final < timestamp
    → OnlyLater heap final s.events ((schedule_absolute heap timestamp callback user s).1.events)
unfolding schedule_absolute new_event
schedule_absolute-OnlyLater heap final timestamp callback user s h lt =
    if_either (λ (r : ℕ × Scheduler). OnlyLater heap final s.events (r.1.events))
      (length s.events == max_events) (OnlyLater-refl heap final s.events h)
      record {
        heap_after = heap.pushed s.events (new_event timestamp callback user s) h;
        added = new_event timestamp callback user s ∷ [];
        later = (forall_mem-cons λ y. le_prop).1 (lt, λ y m. absurd (not-mem-nil m));
        same =
            Perm.trans (heap.push_same _)
              (perm_append_singleton (new_event timestamp callback user s) s.events);
      }

length-permᴰ : {xs ys : List Event} → Permᴰ xs ys → length xs ≡ length ys
length-permᴰ Permᴰ.nil = refl
length-permᴰ (Permᴰ.cons e p) = ap suc (length-permᴰ p)
length-permᴰ (Permᴰ.swap e f) = refl
length-permᴰ (Permᴰ.trans p q) = length-permᴰ p ∙ length-permᴰ q

pub length-perm : {xs ys : List Event} → Perm xs ys → length xs ≡ length ys
length-perm p = ∥∥₁_elim p (ℕ_set _ _) length-permᴰ

-- `Deschedule` makes no event and counts none.
pub deschedule-length :
    (heap : Heap) (id : ℕ) (s : Scheduler)
    → (length ((deschedule heap id s).1.events) ≤ length s.events)
      × ((deschedule heap id s).1.last_id ≡ s.last_id)
      × ((deschedule heap id s).1.curr_timestamp ≡ s.curr_timestamp)
deschedule-length heap id s = elim (deschedule_cases heap id s) [
  | inl (e, other) ↦ rw e (omega arith, refl, refl)
  | inr (x, xs, e, q, same, h) ↦ rw e (omega (arith, length-perm same), refl, refl)
]

room_left : {n : ℕ} → n < max_events → (n == max_events) ≡ false
room_left lt = ground arith

-- With room in the queue, `Schedule` answers the identifier of the event that it adds.
pub schedule_adds :
    (heap : Heap) (cycles callback user : ℕ) (s : Scheduler)
    → length s.events < max_events
    → s.last_id < 2 ^ 64
    → ((schedule heap cycles callback user s).0 ≡ s.last_id)
      × Perm
          ((schedule heap cycles callback user s).1.events)
          (new_event (add64 s.curr_timestamp cycles) callback user s ∷ s.events)
unfolding schedule schedule_absolute
schedule_adds heap cycles callback user s room ids =
    let event = new_event (add64 s.curr_timestamp cycles) callback user s in
    rw (room_left room)
      (omega arith, Perm.trans (heap.push_same _) (perm_append_singleton event s.events))
