-- ===== src/Scheduler/Finish.antt =====
-- `Advance` comes to its end, and by then no event that was due is left.
use mathlib.Core.List.{not-mem-nil, Mem, Perm, mem-append_right}
use mathlib.Core.List.Perm
use psx.Base.{
  if_either, ℕ, zero, suc, ◌≤◌, ◌<◌, ◌≡◌, ◌∙◌, refl, sym, ap, Bool, none, some, List, [], ◌++◌,
  ◌==◌, if◌then◌else◌, length, arith, inl, inr,
}
use psx.Base.Words.{add64}
use psx.Cpu.State.{◌>>=◌}
use psx.Scheduler.State.{Event, Heap, Scheduler, max_events}
use psx.Scheduler.Advance.{next_due, call_and_pop, fire, advance_loop, advance}
use psx.Scheduler.Due.{
  due_count, due_count-perm, due_count-append, due_count-late, due_count-le-length, Shorter,
  next_due-cases, pop_events-Shorter,
}

-- What a callback may do to the queue: add events that are later than the end.
pub record OnlyLater (heap : Heap) (final : ℕ) (before after : List Event) : Type 0 where
  pub heap_after : heap.IsHeap after
  pub added : List Event
  pub later : (e : Event) → Mem e added → final < e.trigger_timestamp
  pub same : Perm after (added ++ before)

-- The queue after `Advance`.
pub record Finished (heap : Heap) (final : ℕ) (before after : List Event) : Type 0 where
  pub heap_after : heap.IsHeap after
  pub none_due : (e : Event) → Mem e after → final < e.trigger_timestamp
  pub kept : (e : Event) → Mem e before → final < e.trigger_timestamp → Mem e after

module _ (heap : Heap) (final : ℕ) where
  pub OnlyLater-refl : (xs : List Event) → heap.IsHeap xs → OnlyLater heap final xs xs
  OnlyLater-refl xs h = record {
    heap_after = h;
    added = [];
    later = λ e m. absurd (not-mem-nil m);
    same = Perm.rfl;
  }

  -- What was in the queue is in it still.
  OnlyLater-mem :
      {before after : List Event}
      → OnlyLater heap final before after
      → (e : Event) → Mem e before
      → Mem e after
  OnlyLater-mem o e m = (Perm.mem_iff o.same).1 (mem-append_right o.added m)

  OnlyLater-due_count :
      {before after : List Event}
      → OnlyLater heap final before after
      → due_count final after ≡ due_count final before
  OnlyLater-due_count {before} {after} o = omega (
    arith,
    due_count-perm final o.same,
    due_count-append final o.added before,
    due_count-late final o.added o.later,
  )

  Shorter-after :
      {before called after : List Event}
      → OnlyLater heap final before called
      → Shorter heap final called after
      → Shorter heap final before after
  Shorter-after o s = record {
    heap_after = s.heap_after;
    one_less = sym (OnlyLater-due_count o) ∙ s.one_less;
    kept = λ e m lt. s.kept e (OnlyLater-mem o e m) lt;
  }

  Finished-after :
      {before next after : List Event}
      → Shorter heap final before next
      → Finished heap final next after
      → Finished heap final before after
  Finished-after s f = record {
    heap_after = f.heap_after;
    none_due = f.none_due;
    kept = λ e m lt. f.kept e (s.kept e m lt) lt;
  }

module _ (heap : Heap) (final : ℕ) {W : Type 0}
    (call : ℕ → ℕ → ℕ → Scheduler × W → Scheduler × W) where
  pub advance_loop-none :
      (ignore : Bool) (fuel : ℕ) (t : Scheduler × W)
      → next_due final (t.0.events) ≡ none
      → advance_loop heap call (suc fuel) final ignore t ≡ some t
  unfolding advance_loop
  advance_loop-none ignore fuel t e = rw (advance_loop, e) refl

  -- A turn of the loop in which an event fires.
  pub advance_loop-fire :
      (ignore : Bool) (fuel : ℕ) (event : Event) (t u : Scheduler × W)
      → next_due final (t.0.events) ≡ some event
      → fire heap call final ignore event t ≡ some u
      → advance_loop heap call (suc fuel) final ignore t
        ≡ advance_loop heap call fuel final ignore u
  unfolding advance_loop
  advance_loop-fire ignore fuel event t u e fired = rw (advance_loop, e, fired) refl

-- No callback schedules an event that is due at `final`.
abbrev pub IsLater :
    (heap : Heap) (final : ℕ) {W : Type 0} → (ℕ → ℕ → ℕ → Scheduler × W → Scheduler × W) → Type 0
IsLater heap final {W} call =
    (callback user late : ℕ) (t : Scheduler × W)
    → heap.IsHeap (t.0.events)
    → OnlyLater heap final (t.0.events) ((call callback user late t).0.events)

module _ (heap : Heap) (final : ℕ) {W : Type 0} (call : ℕ → ℕ → ℕ → Scheduler × W → Scheduler × W)
    (is_later : IsLater heap final call) where
  call_and_pop-Shorter :
      (event : Event) (late : ℕ) (t : Scheduler × W)
      → heap.IsHeap (t.0.events)
      → Mem event (t.0.events)
      → event.trigger_timestamp ≤ final
      → (r : Scheduler × W) × (call_and_pop heap call event late t ≡ some r)
        × Shorter heap final (t.0.events) (r.0.events)
  unfolding call_and_pop
  call_and_pop-Shorter event late t h m le =
      let called = if event.callback == 0 then t else call event.callback event.userdata late t in
      let o =
        if_either (λ (u : Scheduler × W). OnlyLater heap final (t.0.events) (u.0.events))
          (event.callback == 0) (OnlyLater-refl heap final (t.0.events) h)
          (is_later event.callback event.userdata late t h) in
      let (zs, e, s) =
        pop_events-Shorter heap final event (called.0.events) o.heap_after
          (OnlyLater-mem heap final o event m) le in
      (
        (record (called.0) { events = zs }, called.1),
        ap (λ xs. xs >>= λ zs. some (record (called.0) { events = zs }, called.1)) e,
        Shorter-after heap final o s,
      )

  fire-Shorter :
      (ignore : Bool) (event : Event) (t : Scheduler × W)
      → heap.IsHeap (t.0.events)
      → Mem event (t.0.events)
      → event.trigger_timestamp ≤ final
      → (r : Scheduler × W) × (fire heap call final ignore event t ≡ some r)
        × Shorter heap final (t.0.events) (r.0.events)
  unfolding fire
  fire-Shorter ignore event (s, w) h m le = call_and_pop-Shorter event _ (_, w) h m le

  advance_loop-Finished :
      (ignore : Bool) (fuel : ℕ) (t : Scheduler × W)
      → heap.IsHeap (t.0.events)
      → due_count final (t.0.events) < fuel
      → (r : Scheduler × W) × (advance_loop heap call fuel final ignore t ≡ some r)
        × Finished heap final (t.0.events) (r.0.events)
  unfolding advance_loop
  advance_loop-Finished ignore zero t h lt = absurd (omega (arith, lt))
  advance_loop-Finished ignore (suc fuel) t h lt = elim (next_due-cases heap final (t.0.events) h) [
    | inl (e, late) ↦ (
      t,
      advance_loop-none heap final call ignore fuel t e,
      record { heap_after = h; none_due = late; kept = λ x m p. m },
    )
    | inr (event, e, m, le) ↦
        let (u, fired, s) = fire-Shorter ignore event t h m le in
        let (r, run, f) =
          advance_loop-Finished ignore fuel u s.heap_after (omega (arith, s.one_less)) in
        (
          r,
          advance_loop-fire heap final call ignore fuel event t u e fired ∙ run,
          Finished-after heap final s f,
        )
  ]

-- The queue is a heap of at most 60 events, and no callback, given a heap, does more to it than add
-- events later than the end. Then `Advance` returns, with fuel for 60 events and one turn more: the
-- time is then the end, no event of the queue is due, and each event of the queue before it that was
-- later than the end is in it still.
pub advance_finishes :
    (heap : Heap) {W : Type 0} (call : ℕ → ℕ → ℕ → Scheduler × W → Scheduler × W) (cycles : ℕ)
    (ignore : Bool) (s : Scheduler) (w : W)
    → heap.IsHeap s.events
    → length s.events ≤ max_events
    → IsLater heap (add64 s.curr_timestamp cycles) call
    → (r : Scheduler × W) × (advance heap call (suc max_events) cycles ignore (s, w) ≡ some r)
      × (r.0.curr_timestamp ≡ add64 s.curr_timestamp cycles)
      × Finished heap (add64 s.curr_timestamp cycles) s.events (r.0.events)
unfolding advance
advance_finishes heap call cycles ignore s w h size is_later =
    let final = add64 s.curr_timestamp cycles in
    let (r, run, f) =
      advance_loop-Finished heap final call is_later ignore (suc max_events) (s, w) h
        (omega (arith, due_count-le-length final s.events, size)) in
    ((record (r.0) { curr_timestamp = final }, r.1), rw run refl, refl, f)
