-- ===== src/Scheduler/Order.antt =====
-- The order in which `Advance` calls the callbacks, seen by callbacks that note their calls down.
use mathlib.Core.List.{
  Mem, Perm, Pairwise, append-nil, append_assoc, mem-append_left, not-mem-nil, forall_mem-cons,
}
use native.Mathlib.Bridge.{le_prop}
use native.Mathlib.Decide.{dec_lt}
use mathlib.Core.List.Perm
use psx.Base.{
  ℕ, zero, suc, ◌-◌, ◌≤◌, ◌<◌, ◌≡◌, refl, sym, ◌∙◌, Bool, some, List, [], ◌∷◌, ◌++◌, ◌==◌,
  if◌then◌else◌, arith, ap, true, false, length,
}
use psx.Base.Words.{add64}
use psx.Cpu.State.{◌>>=◌}
use psx.Scheduler.State.{Event, Heap, Scheduler, front, max_events}
use psx.Scheduler.Advance.{next_due, pop_events, call_and_pop, fire, advance_loop, advance}
use psx.Scheduler.Finish.{advance_loop-none, advance_loop-fire}
use psx.Scheduler.Due.{
  due_count, due_count-fewer, due_count-le-length, root_least, front-append_singleton,
}

-- A call: the address of the callback, its data and the late cycles.
abbrev pub Call : Type 0
Call = ℕ × ℕ × ℕ

unfoldable pub note : ℕ → ℕ → ℕ → Scheduler × List Call → Scheduler × List Call
note callback user late (s, log) = (s, log ++ (callback, user, late) ∷ [])

-- The calls for a sequence of events; an event without a callback makes none.
unfoldable pub calls : ℕ → Bool → List Event → List Call
calls final ignore [] = []
calls final ignore (x ∷ xs) =
    let rest = calls final ignore xs in
    let late = if ignore then 0 else final - x.trigger_timestamp in
    if x.callback == 0 then rest else (x.callback, x.userdata, late) ∷ rest

-- What `Advance` did to the queue and to the log.
pub record InOrder (final : ℕ) (ignore : Bool) (before after : List Event) (log new : List Call)
    : Type 0 where
  pub fired : List Event
  pub sorted : Pairwise (λ x y. x.trigger_timestamp ≤ y.trigger_timestamp) fired
  pub due : (e : Event) → Mem e fired → e.trigger_timestamp ≤ final
  pub none_due : (e : Event) → Mem e after → final < e.trigger_timestamp
  pub same : Perm (fired ++ after) before
  pub logged : new ≡ log ++ calls final ignore fired

note_either :
    (b : Bool) (s : Scheduler) (log : List Call) (c : Call)
    → ◌≡◌ {A = Scheduler × List Call}
        (if b then (s, log) else (s, log ++ c ∷ []))
        (s, if b then log else log ++ c ∷ [])
note_either true s log c = refl
note_either false s log c = refl

calls_either :
    (b : Bool) (log rest : List Call) (c : Call)
    → (if b then log else log ++ c ∷ []) ++ rest ≡ log ++ (if b then rest else c ∷ rest)
calls_either true log rest c = refl
calls_either false log rest c = append_assoc log (c ∷ []) rest

module _ (heap : Heap) (final : ℕ) (ignore : Bool) where
  abbrev late_cycles : Event → ℕ
  late_cycles x = if ignore then 0 else final - x.trigger_timestamp

  -- The log after an event.
  abbrev log_event : Event → List Call → List Call
  log_event x log =
      if x.callback == 0 then log else log ++ (x.callback, x.userdata, late_cycles x) ∷ []

  log_event-calls :
      (x : Event) (xs : List Event) (log : List Call)
      → log_event x log ++ calls final ignore xs ≡ log ++ calls final ignore (x ∷ xs)
  unfolding calls
  log_event-calls x xs log = calls_either (x.callback == 0) log _ _

  fire-note :
      (now id : ℕ) (x : Event) (xs zs : List Event) (log : List Call)
      → heap.pop_heap (x ∷ xs) ≡ zs ++ x ∷ []
      → fire heap note final ignore x
          (record { curr_timestamp = now; last_id = id; events = x ∷ xs }, log)
        ≡ some (
          record {
            curr_timestamp = add64 x.trigger_timestamp (late_cycles x);
            last_id = id;
            events = zs;
          },
          log_event x log,
        )
  unfolding fire call_and_pop pop_events note
  fire-note now id x xs zs log e =
      ap
        (λ (u : Scheduler × List Call).
          pop_events heap (u.0.events) >>= λ events. some (record (u.0) { events = events }, u.1))
        (note_either (x.callback == 0) _ log (x.callback, x.userdata, late_cycles x))
      ∙ ap
          (λ l. some (
            record {
              curr_timestamp = add64 x.trigger_timestamp (late_cycles x);
              last_id = id;
              events = front l;
            },
            log_event x log,
          ))
          e
      ∙ ap
          (λ l. some (
            record {
              curr_timestamp = add64 x.trigger_timestamp (late_cycles x);
              last_id = id;
              events = l;
            },
            log_event x log,
          ))
          (front-append_singleton zs x)

  InOrder-none :
      (xs : List Event) (log : List Call)
      → ((e : Event) → Mem e xs → final < e.trigger_timestamp)
      → InOrder final ignore xs xs log log
  unfolding calls
  InOrder-none xs log late = record {
    fired = [];
    sorted = Pairwise.nil;
    due = λ e m. absurd (not-mem-nil m);
    none_due = late;
    same = Perm.rfl;
    logged = sym (append-nil log);
  }

  -- A root that is due fires before the rest.
  InOrder-cons :
      (x : Event) (xs : List Event) {zs after : List Event} (log : List Call) {new : List Call}
      → heap.IsHeap (x ∷ xs)
      → Perm zs xs
      → x.trigger_timestamp ≤ final
      → InOrder final ignore zs after (log_event x log) new
      → InOrder final ignore (x ∷ xs) after log new
  InOrder-cons x xs {zs} {after} log h same le o = record {
    fired = x ∷ o.fired;
    sorted =
        Pairwise.cons
          (λ e m.
            heap.root x xs h e
              ((Perm.mem_iff (Perm.trans o.same same)).0 (mem-append_left after m)))
          o.sorted;
    due = (forall_mem-cons λ e. le_prop).1 (le, o.due);
    none_due = o.none_due;
    same = Perm.cons x (Perm.trans o.same same);
    logged = o.logged ∙ log_event-calls x o.fired log;
  }

  advance_loop-InOrder :
      (fuel now id : ℕ) (xs : List Event) (log : List Call)
      → heap.IsHeap xs
      → due_count final xs < fuel
      → (r : Scheduler × List Call) × (advance_loop heap note fuel final ignore
            (record { curr_timestamp = now; last_id = id; events = xs }, log)
          ≡ some r)
        × InOrder final ignore xs (r.0.events) log (r.1)
  unfolding advance_loop next_due
  advance_loop-InOrder zero now id xs log h lt = absurd (omega (arith, lt))
  advance_loop-InOrder (suc fuel) now id [] log h lt = (
    (record { curr_timestamp = now; last_id = id; events = [] }, log),
    refl,
    InOrder-none [] log λ e m. absurd (not-mem-nil m),
  )
  advance_loop-InOrder (suc fuel) now id (x ∷ xs) log h lt =
      elim (dec_lt final x.trigger_timestamp) [
        | yes p ↦ (
          (record { curr_timestamp = now; last_id = id; events = x ∷ xs }, log),
          advance_loop-none heap final note ignore fuel _ (ground arith),
          InOrder-none (x ∷ xs) log λ e m. omega (arith, root_least heap final x xs h e m),
        )
        | no p ↦
            let (zs, e, heap_zs, same) = heap.popped x xs h in
            let (r, run, o) =
              advance_loop-InOrder fuel (add64 x.trigger_timestamp (late_cycles x)) id zs
                (log_event x log) heap_zs (due_count-fewer final x same (omega arith) lt) in
            (
              r,
              advance_loop-fire heap final note ignore fuel x _ _ (ground arith)
                    (fire-note now id x xs zs log e)
                  ∙ run,
              InOrder-cons x xs log h same (omega arith) o,
            )
      ]

-- The queue is a heap of at most 60 events, and the callbacks only note their calls down. Then `Advance`
-- fires each event that is due by the end once, in the order of their triggers: it calls the callback of
-- each that has one, with its data and the cycles from the trigger to the end (or 0 where the
-- overflow is ignored). The later events are left in the queue.
pub advance-InOrder :
    (heap : Heap) (now id cycles : ℕ) (ignore : Bool) (xs : List Event) (log : List Call)
    → heap.IsHeap xs
    → length xs ≤ max_events
    → (r : Scheduler × List Call) × (advance heap note
          (suc max_events)
          cycles
          ignore
          (record { curr_timestamp = now; last_id = id; events = xs }, log)
        ≡ some r)
      × InOrder (add64 now cycles) ignore xs (r.0.events) log (r.1)
unfolding advance
advance-InOrder heap now id cycles ignore xs log h size =
    let final = add64 now cycles in
    let (r, run, o) =
      advance_loop-InOrder heap final ignore (suc max_events) now id xs log h
        (omega (arith, due_count-le-length final xs, size)) in
    ((record (r.0) { curr_timestamp = final }, r.1), rw run refl, o)
