-- ===== src/Scheduler/Tests.antt =====
-- Runs of the scheduler, and the theorems at concrete inputs.
use mathlib.Core.List.{Mem, Perm}
use psx.Base.{ℕ, suc, ◌≡◌, ◌≢◌, ◌⊎◌, refl, true, false, some, List, [], ◌∷◌, arith}
use psx.Scheduler.State.{Event, Scheduler, schedule_absolute, take_out, deschedule, max_events}
use psx.Scheduler.Advance.{
  advance, advance_loop, next_due, fire, call_and_pop, pop_events, next_event,
}
use psx.Scheduler.Finish.{IsLater, Finished, advance_finishes}
use psx.Scheduler.Order.{Call, note, InOrder, advance-InOrder}
use psx.Scheduler.Change.{deschedule_cases, schedule_absolute-OnlyLater}
use psx.Scheduler.Samples.{sorted_heap, event_at, three_events, three_events-IsHeap}

abbrev sample : Scheduler
sample = record { curr_timestamp = 0; last_id = 8; events = three_events }

-- A callback that calls itself again at 5000, and counts its calls.
abbrev again : ℕ → ℕ → ℕ → Scheduler × ℕ → Scheduler × ℕ
again callback user late (s, n) = ((schedule_absolute sorted_heap 5000 callback user s).1, suc n)

again-IsLater : IsLater sorted_heap 100 again
again-IsLater callback user late t h =
    schedule_absolute-OnlyLater sorted_heap 100 5000 callback user (t.0) h (omega arith)

advance_logs :
    advance sorted_heap note (suc max_events) 100 false (sample, [])
    ≡ some (
      record { curr_timestamp = 100; last_id = 8; events = event_at 6 300 ∷ [] },
      (4096, 7, 90) ∷ (4096, 5, 50) ∷ [],
    )
unfolding sorted_heap advance advance_loop next_due fire call_and_pop pop_events note
advance_logs = refl

deschedule_second :
    deschedule sorted_heap 5 sample
    ≡ (true, record sample { events = event_at 7 10 ∷ event_at 6 300 ∷ [] })
unfolding sorted_heap deschedule take_out
deschedule_second = refl

next_event_skips :
    next_event sorted_heap note (sample, [])
    ≡ some (
      10,
      record { curr_timestamp = 10; last_id = 8; events = event_at 5 50 ∷ event_at 6 300 ∷ [] },
      (4096, 7, 0) ∷ [],
    )
unfolding sorted_heap next_event call_and_pop pop_events note
next_event_skips = refl

advance_finishes_example :
    (r : Scheduler × ℕ) × (advance sorted_heap again (suc max_events) 100 false (sample, 0)
      ≡ some r)
    × (r.0.curr_timestamp ≡ 100)
    × Finished sorted_heap 100 three_events (r.0.events)
advance_finishes_example =
    advance_finishes sorted_heap again 100 false sample 0 three_events-IsHeap (omega arith)
      again-IsLater

advance-InOrder_example :
    (r : Scheduler × List Call) × (advance sorted_heap note (suc max_events) 100 false (sample, [])
      ≡ some r)
    × InOrder 100 false three_events (r.0.events) [] (r.1)
advance-InOrder_example =
    advance-InOrder sorted_heap 0 8 100 false three_events [] three_events-IsHeap (omega arith)

deschedule_cases_example :
    ((deschedule sorted_heap 5 sample ≡ (false, sample))
      × ((x : Event) → Mem x three_events → x.event_id ≢ 5))
    ⊎ ((x : Event) × (xs : List Event) × (deschedule sorted_heap 5 sample
          ≡ (true, record sample { events = xs }))
        × (x.event_id ≡ 5)
        × Perm (x ∷ xs) three_events
        × sorted_heap.IsHeap xs)
deschedule_cases_example = deschedule_cases sorted_heap 5 sample
