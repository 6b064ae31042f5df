-- ===== src/Scheduler/Samples.antt =====
-- A heap that keeps its range sorted, for the runs.
use mathlib.Core.List.{Mem, Perm, Pairwise, not-mem-nil, forall_mem-cons}
use mathlib.Core.List.Perm
use native.Mathlib.Bridge.{le_prop}
use psx.Base.{ℕ, ◌≤◌, refl, List, [], ◌∷◌, ◌++◌, leb, if◌then◌else◌, arith, if_cases, leb→le}
use psx.Scheduler.State.{Event, Heap}

unfoldable insert : Event → List Event → List Event
insert x [] = x ∷ []
insert x (y ∷ ys) =
    let rest = insert x ys in
    if leb x.trigger_timestamp y.trigger_timestamp then x ∷ y ∷ ys else y ∷ rest

unfoldable sort : List Event → List Event
sort [] = []
sort (x ∷ xs) = insert x (sort xs)

abbrev IsSorted : List Event → Type 0
IsSorted = Pairwise (λ x y. x.trigger_timestamp ≤ y.trigger_timestamp)

insert-perm : (x : Event) (xs : List Event) → Perm (insert x xs) (x ∷ xs)
unfolding insert
insert-perm x [] = Perm.rfl
insert-perm x (y ∷ ys) =
    if_cases (λ l. Perm l (x ∷ y ∷ ys)) (leb x.trigger_timestamp y.trigger_timestamp)
      (λ e. Perm.rfl) (λ e. Perm.trans (Perm.cons y (insert-perm x ys)) (Perm.swap x y ys))

sort-perm : (xs : List Event) → Perm (sort xs) xs
unfolding sort
sort-perm [] = Perm.nil
sort-perm (x ∷ xs) = Perm.trans (insert-perm x (sort xs)) (Perm.cons x (sort-perm xs))

least_head :
    (x : Event) (xs : List Event)
    → IsSorted (x ∷ xs)
    → (y : Event) → Mem y xs
    → x.trigger_timestamp ≤ y.trigger_timestamp
least_head x xs (Pairwise.cons h s) = h

insert-IsSorted : (x : Event) (xs : List Event) → IsSorted xs → IsSorted (insert x xs)
unfolding insert
insert-IsSorted x [] s = Pairwise.cons (λ y m. absurd (not-mem-nil m)) Pairwise.nil
insert-IsSorted x (y ∷ ys) (Pairwise.cons h s) =
    if_cases IsSorted (leb x.trigger_timestamp y.trigger_timestamp)
      (λ e.
        let le = leb→le x.trigger_timestamp y.trigger_timestamp e in
        Pairwise.cons ((forall_mem-cons λ z. le_prop).1 (le, λ z m. omega (arith, h z m)))
          (Pairwise.cons h s))
      (λ e.
        Pairwise.cons
          (λ z m.
            (forall_mem-cons λ z. le_prop).1 (ground arith, h) z
              ((Perm.mem_iff (insert-perm x ys)).0 m))
          (insert-IsSorted x ys s))

sort-IsSorted : (xs : List Event) → IsSorted (sort xs)
unfolding sort
sort-IsSorted [] = Pairwise.nil
sort-IsSorted (x ∷ xs) = insert-IsSorted x (sort xs) (sort-IsSorted xs)

unfoldable root_to_end : List Event → List Event
root_to_end [] = []
root_to_end (x ∷ xs) = xs ++ x ∷ []

tail-IsSorted : (x : Event) (xs : List Event) → IsSorted (x ∷ xs) → IsSorted xs
tail-IsSorted x xs (Pairwise.cons h s) = s

unfoldable pub sorted_heap : Heap
unfolding root_to_end insert sort insert-perm insert-IsSorted least_head sort-IsSorted sort-perm
    tail-IsSorted
sorted_heap = record {
  IsHeap = IsSorted;
  push_heap = sort;
  pop_heap = root_to_end;
  make_heap = sort;
  empty = Pairwise.nil;
  root = least_head;
  pushed = λ xs x s. sort-IsSorted (xs ++ x ∷ []);
  push_same = sort-perm;
  popped = λ x xs s. (xs, refl, tail-IsSorted x xs s, Perm.rfl);
  made = sort-IsSorted;
  make_same = sort-perm;
}

abbrev pub event_at : ℕ → ℕ → Event
event_at id time = record {
  event_id = id;
  registered_timestamp = 0;
  trigger_timestamp = time;
  callback = 4096;
  userdata = id;
}

abbrev pub three_events : List Event
three_events = event_at 7 10 ∷ event_at 5 50 ∷ event_at 6 300 ∷ []

pub three_events-IsHeap : sorted_heap.IsHeap three_events
unfolding sort insert sorted_heap
three_events-IsHeap = sort-IsSorted three_events
