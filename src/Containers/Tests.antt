-- ===== src/Containers/Tests.antt =====
-- Runs of the queue, and the theorem at a concrete input.
use psx.Base.{ℕ, ◌≡◌, refl, some, List, [], ◌∷◌, true, replicate, arith}
use psx.Containers.Queue.{
  back, Queue, len, empty, full, peek, deque, deque_block, queue, shift_left, shifted, clear,
}
use psx.Containers.Refine.{Op, IsValid, run_op, list_op}
use psx.Containers.Run.{Does}
use psx.Containers.Sequence.{run_ops, list_ops, queue_refines}

-- Four places, three of them in use.
abbrev three_of_four : Queue ℕ
three_of_four = record { curr_size = 3; arr = 5 ∷ 6 ∷ 7 ∷ 0 ∷ [] }

abbrev operations : List (Op ℕ)
operations = Op.get ∷ Op.put 8 ∷ Op.put 9 ∷ Op.get_block 2 ∷ Op.last ∷ []

three_of_four-IsValid : IsValid 4 three_of_four
three_of_four-IsValid = record { capacity = refl; fits = omega arith; word = omega arith }

runs_operations :
    run_ops operations three_of_four
    ≡ some (5 ∷ 6 ∷ 7 ∷ 9 ∷ [], record { curr_size = 2; arr = 8 ∷ 9 ∷ 8 ∷ 9 ∷ [] })
unfolding run_ops run_op deque deque_block queue peek back shift_left shifted
runs_operations = refl

fills_up : full {A = ℕ} (record { curr_size = 4; arr = replicate 4 1 }) ≡ true
unfolding full
fills_up = refl

empties : empty (clear three_of_four) ≡ true
unfolding empty clear
empties = refl

counts : len three_of_four ≡ 3
unfolding len
counts = refl

queue_refines_example : Does 4 (run_ops operations three_of_four) (5 ∷ 6 ∷ 7 ∷ 9 ∷ [], 8 ∷ 9 ∷ [])
unfolding list_ops list_op
queue_refines_example = queue_refines operations three_of_four _ three_of_four-IsValid refl
