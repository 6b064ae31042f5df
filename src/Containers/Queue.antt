-- ===== src/Containers/Queue.antt =====
-- The queue of common/Queue.hpp: an array whose first `m_curr_size` elements are the queue.
use psx.Base.{
  ℕ, ◌+◌, ◌-◌, min, Bool, Option, none, some, List, ◌++◌, ltb, leb, ◌==◌, if◌then◌else◌, length,
  get_elem?, set, take, drop,
}
use psx.Base.Words.{sub64}
use psx.Cpu.State.{◌>>=◌}

module _ {ℓ} {A : Type ℓ} where
  -- `std::shift_left` of the first `m` elements by `n`: the elements behind those that moved keep their
  -- values, and nothing moves by `m` or more.
  unfoldable pub shifted : ℕ → ℕ → List A → List A
  shifted m n arr = if leb m n then arr else drop n (take m arr) ++ drop (m - n) arr

  unfoldable pub shift_left : ℕ → ℕ → List A → Option (List A)
  shift_left m n arr = if leb m (length arr) then some (shifted m n arr) else none

-- The template parameter `size` is the length of the array.
pub record Queue {ℓ} (A : Type ℓ) : Type ℓ where
  pub curr_size : ℕ
  pub arr : List A

-- An access past the array is `none`.
module _ {ℓ} {A : Type ℓ} where
  unfoldable pub len : Queue A → ℕ
  len q = q.curr_size

  unfoldable pub peek : Queue A → Option A
  peek q = get_elem? q.arr 0

  unfoldable pub back : Queue A → Option A
  back q = get_elem? q.arr (sub64 q.curr_size 1)

  unfoldable pub deque : Queue A → Option (A × Queue A)
  deque q = peek q >>= λ item. shift_left q.curr_size 1 q.arr >>= λ arr.
      some (item, record { curr_size = sub64 q.curr_size 1; arr = arr })

  -- The block that it copies, whose length is the answer of the code.
  unfoldable pub deque_block : ℕ → Queue A → Option (List A × Queue A)
  deque_block count q =
      let n = min q.curr_size count in
      shift_left q.curr_size n q.arr >>= λ arr.
      some (take n q.arr, record { curr_size = q.curr_size - n; arr = arr })

  unfoldable pub queue : A → Queue A → Option (Queue A)
  queue element q =
      if ltb q.curr_size (length q.arr)
      then some (record { curr_size = q.curr_size + 1; arr = set q.arr q.curr_size element })
      else none

  unfoldable pub empty : Queue A → Bool
  empty q = leb q.curr_size 0

  unfoldable pub full : Queue A → Bool
  full q = q.curr_size == length q.arr

  unfoldable pub clear : Queue A → Queue A
  clear q = record q { curr_size = 0 }
