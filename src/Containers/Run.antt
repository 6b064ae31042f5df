-- ===== src/Containers/Run.antt =====
-- Each operation of the queue does what it does to the list of its elements.

use mathlib.Core.Option.{none-ne-some}
use psx.Base.{
  ℕ, zero, suc, ◌+◌, ◌-◌, ◌≤◌, ◌<◌, ◌≡◌, ◌∙◌, refl, sym, ap, min, Option, some, List, [], ◌∷◌, ◌++◌,
  length, get_elem?, set, take, drop, length-set, arith, lt→ltb,
}
use psx.Base.Words.{sub64}
use psx.Containers.Queue.{Queue, shifted, peek, back, deque, deque_block, queue}
use psx.Containers.Refine.{
  contents, IsValid, length-contents, get_elem?-take, take-set, take-min, drop-min, take-shifted,
  shift_left-lem, Op, run_op,
}

-- The queue after an operation, for the result of the operation on the list.
pub record Does {ℓ} {A : Type ℓ} (cap : ℕ) (o : Option (List A × Queue A)) (r : List A × List A)
    : Type ℓ where
  pub after : Queue A
  pub runs : o ≡ some (r.0, after)
  pub valid : IsValid cap after
  pub holds : contents after ≡ r.1

module _ {ℓ} {A : Type ℓ} {cap : ℕ} (q : Queue A) (v : IsValid cap q) where
  pub queue-Does :
      (x : A) → q.curr_size < cap → Does cap (run_op (Op.put x) q) ([], contents q ++ x ∷ [])
  unfolding run_op queue
  queue-Does x lt = record {
    after = record { curr_size = q.curr_size + 1; arr = set q.arr q.curr_size x };
    runs = rw (lt→ltb q.curr_size (length q.arr) (omega (arith, v.capacity))) refl;
    valid = record {
      capacity = length-set q.arr q.curr_size x ∙ v.capacity;
      fits = omega arith;
      word = v.word;
    };
    holds =
        ap (λ k. take k (set q.arr q.curr_size x)) (add_one q.curr_size)
        ∙ take-set q.curr_size q.arr x (omega (arith, v.capacity));
  }
    where
      add_one : (n : ℕ) → n + 1 ≡ suc n
      add_one n = omega arith

  pub peek-contents : (x : A) (xs : List A) → contents q ≡ x ∷ xs → peek q ≡ some x
  unfolding peek
  peek-contents x xs e =
      sym (get_elem?-take 0 q.curr_size q.arr (nonempty x xs e)) ∙ ap (λ ys. get_elem? ys 0) e
    where
      nonempty : (x : A) (xs : List A) → contents q ≡ x ∷ xs → 0 < q.curr_size
      nonempty x xs e = omega (arith, length-contents v, ap length e)

  pub deque-Does :
      (x : A) (xs : List A) → contents q ≡ x ∷ xs → Does cap (run_op Op.get q) (x ∷ [], xs)
  unfolding run_op deque
  deque-Does x xs e =
      let some_left = size x xs e in
      let (shifts, valid) = shift_left-lem q 1 v some_left in
      record {
        after = record { curr_size = q.curr_size - 1; arr = shifted q.curr_size 1 q.arr };
        runs =
            rw (peek-contents x xs e, shifts)
              (ap (λ k. some (x ∷ [], record { curr_size = k; arr = shifted q.curr_size 1 q.arr }))
                (one_less some_left));
        valid = valid;
        holds =
            take-shifted q.curr_size 1 q.arr some_left (omega (arith, v.fits, v.capacity))
            ∙ ap (drop 1) e;
      }
    where
      size : (x : A) (xs : List A) → contents q ≡ x ∷ xs → 1 ≤ q.curr_size
      size x xs e = omega (arith, length-contents v, ap length e)

      one_less : 1 ≤ q.curr_size → sub64 q.curr_size 1 ≡ q.curr_size - 1
      one_less h = omega (arith, v.fits, v.word)

  pub deque_block-Does :
      (n : ℕ) → Does cap (run_op (Op.get_block n) q) (take n (contents q), drop n (contents q))
  unfolding run_op deque_block
  deque_block-Does n =
      let k = min q.curr_size n in
      let (shifts, valid) = shift_left-lem q k v (omega arith) in
      let after : Queue A = record {
        curr_size = q.curr_size - k;
        arr = shifted q.curr_size k q.arr;
      } in
      record {
        after = after;
        runs = rw shifts (ap (λ ys. some (ys, after)) (take-min q.curr_size n q.arr));
        valid = valid;
        holds =
            take-shifted q.curr_size k q.arr (omega arith) (omega (arith, v.fits, v.capacity))
            ∙ drop-min q.curr_size n q.arr;
      }

  pub back-Does :
      (x : A)
      → get_elem? (contents q) (length (contents q) - 1) ≡ some x
      → Does cap (run_op Op.last q) (x ∷ [], contents q)
  unfolding run_op back
  back-Does x e = record { after = q; runs = rw (found x e) refl; valid = v; holds = refl }
    where
      place : (x : A) (n : ℕ) (xs : List A) → get_elem? xs n ≡ some x → n < length xs
      place x n [] e = absurd (none-ne-some x e)
      place x zero (y ∷ ys) e = omega arith
      place x (suc n) (y ∷ ys) e = omega (arith, place x n ys e)

      index : 0 < q.curr_size → sub64 q.curr_size 1 ≡ length (contents q) - 1
      index h = omega (arith, length-contents v, v.fits, v.word)

      found :
          (x : A)
          → get_elem? (contents q) (length (contents q) - 1) ≡ some x
          → get_elem? q.arr (sub64 q.curr_size 1) ≡ some x
      found x e =
          let inside = place x (length (contents q) - 1) (contents q) e in
          ap (get_elem? q.arr) (index (omega (arith, length-contents v, inside)))
          ∙ sym (
              get_elem?-take (length (contents q) - 1) q.curr_size q.arr
                (omega (arith, length-contents v, inside)))
          ∙ e
