-- ===== src/Containers/Refine.antt =====
-- The queue behaves as the list of its elements.
use native.Mathlib.Nat.{zero-min, suc-min-suc, min-zero}
use psx.Base.{
  ℕ, zero, suc, ◌-◌, ◌^◌, ◌≤◌, ◌<◌, ◌≡◌, ◌∙◌, refl, sym, ap, min, true, false, Option, none, some,
  List, [], ◌∷◌, ◌++◌, ltb, leb, if◌then◌else◌, length, get_elem?, set, take, drop, length-take,
  length-drop, arith, length-append, tests, if_cases, leb→le,
}
use psx.Cpu.State.{◌>>=◌}
use psx.Containers.Queue.{Queue, shifted, shift_left, peek, back, deque, deque_block, queue, clear}

module _ {ℓ} {A : Type ℓ} where
  take-append_exact : (n : ℕ) (xs ys : List A) → length xs ≡ n → take n (xs ++ ys) ≡ xs
  take-append_exact zero [] ys e = refl
  take-append_exact zero (x ∷ xs) ys e = absurd (omega arith)
  take-append_exact (suc n) [] ys e = absurd (omega arith)
  take-append_exact (suc n) (x ∷ xs) ys e =
      ap (λ zs. x ∷ zs) (take-append_exact n xs ys (omega arith))

  pub take-set :
      (n : ℕ) (xs : List A) (v : A)
      → n < length xs
      → take (suc n) (set xs n v) ≡ take n xs ++ v ∷ []
  take-set zero [] v h = absurd (omega arith)
  take-set zero (x ∷ xs) v h = refl
  take-set (suc n) [] v h = absurd (omega arith)
  take-set (suc n) (x ∷ xs) v h = ap (λ zs. x ∷ zs) (take-set n xs v (omega arith))

  take-nil : (n : ℕ) → take {A = A} n [] ≡ []
  take-nil zero = refl
  take-nil (suc n) = refl

  drop-nil : (n : ℕ) → drop {A = A} n [] ≡ []
  drop-nil zero = refl
  drop-nil (suc n) = refl

  pub take-min : (m n : ℕ) (xs : List A) → take (min m n) xs ≡ take n (take m xs)
  take-min zero n xs = ap (λ k. take k xs) (zero-min n) ∙ sym (take-nil n)
  take-min (suc m) zero xs = ap (λ k. take k xs) (min-zero (suc m))
  take-min (suc m) (suc n) [] = ap (λ k. take k []) (suc-min-suc m n)
  take-min (suc m) (suc n) (x ∷ xs) =
      ap (λ k. take k (x ∷ xs)) (suc-min-suc m n) ∙ ap (λ zs. x ∷ zs) (take-min m n xs)

  pub drop-min : (m n : ℕ) (xs : List A) → drop (min m n) (take m xs) ≡ drop n (take m xs)
  drop-min zero n xs = drop-nil (min zero n) ∙ sym (drop-nil n)
  drop-min (suc m) zero xs = ap (λ k. drop k (take (suc m) xs)) (min-zero (suc m))
  drop-min (suc m) (suc n) [] = drop-nil (min (suc m) (suc n))
  drop-min (suc m) (suc n) (x ∷ xs) =
      ap (λ k. drop k (x ∷ take m xs)) (suc-min-suc m n) ∙ drop-min m n xs

  drop-all : (n : ℕ) (xs : List A) → length xs ≤ n → drop n xs ≡ []
  drop-all zero [] h = refl
  drop-all zero (x ∷ xs) h = absurd (omega arith)
  drop-all (suc n) [] h = refl
  drop-all (suc n) (x ∷ xs) h = drop-all n xs (omega arith)

  pub get_elem?-take : (i m : ℕ) (xs : List A) → i < m → get_elem? (take m xs) i ≡ get_elem? xs i
  get_elem?-take i zero xs h = absurd (omega arith)
  get_elem?-take i (suc m) [] h = refl
  get_elem?-take zero (suc m) (x ∷ xs) h = refl
  get_elem?-take (suc i) (suc m) (x ∷ xs) h = get_elem?-take i m xs (omega arith)

-- The elements of the queue, and the sizes for which they stand.
abbrev pub contents {ℓ} : {A : Type ℓ} → Queue A → List A
contents q = take q.curr_size q.arr

pub record IsValid {ℓ} {A : Type ℓ} (cap : ℕ) (q : Queue A) : Type ℓ where
  pub capacity : length q.arr ≡ cap
  pub fits : q.curr_size ≤ cap
  pub word : cap < 2 ^ 64

module _ {ℓ} {A : Type ℓ} where
  pub length-contents : {cap : ℕ} {q : Queue A} → IsValid cap q → length (contents q) ≡ q.curr_size
  length-contents {q = q} v = omega (arith, length-take q.curr_size q.arr, v.capacity, v.fits)

  -- What is left after a shift by at most the size.
  pub take-shifted :
      (m n : ℕ) (arr : List A)
      → n ≤ m
      → m ≤ length arr
      → take (m - n) (shifted m n arr) ≡ drop n (take m arr)
  unfolding shifted
  take-shifted m n arr h k =
      if_cases (λ zs. take (m - n) zs ≡ drop n (take m arr)) (leb m n) {x = arr}
        {y = drop n (take m arr) ++ drop (m - n) arr}
        (λ e.
          let le = leb→le m n e in
          ap (λ i. take i arr) (gone le)
          ∙ sym (drop-all n (take m arr) (omega (arith, length-take m arr, le))))
        (λ e.
          take-append_exact (m - n) (drop n (take m arr)) (drop (m - n) arr)
            (omega (arith, length-drop n (take m arr), length-take m arr)))
    where
      gone : m ≤ n → m - n ≡ 0
      gone le = omega arith

  pub length-shifted :
      (m n : ℕ) (arr : List A) → m ≤ length arr → length (shifted m n arr) ≡ length arr
  unfolding shifted
  length-shifted m n arr k =
      if_cases (λ zs. length zs ≡ length arr) (leb m n) {x = arr}
        {y = drop n (take m arr) ++ drop (m - n) arr} (λ e. refl)
        (λ e. omega (
          tests,
          length-append (drop n (take m arr)) (drop (m - n) arr),
          length-drop n (take m arr),
          length-drop (m - n) arr,
          length-take m arr,
          not_le m n e,
        ))
    where
      not_le : (m n : ℕ) → leb m n ≡ false → n < m
      not_le m n e = ground arith

  pub shift_left-lem :
      {cap : ℕ} (q : Queue A) (n : ℕ)
      → IsValid cap q
      → n ≤ q.curr_size
      → (shift_left q.curr_size n q.arr ≡ some (shifted q.curr_size n q.arr))
        × IsValid cap (record { curr_size = q.curr_size - n; arr = shifted q.curr_size n q.arr })
  unfolding shift_left
  shift_left-lem q n v h = (
    rw (le_leb v) refl,
    record {
      capacity = omega (
        arith,
        length-shifted q.curr_size n q.arr (omega (arith, v.capacity, v.fits)),
        v.capacity,
      );
      fits = omega (arith, v.fits);
      word = v.word;
    },
  )
    where
      le_leb : {cap : ℕ} → IsValid cap q → leb q.curr_size (length q.arr) ≡ true
      le_leb v = ground (arith, v.capacity, v.fits)

-- The operations of a client, and what each gives back.
pub data Op {ℓ} (A : Type ℓ) : Type ℓ where
  put : A → Op A
  get : Op A
  get_block : ℕ → Op A
  wipe first last : Op A

module _ {ℓ} {A : Type ℓ} where
  unfoldable pub run_op : Op A → Queue A → Option (List A × Queue A)
  run_op (Op.put x) q = queue x q >>= λ r. some ([], r)
  run_op Op.get q = deque q >>= λ r. some (r.0 ∷ [], r.1)
  run_op (Op.get_block n) q = deque_block n q
  run_op Op.wipe q = some ([], clear q)
  run_op Op.first q = peek q >>= λ x. some (x ∷ [], q)
  run_op Op.last q = back q >>= λ x. some (x ∷ [], q)

  -- A queue of at most `cap` elements, which refuses to be read when it is empty.
  unfoldable pub list_op : ℕ → Op A → List A → Option (List A × List A)
  list_op cap (Op.put x) xs = if ltb (length xs) cap then some ([], xs ++ x ∷ []) else none
  list_op cap Op.get [] = none
  list_op cap Op.get (x ∷ xs) = some (x ∷ [], xs)
  list_op cap (Op.get_block n) xs = some (take n xs, drop n xs)
  list_op cap Op.wipe xs = some ([], [])
  list_op cap Op.first [] = none
  list_op cap Op.first (x ∷ xs) = some (x ∷ [], x ∷ xs)
  list_op cap Op.last xs = get_elem? xs (length xs - 1) >>= λ x. some (x ∷ [], xs)
