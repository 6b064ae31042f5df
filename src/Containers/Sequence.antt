-- ===== src/Containers/Sequence.antt =====
-- Sequences of operations on a queue.
use mathlib.Core.Path.{subst}
use psx.Base.{
  ℕ, ◌-◌, ◌≡◌, refl, Option, none, some, List, [], ◌∷◌, ◌++◌, ltb, length, get_elem?, arith,
  if_cases, ltb→lt,
}
use psx.Cpu.State.{◌>>=◌, Holds, Holds-bind}
use psx.Containers.Queue.{Queue, clear}
use psx.Containers.Refine.{contents, IsValid, length-contents, Op, run_op, list_op}
use psx.Containers.Run.{Does, queue-Does, peek-contents, deque-Does, deque_block-Does, back-Does}

module _ {ℓ} {A : Type ℓ} where
  unfoldable pub run_ops : List (Op A) → Queue A → Option (List A × Queue A)
  run_ops [] q = some ([], q)
  run_ops (op ∷ ops) q = run_op op q >>= λ r. run_ops ops (r.1) >>= λ u. some (r.0 ++ u.0, u.1)

  unfoldable pub list_ops : ℕ → List (Op A) → List A → Option (List A × List A)
  list_ops cap [] xs = some ([], xs)
  list_ops cap (op ∷ ops) xs =
      list_op cap op xs >>= λ r. list_ops cap ops (r.1) >>= λ u. some (r.0 ++ u.0, u.1)

module _ {ℓ} {A : Type ℓ} {cap : ℕ} where
  get-Holds :
      (q : Queue A)
      → IsValid cap q
      → (ys : List A) → contents q ≡ ys
      → Holds (Does cap (run_op Op.get q)) (list_op cap Op.get ys)
  unfolding list_op
  get-Holds q v [] e = tt
  get-Holds q v (x ∷ xs) e = deque-Does q v x xs e

  first-Holds :
      (q : Queue A)
      → IsValid cap q
      → (ys : List A) → contents q ≡ ys
      → Holds (Does cap (run_op Op.first q)) (list_op cap Op.first ys)
  unfolding list_op run_op
  first-Holds q v [] e = tt
  first-Holds q v (x ∷ xs) e = record {
    after = q;
    runs = rw (peek-contents q v x xs e) refl;
    valid = v;
    holds = e;
  }

  last-Holds :
      (q : Queue A)
      → IsValid cap q
      → (o : Option A) → get_elem? (contents q) (length (contents q) - 1) ≡ o
      → Holds (Does cap (run_op Op.last q)) (o >>= λ x. some (x ∷ [], contents q))
  last-Holds q v none e = tt
  last-Holds q v (some x) e = back-Does q v x e

  run_op-Holds :
      (op : Op A) (q : Queue A)
      → IsValid cap q
      → Holds (Does cap (run_op op q)) (list_op cap op (contents q))
  unfolding list_op run_op clear
  run_op-Holds (Op.put x) q v =
      if_cases (Holds (Does cap (run_op (Op.put x) q))) (ltb (length (contents q)) cap)
        (λ e.
          queue-Does q v x (omega (arith, length-contents v, ltb→lt (length (contents q)) cap e)))
        (λ e. tt)
  run_op-Holds Op.get q v = get-Holds q v (contents q) refl
  run_op-Holds (Op.get_block n) q v = deque_block-Does q v n
  run_op-Holds Op.wipe q v = record {
    after = record q { curr_size = 0 };
    runs = refl;
    valid = record { capacity = v.capacity; fits = omega arith; word = v.word };
    holds = refl;
  }
  run_op-Holds Op.first q v = first-Holds q v (contents q) refl
  run_op-Holds Op.last q v = last-Holds q v _ refl

  run_ops-Holds :
      (ops : List (Op A)) (q : Queue A)
      → IsValid cap q
      → Holds (Does cap (run_ops ops q)) (list_ops cap ops (contents q))
  unfolding run_ops list_ops
  run_ops-Holds [] q v = record { after = q; runs = refl; valid = v; holds = refl }
  run_ops-Holds (op ∷ ops) q v =
      Holds-bind (Does cap (run_op op q)) (Does cap (run_ops (op ∷ ops) q))
        (list_op cap op (contents q)) _ (run_op-Holds op q v)
        λ r d.
          let rest =
            subst (λ ys. Holds (Does cap (run_ops ops d.after)) (list_ops cap ops ys)) d.holds
              (run_ops-Holds ops d.after d.valid) in
          Holds-bind (Does cap (run_ops ops d.after)) (Does cap (run_ops (op ∷ ops) q))
            (list_ops cap ops (r.1)) _ rest
            λ u g. record {
              after = g.after;
              runs = rw (d.runs, g.runs) refl;
              valid = g.valid;
              holds = g.holds;
            }

  -- The size of the queue is within its array, whose length is a u64. Whatever sequence of operations a list of
  -- at most as many elements as the array allows, which is never read at the front or the back when it is
  -- empty nor written to when it is full, the queue allows too: it gives the same elements back, stays
  -- within its array, and holds the elements of the list.
  pub queue_refines :
      (ops : List (Op A)) (q : Queue A) (r : List A × List A)
      → IsValid cap q
      → list_ops cap ops (contents q) ≡ some r
      → Does cap (run_ops ops q) r
  queue_refines ops q r v e = subst (Holds (Does cap (run_ops ops q))) e (run_ops-Holds ops q v)
