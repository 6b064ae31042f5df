-- ===== src/Sio/Pad/Answer.antt =====
-- What the standard controller answers from its queue of bytes.
use mathlib.Core.Option.{none-ne-some, some-injective}
use psx.Base.{
  ℕ, ◌+◌, ◌≤◌, ◌≡◌, ◌∙◌, refl, sym, ap, true, false, Option, none, some, List, [], ◌∷◌, ◌++◌,
  length, length-append, arith,
}
use psx.Cpu.State.{◌>>=◌}
use psx.Containers.Queue.{Queue, queue, deque, empty}
use psx.Containers.Refine.{contents, IsValid, length-contents, Op, run_op}
use psx.Containers.Run.{queue-Does, deque-Does}
use psx.Sio.Pad.State.{Pad, enqueue}
use psx.Sio.Pad.Send.{respond, answer, settle}
use mathlib.Core.List.{append_assoc, append-nil}

abbrev put_result : Queue ℕ → Option (List ℕ × Queue ℕ)
put_result r = some ([], r)

abbrev get_result : ℕ × Queue ℕ → Option (List ℕ × Queue ℕ)
get_result r = some (r.0 ∷ [], r.1)

abbrev first : List ℕ → ℕ
first [] = 0
first (x ∷ xs) = x

put_queue :
    (x : ℕ) (q after : Queue ℕ) → run_op (Op.put x) q ≡ some ([], after) → queue x q ≡ some after
unfolding run_op
put_queue x q after e = from_put (queue x q) e
  where
    from_put : (o : Option (Queue ℕ)) → (o >>= put_result) ≡ some ([], after) → o ≡ some after
    from_put none e = absurd (none-ne-some _ e)
    from_put (some r) e = ap (λ y. some (y.1)) (some-injective _ _ e)

get_deque :
    (x : ℕ) (q after : Queue ℕ) → run_op Op.get q ≡ some (x ∷ [], after) → deque q ≡ some (x, after)
unfolding run_op
get_deque x q after e = from_get (deque q) e
  where
    from_get :
        (o : Option (ℕ × Queue ℕ)) → (o >>= get_result) ≡ some (x ∷ [], after) → o ≡ some (x, after)
    from_get none e = absurd (none-ne-some _ e)
    from_get (some r) e = ap (λ y. some (first (y.0), y.1)) (some-injective _ _ e)

pub enqueue_lem :
    {cap : ℕ} (xs : List ℕ) (q : Queue ℕ)
    → IsValid cap q
    → q.curr_size + length xs ≤ cap
    → (after : Queue ℕ) × (enqueue xs q ≡ some after)
      × IsValid cap after
      × (contents after ≡ contents q ++ xs)
unfolding enqueue
enqueue_lem [] q v h = (q, refl, v, sym (append-nil (contents q)))
enqueue_lem (x ∷ xs) q v h =
    let d = queue-Does q v x (omega arith) in
    let (after, e, w, c) = enqueue_lem xs d.after d.valid (
      omega (
        arith,
        length-contents v,
        length-contents d.valid,
        ap length d.holds,
        length-append (contents q) (x ∷ []),
      )) in
    (
      after,
      rw (put_queue x q d.after d.runs, e) refl,
      w,
      c ∙ ap (λ ys. ys ++ xs) d.holds ∙ append_assoc (contents q) (x ∷ []) xs,
    )

pub nonempty :
    {cap : ℕ} (q : Queue ℕ) (x : ℕ) (xs : List ℕ)
    → IsValid cap q
    → contents q ≡ x ∷ xs
    → empty q ≡ false
unfolding empty
nonempty q x xs v e = ground (arith, length-contents v, ap length e)

pub is_empty : {cap : ℕ} (q : Queue ℕ) → IsValid cap q → contents q ≡ [] → empty q ≡ true
unfolding empty
is_empty q v e = ground (arith, length-contents v, ap length e)

-- The oldest byte is answered.
pub answer_lem :
    (p : Pad) (x : ℕ) (xs : List ℕ)
    → IsValid 16 p.response
    → contents p.response ≡ x ∷ xs
    → (q : Queue ℕ) × (answer p ≡ some (x, settle (record p { response = q })))
      × IsValid 16 q
      × (contents q ≡ xs)
unfolding answer
answer_lem p x xs v e =
    let d = deque-Does p.response v x xs e in
    (
      d.after,
      rw (nonempty p.response x xs v e, get_deque x p.response d.after d.runs) refl,
      d.valid,
      d.holds,
    )

pub respond_lem :
    (p : Pad) (xs : List ℕ)
    → IsValid 16 p.response
    → contents p.response ≡ []
    → length xs ≤ 16
    → (q : Queue ℕ) × (respond xs p ≡ some (record p { response = q }))
      × IsValid 16 q
      × (contents q ≡ xs)
unfolding respond
respond_lem p xs v e h =
    let (q, runs, w, c) =
      enqueue_lem xs p.response v (omega (arith, length-contents v, ap length e)) in
    (q, rw runs refl, w, c ∙ ap (λ ys. ys ++ xs) e)
