-- ===== src/Sio/Card/Run.antt =====
-- A conversation with a memory card: bytes that are sent, and what the card answers.

use psx.Base.{
  ℕ, zero, suc, ◌<◌, ◌≡◌, refl, ap, Option, some, List, [], ◌∷◌, ◌++◌, length, get_elem?, set, drop,
  arith,
}
use psx.Cpu.State.{◌>>=◌}
use psx.Sio.Card.State.{Card}
use psx.Sio.Card.Send.{send}

unfoldable pub send_all : List ℕ → Card → Option (List ℕ × Card)
send_all [] c = some ([], c)
send_all (x ∷ xs) c = send x c >>= λ r. send_all xs (r.1) >>= λ u. some (r.0 ∷ u.0, u.1)

-- The card answers each byte in turn.
pub data Answers (after : Card) : Card → List ℕ → List ℕ → Type 0 where
  done : Answers after after [] []
  more :
      {c next : Card} {x r : ℕ} {xs rs : List ℕ}
      → send x c ≡ some (r, next)
      → Answers after next xs rs
      → Answers after c (x ∷ xs) (r ∷ rs)

pub Answers-append :
    {after next c : Card} {xs rs ys us : List ℕ}
    → Answers next c xs rs
    → Answers after next ys us
    → Answers after c (xs ++ ys) (rs ++ us)
Answers-append Answers.done f = f
Answers-append (Answers.more e d) f = Answers.more e (Answers-append d f)

pub Answers-send_all :
    {after c : Card} {xs rs : List ℕ} → Answers after c xs rs → send_all xs c ≡ some (rs, after)
unfolding send_all
Answers-send_all Answers.done = refl
Answers-send_all (Answers.more e d) = rw (e, Answers-send_all d) refl

-- An element that is there, and what follows it.
pub drop-get_elem? :
    (xs : List ℕ) (i : ℕ)
    → i < length xs
    → (x : ℕ) × (get_elem? xs i ≡ some x) × (drop i xs ≡ x ∷ drop (suc i) xs)
drop-get_elem? [] i h = absurd (omega arith)
drop-get_elem? (x ∷ xs) zero h = (x, refl, refl)
drop-get_elem? (x ∷ xs) (suc i) h = drop-get_elem? xs i (omega arith)

-- The element after `xs` is replaced.
pub set-append :
    (xs ys : List ℕ) (y x : ℕ) → set (xs ++ (y ∷ ys)) (length xs) x ≡ (xs ++ x ∷ []) ++ ys
set-append [] ys y x = refl
set-append (z ∷ xs) ys y x = ap (λ zs. z ∷ zs) (set-append xs ys y x)
