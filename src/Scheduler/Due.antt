-- ===== src/Scheduler/Due.antt =====
-- The events that are due: the measure of the loop of `Advance`.
use mathlib.Core.List.{
  Mem, Perm, Permᴰ, mem-cons_self, mem-cons_of_mem, not-mem-nil, forall_mem-cons, Mem-prop,
  eq-or-mem_of_mem-cons,
}
use mathlib.Core.Logic.Or
use mathlib.Core.List.Perm
use mathlib.Core.Logic.{∥∥₁_elim}
use native.Mathlib.Nat.{ℕ_set}
use native.Mathlib.Bridge.{le_prop}
use native.Mathlib.Decide.{dec_lt}
use psx.Base.{
  ℕ, suc, ◌+◌, ◌≤◌, ◌<◌, ◌≡◌, refl, ◌⊎◌, inl, inr, none, some, List, [], ◌∷◌, ◌++◌, ltb,
  if◌then◌else◌, arith, ap, sym, ◌∙◌, length,
}
use psx.Scheduler.State.{Event, Heap, front}
use psx.Scheduler.Advance.{next_due, pop_events}

-- How many events are due at `final`.
abbrev pub due_count : ℕ → List Event → ℕ
due_count final [] = 0
due_count final (x ∷ xs) = (if ltb final x.trigger_timestamp then 0 else 1) + due_count final xs

pub due_count-le-length : (final : ℕ) (xs : List Event) → due_count final xs ≤ length xs
due_count-le-length final [] = omega arith
due_count-le-length final (x ∷ xs) = ground (arith, due_count-le-length final xs)

pub due_count-append :
    (final : ℕ) (xs ys : List Event)
    → due_count final (xs ++ ys) ≡ due_count final xs + due_count final ys
due_count-append final [] ys = omega arith
due_count-append final (x ∷ xs) ys = omega (arith, due_count-append final xs ys)

due_count-permᴰ :
    (final : ℕ) {xs ys : List Event} → Permᴰ xs ys → due_count final xs ≡ due_count final ys
due_count-permᴰ final Permᴰ.nil = refl
due_count-permᴰ final (Permᴰ.cons e p) = rw (e, due_count-permᴰ final p)
due_count-permᴰ final (Permᴰ.swap e f) = rw (e, f) (omega arith)
due_count-permᴰ final (Permᴰ.trans p q) =
    omega (arith, due_count-permᴰ final p, due_count-permᴰ final q)

pub due_count-perm :
    (final : ℕ) {xs ys : List Event} → Perm xs ys → due_count final xs ≡ due_count final ys
due_count-perm final p = ∥∥₁_elim p (ℕ_set _ _) (due_count-permᴰ final)

pub due_count-late :
    (final : ℕ) (xs : List Event)
    → ((e : Event) → Mem e xs → final < e.trigger_timestamp)
    → due_count final xs ≡ 0
due_count-late final [] h = refl
due_count-late final (x ∷ xs) h =
    ground (arith, h x mem-cons_self, due_count-late final xs λ e m. h e (mem-cons_of_mem x m))

pub front-append_singleton {ℓ} : {A : Type ℓ} (xs : List A) (x : A) → front (xs ++ x ∷ []) ≡ xs
front-append_singleton [] x = refl
front-append_singleton (y ∷ []) x = refl
front-append_singleton (y ∷ z ∷ xs) x = ap (λ ys. y ∷ ys) (front-append_singleton (z ∷ xs) x)

pub due_count-fewer :
    (final : ℕ) (x : Event) {xs zs : List Event} {fuel : ℕ}
    → Perm zs xs
    → x.trigger_timestamp ≤ final
    → due_count final (x ∷ xs) < suc fuel
    → due_count final zs < fuel
due_count-fewer final x p le lt = ground (arith, due_count-perm final p)

-- The queue after the removal of a root that is due.
pub record Shorter (heap : Heap) (final : ℕ) (before after : List Event) : Type 0 where
  pub heap_after : heap.IsHeap after
  pub one_less : due_count final before ≡ suc (due_count final after)
  pub kept : (e : Event) → Mem e before → final < e.trigger_timestamp → Mem e after

module _ (heap : Heap) (final : ℕ) where
  open heap use {IsHeap, root, popped}

  -- Nothing is due after a root that is not.
  pub next_due-cases :
      (xs : List Event)
      → IsHeap xs
      → ((next_due final xs ≡ none) × ((e : Event) → Mem e xs → final < e.trigger_timestamp))
        ⊎ ((x : Event) × (next_due final xs ≡ some x) × Mem x xs × (x.trigger_timestamp ≤ final))
  unfolding next_due
  next_due-cases [] h = inl (refl, λ e m. absurd (not-mem-nil m))
  next_due-cases (x ∷ xs) h = elim (dec_lt final x.trigger_timestamp) [
    | yes p ↦
        inl (
          ground arith,
          (forall_mem-cons λ e. le_prop).1 (p, λ e m. omega (arith, root x xs h e m)),
        )
    | no p ↦ inr (x, ground arith, mem-cons_self, omega arith)
  ]

  pub root_least :
      (y : Event) (ys : List Event)
      → IsHeap (y ∷ ys)
      → (e : Event) → Mem e (y ∷ ys)
      → y.trigger_timestamp ≤ e.trigger_timestamp
  root_least y ys h = (forall_mem-cons λ e. le_prop).1 (omega arith, root y ys h)

  due_count-root :
      (y : Event) (ys : List Event) {due : ℕ}
      → y.trigger_timestamp ≤ due
      → due ≤ final
      → due_count final (y ∷ ys) ≡ suc (due_count final ys)
  due_count-root y ys p q = ground arith

  pub pop_events-Shorter :
      (due : Event) (ys : List Event)
      → IsHeap ys
      → Mem due ys
      → due.trigger_timestamp ≤ final
      → (zs : List Event) × (pop_events heap ys ≡ some zs) × Shorter heap final ys zs
  unfolding pop_events
  pop_events-Shorter due [] h m le = absurd (not-mem-nil m)
  pop_events-Shorter due (y ∷ ys) h m le =
      let (zs, e, heap_zs, same) = popped y ys h in
      let early = root_least y ys h due m in
      (
        zs,
        rw (e, front-append_singleton zs y) refl,
        record {
          heap_after = heap_zs;
          one_less = due_count-root y ys early le ∙ ap suc (sym (due_count-perm final same));
          kept = λ late n lt.
              Or.elim Mem-prop (eq-or-mem_of_mem-cons n)
                (λ eq. absurd (omega (arith, ap (λ v. v.trigger_timestamp) eq)))
                ((Perm.mem_iff same).1);
        },
      )
