-- ===== src/Dma/Priority.antt =====
-- The order of the controller's active transfers.
use mathlib.Core.List.{append_assoc}
use mathlib.Core.Path.{subst}
use psx.Base.{
  ℕ, zero, suc, ◌+◌, ◌-◌, ◌≤◌, ◌<◌, ◌≡◌, ◌≢◌, ◌∙◌, refl, sym, ap, true, false, some, List, [], ◌∷◌,
  ◌++◌, ◌==◌, length, get_elem?, take, drop, replicate, arith, length-append, length-replicate,
  take_all,
}
use psx.Containers.Queue.{shifted}
use psx.Dma.Active.{
  ActiveTransfer, Controller, no_transfer, channel_enabled, priority, stops_at, find_place,
  insert_at, add_transfer, remove_transfer, dma_controller,
}

-- The active transfers are those of a list, and the other places of the array are as they were at first.
pub record Queues (ts : List ActiveTransfer) (c : Controller) : Type 0 where
  pub places : c.active_dmas ≡ ts ++ replicate (8 - length ts) no_transfer
  pub count : c.num_active ≡ length ts
  pub room : length ts ≤ 7

module _ {A : Type 0} where
  take_before : (xs ys : List A) → take (length xs) (xs ++ ys) ≡ xs
  take_before [] ys = refl
  take_before (x ∷ xs) ys = ap (λ zs. x ∷ zs) (take_before xs ys)

  drop_before : (xs ys : List A) → drop (length xs) (xs ++ ys) ≡ ys
  drop_before [] ys = refl
  drop_before (x ∷ xs) ys = drop_before xs ys

  elem_after : (xs ys : List A) (y : A) → get_elem? (xs ++ y ∷ ys) (length xs) ≡ some y
  elem_after [] ys y = refl
  elem_after (x ∷ xs) ys y = elem_after xs ys y

  take_fewer : (n : ℕ) (a : A) → take n (replicate (suc n) a) ≡ replicate n a
  take_fewer zero a = refl
  take_fewer (suc n) a = ap (λ zs. a ∷ zs) (take_fewer n a)

-- The loop stops at once at a place that holds no transfer.
find_place_end :
    (id prio n : ℕ) (ts : List ActiveTransfer)
    → prio ≢ 0
    → get_elem? ts n ≡ some no_transfer
    → find_place id prio ts n ≡ some n
unfolding find_place stops_at
find_place_end id prio zero ts h e = refl
find_place_end id prio (suc n) ts h e = rw (e) (ground (arith, h))

insert_end :
    (ts : List ActiveTransfer) (t : ActiveTransfer) (k : ℕ)
    → length ts + k ≡ 7
    → insert_at (length ts) t (ts ++ replicate (suc k) no_transfer)
      ≡ (ts ++ t ∷ []) ++ replicate k no_transfer
unfolding insert_at
insert_end ts t k h =
    rw
      (
        take_before ts (replicate (suc k) no_transfer),
        drop_before ts (replicate (suc k) no_transfer),
        left k h,
        take_fewer k no_transfer,
      )
      (sym (append_assoc ts (t ∷ []) (replicate k no_transfer)))
  where
    left : (k : ℕ) → length ts + k ≡ 7 → 7 - length ts ≡ k
    left k h = omega arith

abbrev pub entering : ℕ → Controller → ActiveTransfer
entering id c = record { dma_id = id; dma_priority = priority id c }

-- The active transfers are those of a list of fewer than seven, and the channel is enabled with a priority
-- that is not 0. Then its transfer is added behind all of them, whatever their priorities are.
pub add_transfer-Queues :
    (id : ℕ) (ts : List ActiveTransfer) (c : Controller)
    → Queues ts c
    → length ts < 7
    → channel_enabled id c ≡ true
    → priority id c ≢ 0
    → (after : Controller) × (add_transfer id c ≡ some after)
      × Queues (ts ++ entering id c ∷ []) after
unfolding add_transfer
add_transfer-Queues id ts c q h en p =
    let k = 7 - length ts in
    let t = entering id c in
    let places = q.places ∙ ap (λ n. ts ++ replicate n no_transfer) (one_more (length ts) h) in
    (
      record c {
        active_dmas = insert_at (length ts) t c.active_dmas;
        num_active = c.num_active + 1;
      },
      rw (not_full, en, finds places) refl,
      record {
        places =
            ap (insert_at (length ts) t) places
            ∙ insert_end ts t k (omega arith)
            ∙ ap (λ n. (ts ++ t ∷ []) ++ replicate n no_transfer)
                (omega (arith, length-append ts (t ∷ [])));
        count = omega (arith, q.count, length-append ts (t ∷ []));
        room = omega (arith, length-append ts (t ∷ []));
      },
    )
  where
    one_more : (n : ℕ) → n < 7 → 8 - n ≡ suc (7 - n)
    one_more n h = omega arith

    not_full : (c.num_active == 7) ≡ false
    not_full = ground (arith, q.count, h)

    finds :
        c.active_dmas ≡ ts ++ replicate (suc (7 - length ts)) no_transfer
        → find_place id (priority id c) c.active_dmas c.num_active ≡ some (length ts)
    finds places =
        ap (λ a. find_place id (priority id c) a c.num_active) places
        ∙ ap (find_place id (priority id c) (ts ++ replicate (suc (7 - length ts)) no_transfer))
            q.count
        ∙ find_place_end id (priority id c) (length ts) _ p
            (elem_after ts (replicate (7 - length ts) no_transfer) no_transfer)

replicate_last : (n : ℕ) (t : ActiveTransfer) → replicate (suc n) t ≡ replicate n t ++ t ∷ []
replicate_last zero t = refl
replicate_last (suc n) t = ap (λ zs. t ∷ zs) (replicate_last n t)

shift_active :
    (t : ActiveTransfer) (ts : List ActiveTransfer) (k : ℕ)
    → length ts + suc k ≡ 7
    → shifted 8 1 (t ∷ (ts ++ replicate (suc k) no_transfer))
      ≡ ts ++ replicate (suc (suc k)) no_transfer
unfolding shifted
shift_active t ts k h =
    let free = replicate (suc k) no_transfer in
    ap (λ zs. zs ++ drop 7 (t ∷ (ts ++ free)))
      (take_all 7 (ts ++ free)
        (omega (arith, length-append ts free, length-replicate k no_transfer)))
    ∙ ap (λ zs. (ts ++ free) ++ zs) (last k h)
    ∙ append_assoc ts free (no_transfer ∷ [])
    ∙ ap (λ zs. ts ++ zs) (sym (replicate_last (suc k) no_transfer))
  where
    last :
        (k : ℕ)
        → length ts + suc k ≡ 7
        → drop 7 (t ∷ (ts ++ replicate (suc k) no_transfer)) ≡ no_transfer ∷ []
    last k h =
        let before = t ∷ (ts ++ replicate k no_transfer) in
        ap (λ zs. drop 7 (t ∷ (ts ++ zs))) (replicate_last k no_transfer)
        ∙ ap (λ zs. drop 7 (t ∷ zs))
            (sym (append_assoc ts (replicate k no_transfer) (no_transfer ∷ [])))
        ∙ ap (λ n. drop n (before ++ no_transfer ∷ [])) {x = 7} {y = length before}
            (omega
              (arith, length-append ts (replicate k no_transfer), length-replicate k no_transfer))
        ∙ drop_before before (no_transfer ∷ [])

-- The transfer that is removed is the first.
pub remove_transfer-Queues :
    (t : ActiveTransfer) (ts : List ActiveTransfer) (c : Controller)
    → Queues (t ∷ ts) c
    → Queues ts (remove_transfer c)
unfolding remove_transfer
remove_transfer-Queues t ts c q = subst (Queues ts) (sym removes) (record {
  places =
      ap (shifted 8 1)
        (q.places ∙ ap (λ n. t ∷ (ts ++ replicate n no_transfer)) (two_more (length ts) q.room))
      ∙ shift_active t ts (6 - length ts) (omega (arith, q.room))
      ∙ ap (λ n. ts ++ replicate n no_transfer) {x = suc (suc (6 - length ts))} {y = 8 - length ts}
          (omega (arith, q.room));
  count = omega (arith, q.count);
  room = omega (arith, q.room);
})
  where
    two_more : (n : ℕ) → suc n ≤ 7 → 8 - suc n ≡ suc (6 - n)
    two_more n h = omega arith

    removes :
        remove_transfer c
        ≡ record c { active_dmas = shifted 8 1 c.active_dmas; num_active = c.num_active - 1 }
    removes = ground (arith, q.count)

pub dma_controller-Queues : Queues [] dma_controller
unfolding dma_controller
dma_controller-Queues = record { places = refl; count = refl; room = omega arith }
