-- ===== src/Sio/Card/Frames.antt =====
-- The frames of a memory card: `ReadFrame` and `WriteFrame`.
use psx.Base.{
  ℕ, zero, suc, ◌+◌, ◌*◌, ◌≤◌, ◌<◌, ◌≡◌, ◌∙◌, refl, sym, ap, true, none, some, List, [], ◌∷◌, ◌++◌,
  ◌==◌, if◌then◌else◌, length, take, drop, arith, length-take, length-drop, length-append, take_all,
  ◌-◌, ◌≢◌, if_cases,
}
use native.Mathlib.Decide.{dec_lt}
use psx.Base.Words.{add32}
use psx.Sio.Card.State.{Card, slice, splice, max_sector, memcard_size, sector_size}
use psx.Sio.Card.Send.{read_frame, write_frame}

-- `n` elements from `a` on lie in the first part of a list.
window_left :
    (n a : ℕ) (xs ys : List ℕ) → a + n ≤ length xs → take n (drop a (xs ++ ys)) ≡ take n (drop a xs)
window_left zero a xs ys h = refl
window_left (suc n) zero [] ys h = absurd (omega arith)
window_left (suc n) zero (x ∷ xs) ys h = ap (λ zs. x ∷ zs) (window_left n zero xs ys (omega arith))
window_left (suc n) (suc a) [] ys h = absurd (omega arith)
window_left (suc n) (suc a) (x ∷ xs) ys h = window_left (suc n) a xs ys (omega arith)

window_take :
    (n a k : ℕ) (xs : List ℕ) → a + n ≤ k → take n (drop a (take k xs)) ≡ take n (drop a xs)
window_take zero a k xs h = refl
window_take (suc n) a zero xs h = absurd (omega arith)
window_take (suc n) zero (suc k) [] h = refl
window_take (suc n) (suc a) (suc k) [] h = refl
window_take (suc n) zero (suc k) (x ∷ xs) h =
    ap (λ zs. x ∷ zs) (window_take n zero k xs (omega arith))
window_take (suc n) (suc a) (suc k) (x ∷ xs) h = window_take (suc n) a k xs (omega arith)

-- Or in the second part, of which `i` elements come before.
drop_right : (a i : ℕ) (xs ys : List ℕ) → length xs + i ≡ a → drop a (xs ++ ys) ≡ drop i ys
drop_right a i [] ys h = ap (λ k. drop k ys) (omega arith)
drop_right zero i (x ∷ xs) ys h = absurd (omega arith)
drop_right (suc a) i (x ∷ xs) ys h = drop_right a i xs ys (omega arith)

drop_nil : (j : ℕ) → drop {A = ℕ} j [] ≡ []
drop_nil zero = refl
drop_nil (suc j) = refl

drop-drop : (i k j : ℕ) (xs : List ℕ) → k + i ≡ j → drop i (drop k xs) ≡ drop j xs
drop-drop i zero j xs h = ap (λ n. drop n xs) (omega arith)
drop-drop i (suc k) j [] h = drop_nil i ∙ sym (drop_nil j)
drop-drop i (suc k) zero (x ∷ xs) h = absurd (omega arith)
drop-drop i (suc k) (suc j) (x ∷ xs) h = drop-drop i k j xs (omega arith)

-- An array with `part` in the place of 128 bytes from `s` on.
abbrev patched : ℕ → List ℕ → List ℕ → List ℕ
patched s part arr = take s arr ++ (part ++ drop (s + 128) arr)

module _ (s : ℕ) (part arr : List ℕ) (size : length part ≡ 128) (room : s + 128 ≤ length arr) where
  length-patched : length (patched s part arr) ≡ length arr
  length-patched = omega (
    arith,
    length-append (take s arr) (part ++ drop (s + 128) arr),
    length-append part (drop (s + 128) arr),
    length-take s arr,
    length-drop (s + 128) arr,
  )

  patched_at : take 128 (drop s (patched s part arr)) ≡ part
  patched_at =
      ap (take 128) (
        drop_right s 0 (take s arr) (part ++ drop (s + 128) arr) (omega (arith, length-take s arr)))
      ∙ window_left 128 0 part (drop (s + 128) arr) (omega arith)
      ∙ take_all 128 part size

  patched_before :
      (a : ℕ) → a + 128 ≤ s → take 128 (drop a (patched s part arr)) ≡ take 128 (drop a arr)
  patched_before a h =
      window_left 128 a (take s arr) (part ++ drop (s + 128) arr) (omega (arith, length-take s arr))
      ∙ window_take 128 a s arr h

  patched_after :
      (a : ℕ) → s + 128 ≤ a → take 128 (drop a (patched s part arr)) ≡ take 128 (drop a arr)
  patched_after a h = ap (take 128) (
      drop_right a (a - s) (take s arr) (part ++ drop (s + 128) arr)
        (omega (arith, length-take s arr))
      ∙ drop_right (a - s) (a - s - 128) part (drop (s + 128) arr) (omega arith)
      ∙ drop-drop (a - s - 128) (s + 128) a arr (omega arith))

frame_there :
    (m : ℕ) (c : Card)
    → length c.mc_buffer ≡ memcard_size
    → m ≤ max_sector
    → read_frame m c ≡ some (take 128 (drop (m * 128) c.mc_buffer))
unfolding read_frame slice
frame_there m c size h = ground arith

frame_absent : (m : ℕ) (c : Card) → max_sector < m → read_frame m c ≡ none
unfolding read_frame slice
frame_absent m c h = ground arith

-- Another frame is not touched.
other_frame :
    (n m : ℕ) (part arr : List ℕ)
    → length part ≡ 128
    → n * 128 + 128 ≤ length arr
    → m ≢ n
    → take 128 (drop (m * 128) (patched (n * 128) part arr)) ≡ take 128 (drop (m * 128) arr)
other_frame n m part arr size room ne = elim (dec_lt m n) [
  | yes p ↦ patched_before (n * 128) part arr size room (m * 128) (omega arith)
  | no p ↦ patched_after (n * 128) part arr size room (m * 128) (omega (arith, ne))
]

after_write :
    (n m : ℕ) (bytes : List ℕ) (c after : Card)
    → length c.mc_buffer ≡ memcard_size
    → length bytes ≡ 128
    → n ≤ max_sector
    → after.mc_buffer ≡ patched (n * 128) bytes c.mc_buffer
    → length after.mc_buffer ≡ memcard_size
    → read_frame m after ≡ (if m == n then some bytes else read_frame m c)
after_write n m bytes c after size len h e size_after = elim (dec_lt max_sector m) [
  | yes p ↦
      if_cases (λ r. read_frame m after ≡ r) (m == n) (λ q. absurd (ground arith))
        (λ q. frame_absent m after p ∙ sym (frame_absent m c p))
  | no p ↦
      let room : n * 128 + 128 ≤ length c.mc_buffer = omega arith in
      let there =
        frame_there m after size_after (omega arith)
        ∙ ap (λ arr. some (take 128 (drop (m * 128) arr))) e in
      if_cases (λ r. read_frame m after ≡ r) (m == n)
        (λ q.
          let same : m ≡ n = ground arith in
          there
          ∙ ap (λ k. some (take 128 (drop (k * 128) (patched (n * 128) bytes c.mc_buffer)))) same
          ∙ ap some (patched_at (n * 128) bytes c.mc_buffer len room))
        (λ q.
          there
          ∙ ap some (other_frame n m bytes c.mc_buffer len room (ground arith))
          ∙ sym (frame_there m c size (omega arith)))
]

-- A frame that is there is written, and is then read as it was written; every other frame is read as before.
pub read_frame-write_frame :
    (n m : ℕ) (bytes : List ℕ) (c : Card)
    → length c.mc_buffer ≡ memcard_size
    → length bytes ≡ sector_size
    → n ≤ max_sector
    → (after : Card) × (write_frame n bytes c ≡ some (true, after))
      × (length after.mc_buffer ≡ memcard_size)
      × (read_frame m after ≡ (if m == n then some bytes else read_frame m c))
unfolding write_frame splice
read_frame-write_frame n m bytes c size length_ h =
    let room : n * 128 + 128 ≤ length c.mc_buffer = omega arith in
    let after = record c {
      mc_buffer = patched (n * 128) bytes c.mc_buffer;
      update_seq_number = add32 c.update_seq_number 1;
    } in
    (
      after,
      ground (arith, length_),
      length-patched (n * 128) bytes c.mc_buffer length_ room ∙ size,
      after_write n m bytes c after size length_ h refl
          (length-patched (n * 128) bytes c.mc_buffer length_ room ∙ size),
    )
