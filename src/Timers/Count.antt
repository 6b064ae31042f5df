-- ===== src/Timers/Count.antt =====
-- What a root counter counts: laws of `UpdateCounter`, of the event that is scheduled, and of the pause
-- by a blanking signal.
use native.Mathlib.Nat.{
  div-lt_iff_lt-mul, le-div_iff_mul-le, div-add-mod', mul-add-div_right, mod-add-mod, mod-le,
}
use psx.Base.{
  suc, refl, leb, Bool-cases, if◌then◌else◌, inl, inr, ℕ, sym, ap, ◌∙◌, ◌+◌, ◌-◌, ◌*◌, ◌/◌, ◌%◌,
  ◌^◌, ◌<◌, ◌≤◌, ◌≡◌, ◌≢◌, ◌⊎◌, false, arith,
}
use psx.Timers.Counter.{
  target_callback, overflow_callback, cycles_till_overflow, cycles_till_target, Counter,
}
use psx.Timers.Valid.{IsValid}
use psx.Timers.Events.{nearest_event, target_is_passed, update_counter}

-- Cycles taken in two parts count as in one.
div_in_parts : (a b d : ℕ) → 0 < d → a / d + (a % d + b) / d ≡ (a + b) / d
div_in_parts a b d h =
    sym (mul-add-div_right h (a / d) (a % d + b))
    ∙ ap (λ t. t / d) (omega (arith, div-add-mod' a d))

-- Counting `a` cycles and then `b` cycles is counting `a + b`: a running counter that is not reset at
-- its target holds the same value and the same rest of the division, however often it is brought up
-- to date, as long as the cycles in one call fit a u64.
pub update_counter-update_counter :
    (now later a b : ℕ) (c : Counter)
    → c.stopped ≡ false
    → c.mode.reset_on_target ≡ false
    → 0 < c.cycles_per_inc
    → c.count_partial + a + b < 2 ^ 64
    → update_counter later b (update_counter now a c) ≡ update_counter later (a + b) c
unfolding update_counter
update_counter-update_counter now later a b c running free speed fits =
    let total = c.count_partial + a in
    let rest_le : total % c.cycles_per_inc ≤ total = mod-le total c.cycles_per_inc in
    let first : (c.count_partial + a) % 2 ^ 64 ≡ total = omega arith in
    let second : (total % c.cycles_per_inc + b) % 2 ^ 64 ≡ total % c.cycles_per_inc + b =
      omega arith in
    let whole : (c.count_partial + (a + b)) % 2 ^ 64 ≡ total + b = omega arith in
    let parts : total / c.cycles_per_inc + (total % c.cycles_per_inc + b) / c.cycles_per_inc
        ≡ (total + b) / c.cycles_per_inc =
      div_in_parts total b c.cycles_per_inc speed in
    let rests : (total % c.cycles_per_inc + b) % c.cycles_per_inc ≡ (total + b) % c.cycles_per_inc =
      mod-add-mod total c.cycles_per_inc b in
    ground arith

-- Where the count is after `n` cycles.
count_after :
    (now n : ℕ) (c : Counter)
    → c.stopped ≡ false
    → c.mode.reset_on_target ≡ false
    → c.count_partial + n < 2 ^ 64
    → (update_counter now n c).count_value
      ≡ (c.count_value + (c.count_partial + n) / c.cycles_per_inc) % 2 ^ 16
unfolding update_counter
count_after now n c running free h =
    let e : (c.count_partial + n) % 2 ^ 64 ≡ c.count_partial + n = omega arith in ground arith

increments_bound : (k d : ℕ) → k ≤ 2 ^ 16 → d ≤ 2171 → k * d ≤ 2 ^ 16 * 2171
increments_bound k d hk hd = grind arith

mul_lt_right : (j k d : ℕ) → j < k → 0 < d → j * d < k * d
mul_lt_right j k d h p = grind arith

-- The overflow comes first exactly when the target does not lie ahead.
nearest_event_eq :
    (c : Counter)
    → IsValid c
    → nearest_event c ≡ (
        if leb c.count_target c.count_value
        then ((2 ^ 16 - c.count_value) * c.cycles_per_inc, overflow_callback)
        else ((c.count_target - c.count_value) * c.cycles_per_inc, target_callback))
unfolding nearest_event target_is_passed cycles_till_overflow cycles_till_target
nearest_event_eq c v =
    ground (
      arith,
      mul_lt_right (c.count_target - c.count_value) (2 ^ 16 - c.count_value) c.cycles_per_inc,
    )

-- The count after `k` increments, and before them.
module _ (now : ℕ) (c : Counter) (v : IsValid c) (running : c.stopped ≡ false)
    (free : c.mode.reset_on_target ≡ false) (k : ℕ) (near : k ≤ 2 ^ 16 - c.count_value) where
  count_at :
      (m : ℕ)
      → k * c.cycles_per_inc ≤ c.count_partial + m
      → m ≤ k * c.cycles_per_inc
      → (update_counter now m c).count_value ≡ (c.count_value + k) % 2 ^ 16
  count_at m due late =
      let positive : 0 < c.cycles_per_inc = omega arith in
      let up : (c.count_partial + m) / c.cycles_per_inc < suc k =
        (div-lt_iff_lt-mul positive).1 (omega arith) in
      let down : k ≤ (c.count_partial + m) / c.cycles_per_inc =
        (le-div_iff_mul-le positive).1 due in
      omega (
        arith,
        count_after now m c running free
            (omega (arith, increments_bound k c.cycles_per_inc (omega arith) (omega arith))),
      )

  count_before :
      (m : ℕ)
      → c.cycles_per_inc ≤ c.count_partial + m
      → c.count_partial + m < k * c.cycles_per_inc
      → let value = (update_counter now m c).count_value in
        (c.count_value < value) × (value < c.count_value + k)
  count_before m some_cycles few =
      let positive : 0 < c.cycles_per_inc = omega arith in
      let up : (c.count_partial + m) / c.cycles_per_inc < k = (div-lt_iff_lt-mul positive).1 few in
      let down : 1 ≤ (c.count_partial + m) / c.cycles_per_inc =
        (le-div_iff_mul-le positive).1 (omega arith) in
      omega (
        arith,
        count_after now m c running free
            (omega (arith, increments_bound k c.cycles_per_inc (omega arith) (omega arith))),
      )

-- The event that is scheduled is the next thing that happens to the count of a running counter that is not reset
-- at its target, whatever part of an increment it has counted. In the cycles from the increment that the event is
-- for to the event, which are as many as that part, and at the event, the count has wrapped to 0, if the event is
-- the overflow, or stands at the target; and at every increment before, it lies above the present value and is
-- not the target.
pub nearest_event_lem :
    (now : ℕ) (c : Counter)
    → IsValid c
    → c.stopped ≡ false
    → c.mode.reset_on_target ≡ false
    → let (n, callback) = nearest_event c in
      ((callback ≡ overflow_callback)
          × ((m : ℕ) → n ≤ c.count_partial + m → m ≤ n → (update_counter now m c).count_value ≡ 0)
        ⊎ (callback ≡ target_callback)
          × ((m : ℕ)
              → n ≤ c.count_partial + m
              → m ≤ n
              → (update_counter now m c).count_value ≡ c.count_target))
      × ((m : ℕ)
          → c.cycles_per_inc ≤ c.count_partial + m
          → c.count_partial + m < n
          → (c.count_value < (update_counter now m c).count_value)
            × ((update_counter now m c).count_value ≢ c.count_target))
nearest_event_lem now c v running free =
    let to_overflow : ℕ = 2 ^ 16 - c.count_value in
    let to_target : ℕ = c.count_target - c.count_value in
    elim (Bool-cases (leb c.count_target c.count_value)) [
      | inl behind ↦
          rw (nearest_event_eq c v, behind)
            (
              inl (
                refl,
                λ m due late.
                    count_at now c v running free to_overflow (omega arith) m due late
                    ∙ omega arith,
              ),
              λ m some_cycles few. ground (
                arith,
                count_before now c v running free to_overflow (omega arith) m some_cycles few,
              ),
            )
      | inr ahead ↦
          rw (nearest_event_eq c v, ahead)
            (
              inr (
                refl,
                λ m due late.
                    count_at now c v running free to_target (omega arith) m due late ∙ ground arith,
              ),
              λ m some_cycles few. ground (
                arith,
                count_before now c v running free to_target (omega arith) m some_cycles few,
              ),
            )
    ]
