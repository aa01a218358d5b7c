-- ===== src/Interrupts/Sleep.antt =====
-- `get_pit_time` and `system_timer_sleep` of kernel/src/sys/tick/clkhandler.c. The clock's interrupts
-- come between the readings of `system_time`, so that reading `i` of the loop is a parameter.
use horizon.Common.{
  ℕ, zero, suc, none, some, ◌+◌, ◌^◌, ◌<◌, ◌≤◌, ◌≡◌, Option, ltb, if◌then◌else◌, u64, arith, inl,
  inr, Bool-cases, ap,
}
use horizon.Interrupts.{Kernel}

unfoldable pub get_pit_time : Kernel → ℕ
get_pit_time k = k.system_time

-- The number of the reading at which the loop ends.
unfoldable pub sleep_loop : ℕ → (ℕ → ℕ) → ℕ → ℕ → Option ℕ
sleep_loop zero time until i = none
sleep_loop (suc fuel) time until i =
    let rest = sleep_loop fuel time until (i + 1) in if ltb (time i) until then rest else some i

-- Reading 0 is `start`.
unfoldable pub system_timer_sleep : ℕ → (ℕ → ℕ) → ℕ → Option ℕ
system_timer_sleep fuel time offset = sleep_loop fuel time (u64 (time 0 + offset)) 1

-- What the loop is to come to: the first reading from `i` on that is not before `until`.
abbrev pub FirstAt : (ℕ → ℕ) → ℕ → ℕ → Option ℕ → Type 0
FirstAt time until i none = ⊥
FirstAt time until i (some j) =
    (i ≤ j) × (until ≤ time j) × ((q : ℕ) → i ≤ q → q < j → time q < until)

FirstAt-suc :
    (time : ℕ → ℕ) (until i : ℕ) (r : Option ℕ)
    → time i < until
    → FirstAt time until (i + 1) r
    → FirstAt time until i r
FirstAt-suc time until i none early h = h
FirstAt-suc time until i (some j) early h = (
  omega (arith, h.0),
  h.1,
  λ q lo hi. elim (Bool-cases (ltb i q)) [
    | inl later ↦ h.2 q (ground (arith, later)) hi
    | inr same ↦ let e : q ≡ i = ground (arith, same, lo) in rw e early
  ],
)

sleep_loop-FirstAt :
    (fuel : ℕ) (time : ℕ → ℕ) (until i n : ℕ)
    → i ≤ n
    → n < i + fuel
    → until ≤ time n
    → FirstAt time until i (sleep_loop fuel time until i)
unfolding sleep_loop
sleep_loop-FirstAt zero time until i n lo hi late = absurd (omega arith)
sleep_loop-FirstAt (suc fuel) time until i n lo hi late = elim (Bool-cases (ltb (time i) until)) [
  | inl early ↦
      let other : i < n = elim (Bool-cases (ltb i n)) [
        | inl less ↦ ground (arith, less)
        | inr same ↦
            let e : n ≡ i = ground (arith, same) in absurd (ground (arith, early, late, ap time e))
      ] in
      rw early (
        FirstAt-suc time until i _ (ground (arith, early))
          (sleep_loop-FirstAt fuel time until (i + 1) n (omega arith) (omega arith) late))
  | inr done ↦ rw done (omega arith, ground (arith, done), λ q from below. absurd (omega arith))
]

-- When the end of the sleep is below 2^64 and one of the readings within the fuel is not before it,
-- `system_timer_sleep` ends, at the first reading that is not before it.
pub system_timer_sleep-FirstAt :
    (fuel : ℕ) (time : ℕ → ℕ) (offset n : ℕ)
    → time 0 + offset < 2 ^ 64
    → 1 ≤ n
    → n < 1 + fuel
    → time 0 + offset ≤ time n
    → FirstAt time (time 0 + offset) 1 (system_timer_sleep fuel time offset)
unfolding system_timer_sleep
system_timer_sleep-FirstAt fuel time offset n small lo hi late =
    let e : u64 (time 0 + offset) ≡ time 0 + offset = omega arith in
    rw e (sleep_loop-FirstAt fuel time (time 0 + offset) 1 n lo hi late)
