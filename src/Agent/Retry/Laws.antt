-- ===== src/Agent/Retry/Laws.antt =====
-- The delays in order, and where the shift overflows.
use native.Mathlib.Nat.{pow-le-pow_right, pow-suc}
use stoker_operator.Prelude.{
  ℕ, zero, suc, ◌+◌, ◌-◌, ◌*◌, ◌%◌, ◌^◌, ◌≤◌, ◌<◌, ◌≡◌, refl, leb, if◌then◌else◌, arith,
}
use stoker_operator.Prelude.Int.{pos}
use stoker_operator.Agent.Retry.{int64, nanoseconds, shifted, min_with, retry_delay}

-- The delay that is meant: 30 seconds, doubled with each error after the first, and at most 5 minutes.
abbrev pub meant_delay : ℕ → ℕ
meant_delay n =
    let delay = nanoseconds 30 * 2 ^ (n - 1) in
    if leb delay (nanoseconds 300) then delay else nanoseconds 300

power_fits : (k : ℕ) → k ≤ 28 → 2 ^ k ≤ 268_435_456
power_fits k h = pow-le-pow_right {n = 2} (omega arith) {i = k} {j = 28} h

power_positive : (k : ℕ) → 1 ≤ 2 ^ k
power_positive k = pow-le-pow_right {n = 2} (omega arith) {i = 0} {j = k} (omega arith)

-- Up to the 29th error in a row the delay is the one that is meant, between 30 seconds and 5 minutes.
pub retry_delay-meant_delay :
    (n : ℕ)
    → 0 < n
    → n ≤ 29
    → (retry_delay n ≡ pos (meant_delay n))
      × (nanoseconds 30 ≤ meant_delay n)
      × (meant_delay n ≤ nanoseconds 300)
unfolding retry_delay shifted min_with int64
retry_delay-meant_delay n p q =
    ground (arith, power_fits (n - 1) (omega arith), power_positive (n - 1))

power_above : (k : ℕ) → 2 ^ (54 + k) ≡ 18_014_398_509_481_984 * 2 ^ k
power_above zero = refl
power_above (suc k) =
    let e : 54 + suc k ≡ suc (54 + k) = omega arith in
    rw e (omega (arith, power_above k, pow-suc 2 (54 + k), pow-suc 2 k))

power_split : (n : ℕ) → 55 ≤ n → 2 ^ (n - 1) ≡ 18_014_398_509_481_984 * 2 ^ (n - 55)
power_split n h = let e : n - 1 ≡ 54 + (n - 55) = omega arith in rw e (power_above (n - 55))

-- From the 55th error in a row on the delay is 0: the shift has dropped every bit.
pub retry_delay_zero : (n : ℕ) → 55 ≤ n → retry_delay n ≡ pos 0
unfolding retry_delay shifted min_with int64
retry_delay_zero n h =
    let e : nanoseconds 30 * 2 ^ (n - 1) % 2 ^ 64 ≡ 0 = omega (arith, power_split n h) in rw e refl
