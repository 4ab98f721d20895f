-- ===== src/Upscaler/Digits.antt =====
-- `scale & (scale-1)`, which is zero for the powers of two.
use Prim.Native.Nat.{bit_and, digits, bit_and-bitwise}
use native.Mathlib.Decide.{dec_le}
use instachron.Base.{ℕ, zero, suc, ◌+◌, ◌-◌, ◌*◌, ◌/◌, ◌%◌, ◌≤◌, ◌<◌, ◌≡◌, refl, arith, min}

-- The digits by the definition that stands behind bit_and, on any fuel that is enough.
abbrev both : ℕ → ℕ → ℕ → ℕ
both fuel x y = digits (λ _. zero) min fuel x y

both_enough : (j k x y : ℕ) → x ≤ j → x ≤ k → both j x y ≡ both k x y
both_enough zero zero x y hj hk = refl
both_enough (suc j) zero zero y hj hk = refl
both_enough (suc j) zero (suc x) y hj hk = absurd (omega arith)
both_enough zero (suc k) zero y hj hk = refl
both_enough zero (suc k) (suc x) y hj hk = absurd (omega arith)
both_enough (suc j) (suc k) zero y hj hk = refl
both_enough (suc j) (suc k) (suc x) y hj hk =
    let halves = both_enough j k (suc x / 2) (y / 2) (omega arith) (omega arith) in
    omega (arith, halves)

zero_and : (y : ℕ) → bit_and 0 y ≡ 0
zero_and = bit_and-bitwise 0

-- The lowest digit apart.
and_halves : (x y : ℕ) → bit_and x y ≡ bit_and (x / 2) (y / 2) * 2 + min (x % 2) (y % 2)
and_halves zero y = omega (arith, zero_and (y / 2), zero_and y)
and_halves (suc x) y =
    let half = suc x / 2 in
    let enough = both_enough half x half (y / 2) (omega arith) (omega arith) in
    omega (arith, enough, bit_and-bitwise half (y / 2), bit_and-bitwise (suc x) y)

and_self_below : (bound x : ℕ) → x ≤ bound → bit_and x x ≡ x
and_self_below bound zero h = zero_and 0
and_self_below zero (suc x) h = absurd (omega arith)
and_self_below (suc bound) (suc x) h =
    omega (arith, and_self_below bound (suc x / 2) (omega arith), and_halves (suc x) (suc x))

-- A number above one that shares no digit with its predecessor is even, and its half does not
-- either.
pub and_pred-half :
    (n : ℕ) → 1 < n → bit_and n (n - 1) ≡ 0 → (n % 2 ≡ 0) × (bit_and (n / 2) (n / 2 - 1) ≡ 0)
and_pred-half n big none =
    let upper : bit_and (n / 2) ((n - 1) / 2) ≡ 0 = omega (arith, and_halves n (n - 1)) in
    elim (dec_le 1 (n % 2)) [
      | yes odd ↦
          let e : (n - 1) / 2 ≡ n / 2 = omega arith in
          let same : bit_and (n / 2) (n / 2) ≡ 0 = rw e at upper in
          absurd (omega (arith, and_self_below (n / 2) (n / 2) (omega arith)))
      | no even ↦ let e : (n - 1) / 2 ≡ n / 2 - 1 = omega arith in (omega arith, rw e at upper)
    ]
