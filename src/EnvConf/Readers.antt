-- ===== src/EnvConf/Readers.antt =====
-- What the readers of numbers give back.
use native.Mathlib.Decide.{dec_lt}
use instachron.Base.Int.{◌+ℤ◌, neg_part, negsuc}
use instachron.Base.{◌%◌, ◌/◌, ◌+◌}
use instachron.Base.{
  ℕ, ◌-◌, ◌*◌, ◌^◌, ◌≤◌, ◌<◌, ◌≡◌, refl, arith, false, [], ok, Bool-cases, inl, inr,
}
use instachron.Base.Int.{ℤ, pos, pos_part}
use instachron.Text.{Text, text_eq, text_eq_iff}
use instachron.Strconv.{
  format_uint, parse_uint, atoi, atoi-format_uint, parse_uint-format_uint, format_uint-ne-nil,
}
use instachron.EnvConf.{Env, int, int64, uint32, seconds, wrap_int64}

set_number : (v : Text) (n : ℕ) → v ≡ format_uint n → text_eq v [] ≡ false
set_number v n e = elim (Bool-cases (text_eq v [])) [
  | inl empty ↦ absurd (format_uint-ne-nil n (cc ((text_eq_iff v []).0 empty)))
  | inr full ↦ full
]

wrap_int64_small : (n : ℕ) → n < 2 ^ 63 → wrap_int64 (pos n) ≡ pos n
unfolding wrap_int64
wrap_int64_small n h = ground arith

-- When a variable holds the decimal text of a number below 2 ^ 32, Int, Int64 and Uint32 give
-- that number, and Seconds that many seconds, whatever the fallback is.
pub numbers_read :
    (env : Env) (key : Text) (n : ℕ) (fallback : ℤ) (default : ℕ)
    → env key ≡ format_uint n
    → n < 2 ^ 32
    → (int env key fallback ≡ pos n)
      × (int64 env key fallback ≡ pos n)
      × (uint32 env key default ≡ n)
      × (seconds env key fallback ≡ pos (n * 1_000_000_000))
unfolding int int64 uint32 seconds
numbers_read env key n fallback default e h =
    let full = set_number (env key) n e in
    let read : atoi (env key) ≡ ok (pos n) = rw e (atoi-format_uint n (omega arith)) in
    let read32 : parse_uint (2 ^ 32 - 1) (env key) ≡ ok n =
      rw e (parse_uint-format_uint (2 ^ 32 - 1) n (omega arith) (omega arith)) in
    (
      rw full (rw read refl),
      rw full (rw read refl),
      rw full (rw read32 (omega arith)),
      rw full (rw read (wrap_int64_small (n * 1_000_000_000) (omega arith))),
    )

wrap_int64_low : (n : ℕ) → n % 2 ^ 64 < 2 ^ 63 → wrap_int64 (pos n) ≡ pos (n % 2 ^ 64)
unfolding wrap_int64
wrap_int64_low n h = ground arith

wrap_int64_high :
    (n : ℕ) → 2 ^ 63 ≤ n % 2 ^ 64 → wrap_int64 (pos n) ≡ negsuc (2 ^ 64 - n % 2 ^ 64 - 1)
unfolding wrap_int64
wrap_int64_high n h = ground arith

-- The difference of an int64 product from the exact one is a multiple of 2 ^ 64.
wrap_int64_big :
    (n : ℕ)
    → 2 ^ 63 ≤ n
    → let s = wrap_int64 (pos n) in
      (k : ℕ) × (0 < k)
      × (s +ℤ pos (k * 2 ^ 64) ≡ pos n)
      × (pos_part s < 2 ^ 63)
      × (neg_part s ≤ 2 ^ 63)
wrap_int64_big n h = elim (dec_lt (n % 2 ^ 64) (2 ^ 63)) [
  | yes low ↦ (
    n / 2 ^ 64,
    omega arith,
    rw (wrap_int64_low n low) (ground arith),
    rw (wrap_int64_low n low) low,
    rw (wrap_int64_low n low) (omega arith),
  )
  | no high ↦
      let e = wrap_int64_high n (omega arith) in
      (n / 2 ^ 64 + 1, omega arith, rw e (ground arith), rw e (omega arith), rw e (omega arith))
]

-- When a variable holds the decimal text of a number of seconds below 2 ^ 63 whose nanoseconds do
-- not fit 63 bits, Seconds gives that many nanoseconds less a positive multiple of 2 ^ 64, namely
-- the result that fits a signed word of 64 bits.
pub seconds_overflow :
    (env : Env) (key : Text) (n : ℕ) (fallback : ℤ)
    → env key ≡ format_uint n
    → n < 2 ^ 63
    → 2 ^ 63 ≤ n * 1_000_000_000
    → let s = seconds env key fallback in
      (k : ℕ) × (0 < k)
      × (s +ℤ pos (k * 2 ^ 64) ≡ pos (n * 1_000_000_000))
      × (pos_part s < 2 ^ 63)
      × (neg_part s ≤ 2 ^ 63)
unfolding seconds
seconds_overflow env key n fallback e h over =
    let full = set_number (env key) n e in
    let read : atoi (env key) ≡ ok (pos n) = rw e (atoi-format_uint n h) in
    rw full (rw read (wrap_int64_big (n * 1_000_000_000) over))
