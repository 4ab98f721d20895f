-- ===== src/Strconv.antt =====
-- Go's strconv over the bytes of a string: FormatUint and ParseUint in base 10,
-- and Atoi. ParseUint's accumulator is an unbounded number here; the source's tests for overflow
-- say no more than that it went past the largest value of the width.
use instachron.Base.{
  ℕ, zero, suc, ◌+◌, ◌-◌, ◌*◌, ◌/◌, ◌%◌, ◌^◌, ◌≤◌, ◌<◌, ◌≡◌, refl, ◌∙◌, ap, arith,
}
use instachron.Base.{Bool, true, false, ◌&&◌, ltb, leb, ◌==◌, if◌then◌else◌, Bool-cases}
use instachron.Base.{[], ◌∷◌, ◌++◌, Result, ok, err, ◌>>=◌, inl, inr, ◌≢◌, All, All-append}
use instachron.Base.Int.{ℤ, pos, sub_ℕ}
use instachron.Text.{Text}
use native.Mathlib.Nat.{pow-suc}

pub data NumError : Type 0 where
  syntax range : NumError

-- `k` more digits at most in front of the last one.
decimal : ℕ → ℕ → Text
decimal zero n = (b'0' + n % 10) ∷ []
decimal (suc k) n =
    let rest = decimal k (n / 10) in
    if ltb n 10 then (b'0' + n) ∷ [] else rest ++ ((b'0' + n % 10) ∷ [])

-- A uint64 has 20 digits at most.
unfoldable pub format_uint : ℕ → Text
unfolding decimal
format_uint v = decimal 19 v

is_digit : ℕ → Bool
is_digit c = leb b'0' c && leb c b'9'

parse_digits : ℕ → ℕ → Text → Result NumError ℕ
parse_digits max_val n [] = ok n
parse_digits max_val n (c ∷ cs) =
    let next = n * 10 + (c - b'0') in
    let rest = parse_digits max_val next cs in
    if is_digit c then (if ltb max_val next then err range else rest) else err syntax

unfoldable pub parse_uint : ℕ → Text → Result NumError ℕ
unfolding parse_digits is_digit
parse_uint max_val [] = err syntax
parse_uint max_val (c ∷ cs) = parse_digits max_val 0 (c ∷ cs)

parse_digits-append :
    (m n : ℕ) (xs ys : Text)
    → parse_digits m n (xs ++ ys) ≡ (parse_digits m n xs >>= λ k. parse_digits m k ys)
unfolding parse_digits
parse_digits-append m n [] ys = refl
parse_digits-append m n (c ∷ cs) ys =
    ground (arith, parse_digits-append m (n * 10 + (c - b'0')) cs ys)

parse_digits-le : (m n v : ℕ) (xs : Text) → n ≤ m → parse_digits m n xs ≡ ok v → v ≤ m
unfolding parse_digits
parse_digits-le m n v [] le h = ground arith
parse_digits-le m n v (c ∷ cs) le h = ground (arith, parse_digits-le m (n * 10 + (c - b'0')) v cs)

digit_step :
    (m n d : ℕ) → d < 10 → n * 10 + d ≤ m → parse_digits m n ((b'0' + d) ∷ []) ≡ ok (n * 10 + d)
unfolding parse_digits is_digit
digit_step m n d hd hm = ground arith

parse_digits-decimal : (k v m : ℕ) → v < 10 ^ suc k → v ≤ m → parse_digits m 0 (decimal k v) ≡ ok v
unfolding decimal
parse_digits-decimal zero v m h le =
    digit_step m 0 (v % 10) (omega arith) (omega arith) ∙ ap ok (omega arith)
parse_digits-decimal (suc k) v m h le = elim (Bool-cases (ltb v 10)) [
  | inl small ↦ rw small (digit_step m 0 v (ground arith) (omega arith) ∙ ap ok (omega arith))
  | inr big ↦
      rw (big, parse_digits-append)
        (rw (parse_digits-decimal k (v / 10) m (omega (arith, pow-suc 10 (suc k))) (omega arith))
          (digit_step m (v / 10) (v % 10) (omega arith) (omega arith) ∙ ap ok (omega arith)))
]

parse_uint-parse_digits :
    (m v : ℕ) (xs : Text) → xs ≢ [] → parse_digits m 0 xs ≡ ok v → parse_uint m xs ≡ ok v
unfolding parse_uint
parse_uint-parse_digits m v [] h e = absurd (h refl)
parse_uint-parse_digits m v (c ∷ cs) h e = e

append-ne-nil : (xs : Text) (c : ℕ) → xs ++ (c ∷ []) ≢ []
append-ne-nil [] c h = cc
append-ne-nil (x ∷ xs) c h = cc

decimal-ne-nil : (k v : ℕ) → decimal k v ≢ []
unfolding decimal
decimal-ne-nil zero v h = cc
decimal-ne-nil (suc k) v h = ground (arith, append-ne-nil (decimal k (v / 10)) (b'0' + v % 10))

-- A number is read back from its decimal form, when both fit the width.
pub parse_uint-format_uint : (m v : ℕ) → v < 2 ^ 64 → v ≤ m → parse_uint m (format_uint v) ≡ ok v
unfolding format_uint
parse_uint-format_uint m v h le =
    parse_uint-parse_digits m v (decimal 19 v) (decimal-ne-nil 19 v)
      (parse_digits-decimal 19 v m (omega arith) le)

-- A number that is read fits the width.
pub parse_uint-le : (m v : ℕ) (s : Text) → parse_uint m s ≡ ok v → v ≤ m
unfolding parse_uint
parse_uint-le m v [] h = cc
parse_uint-le m v (c ∷ cs) h = parse_digits-le m 0 v (c ∷ cs) (omega arith) h

-- A code of a decimal digit.
abbrev pub DigitCode : ℕ → Type 0
DigitCode c = (b'0' ≤ c) × (c ≤ b'9')

decimal-DigitCode : (k n : ℕ) → All DigitCode (decimal k n)
unfolding decimal
decimal-DigitCode zero n = (omega arith, tt)
decimal-DigitCode (suc k) n = elim (Bool-cases (ltb n 10)) [
  | inl small ↦ rw small (ground arith, tt)
  | inr big ↦
      rw big (
        All-append DigitCode (decimal k (n / 10)) _ (decimal-DigitCode k (n / 10))
          (omega arith, tt))
]

-- The decimal form has nothing but digits.
pub format_uint-DigitCode : (v : ℕ) → All DigitCode (format_uint v)
unfolding format_uint
format_uint-DigitCode v = decimal-DigitCode 19 v

-- The sign, and the digits behind it.
abbrev split_sign : Text → Bool × Text
split_sign [] = (false, [])
split_sign (c ∷ cs) =
    if c == b'-' then (true, cs) else if c == b'+' then (false, cs) else (false, c ∷ cs)

signed_value : Bool → ℕ → Result NumError ℤ
signed_value negative n =
    if negative
    then (if ltb (2 ^ 63) n then err range else ok (sub_ℕ 0 n))
    else (if ltb n (2 ^ 63) then ok (pos n) else err range)

-- strconv.Atoi and ParseInt(s, 10, 64), where int has 64 bits.
unfoldable pub atoi : Text → Result NumError ℤ
unfolding signed_value
atoi s =
    let (negative, digits) = split_sign s in
    parse_uint (2 ^ 64 - 1) digits >>= signed_value negative

atoi_digits :
    (c : ℕ) (cs : Text) (v : ℕ)
    → DigitCode c
    → v < 2 ^ 63
    → parse_uint (2 ^ 64 - 1) (c ∷ cs) ≡ ok v
    → atoi (c ∷ cs) ≡ ok (pos v)
unfolding atoi signed_value
atoi_digits c cs v digit h e =
    let minus : (c == b'-') ≡ false = ground arith in
    let plus : (c == b'+') ≡ false = ground arith in
    let small : ltb v (2 ^ 63) ≡ true = ground arith in rw (minus, plus) (rw e (rw small refl))

-- A natural number that fits an int64 is read back from its decimal form.
pub atoi-format_uint : (v : ℕ) → v < 2 ^ 63 → atoi (format_uint v) ≡ ok (pos v)
atoi-format_uint v h =
    on_digits (format_uint v) (format_uint-DigitCode v)
      (parse_uint-format_uint (2 ^ 64 - 1) v (omega arith) (omega arith))
  where
    on_digits :
        (s : Text) → All DigitCode s → parse_uint (2 ^ 64 - 1) s ≡ ok v → atoi s ≡ ok (pos v)
    on_digits [] digits e = absurd (unfold parse_uint in cc)
    on_digits (c ∷ cs) digits e = atoi_digits c cs v digits.0 h e

pub format_uint-ne-nil : (v : ℕ) → format_uint v ≢ []
unfolding format_uint
format_uint-ne-nil v = decimal-ne-nil 19 v
