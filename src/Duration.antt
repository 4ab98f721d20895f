-- ===== src/Duration.antt =====
-- Go's time.ParseDuration. A fraction is computed exactly here, where the library multiplies
-- floating-point numbers. The value is in nanoseconds.
use instachron.Base.{
  ℕ, zero, suc, ◌+◌, ◌-◌, ◌*◌, ◌/◌, ◌^◌, ◌≤◌, ◌<◌, ◌≡◌, refl, arith, inl, inr, Option-cases,
  Bool-cases, ap, Bool, true, false, ◌&&◌, ◌||◌, not, Option, none, some, List, [], ◌∷◌, length,
  ltb, leb, ◌==◌, if◌then◌else◌,
}
use instachron.Base.Int.{ℤ, pos, sub_ℕ}
use instachron.Text.{Text, codes, text_eq}

is_digit : ℕ → Bool
is_digit c = leb b'0' c && leb c b'9'

-- leadingInt: the number in front, and what is behind it; none is an overflow.
leading_int : ℕ → Text → Option (ℕ × Text)
leading_int v [] = some (v, [])
leading_int v (c ∷ s) =
    let next = v * 10 + (c - b'0') in
    let rest = leading_int next s in
    if is_digit c then (if ltb (2 ^ 63) next then none else rest) else some (v, c ∷ s)

-- leadingFraction: the digits as a number, the power of ten that they are counted in, and what is
-- behind them. Digits that make the number too large are skipped, and all behind them.
leading_fraction : Bool → ℕ → ℕ → Text → ℕ × ℕ × Text
leading_fraction overflow f scale [] = (f, scale, [])
leading_fraction overflow f scale (c ∷ s) =
    let next = f * 10 + (c - b'0') in
    let rest = leading_fraction false next (scale * 10) s in
    let skipped = leading_fraction true f scale s in
    if is_digit c
    then (if overflow || ltb (2 ^ 63) next then skipped else rest)
    else (f, scale, c ∷ s)

-- The unit in front, up to the next digit or point.
split_unit : Text → Text × Text
split_unit [] = ([], [])
split_unit (c ∷ s) =
    let (u, rest) = split_unit s in if c == b'.' || is_digit c then ([], c ∷ s) else (c ∷ u, rest)

abbrev unit_map : List (Text × ℕ)
unit_map =
    (codes "ns", 1)
    ∷ (codes "us", 1_000)
    ∷ (0xc2 ∷ 0xb5 ∷ codes "s", 1_000)
    ∷ (0xce ∷ 0xbc ∷ codes "s", 1_000)
    ∷ (codes "ms", 1_000_000)
    ∷ (codes "s", 1_000_000_000)
    ∷ (codes "m", 60_000_000_000)
    ∷ (codes "h", 3_600_000_000_000)
    ∷ []

unit_of : Text → List (Text × ℕ) → Option ℕ
unit_of u [] = none
unit_of u ((name, n) ∷ units) =
    let rest = unit_of u units in if text_eq name u then some n else rest

-- The fraction behind a point, if there is one; whether there were digits is the length it took.
fraction : Text → ℕ × ℕ × Text
unfolding leading_fraction is_digit
fraction [] = (0, 1, [])
fraction (c ∷ s) = if c == b'.' then leading_fraction false 0 1 s else (0, 1, c ∷ s)

behind_point : Text → Text
behind_point [] = []
behind_point (c ∷ s) = if c == b'.' then s else c ∷ s

-- A number with its unit, in nanoseconds.
scaled : ℕ → ℕ → ℕ → ℕ → Option ℕ
scaled v f scale unit =
    let whole = v * unit in
    let total = whole + (if ltb 0 f then (f * unit) / scale else 0) in
    if ltb (2 ^ 63) whole || ltb (2 ^ 63) total then none else some total

abbrev starts_number : Text → Bool
starts_number [] = false
starts_number (c ∷ s) = c == b'.' || is_digit c

with_unit : ℕ → ℕ → ℕ → Text → Option ℕ → Option (ℕ × Text)
unfolding scaled
with_unit v f scale rest none = none
with_unit v f scale rest (some unit) = elim (scaled v f scale unit) [
  | none ↦ none
  | some n ↦ some (n, rest)
]

-- What follows the whole part: a fraction and the unit.
after_int : Text → Option (ℕ × Text) → Option (ℕ × Text)
unfolding is_digit split_unit unit_of fraction behind_point with_unit
after_int s none = none
after_int s (some (v, s1)) =
    let (f, scale, s2) = fraction s1 in
    let (u, s3) = split_unit s2 in
    let pre = not (length s1 == length s) in
    let post = not (length s2 == length (behind_point s1)) in
    if not (starts_number s) || not (pre || post)
    then none
    else with_unit v f scale s3 (unit_of u unit_map)

-- One round of the loop: a number and a unit.
component : Text → Option (ℕ × Text)
unfolding leading_int after_int
component s = after_int s (leading_int 0 s)

-- The loop, on fuel; each round takes a byte at least.
components : ℕ → ℕ → Text → Option ℕ
components zero d s = none
components (suc fuel) d [] = some d
components (suc fuel) d (c ∷ s) = elim (component (c ∷ s)) [
  | none ↦ none
  | some (n, rest) ↦ elim (ltb (2 ^ 63) (d + n)) [
    | true ↦ none
    | false ↦ components fuel (d + n) rest
  ]
]

abbrev sign : Text → Bool × Text
sign [] = (false, [])
sign (c ∷ s) = if c == b'-' then (true, s) else if c == b'+' then (false, s) else (false, c ∷ s)

abbrev signed : Bool → Option ℕ → Option ℤ
signed negative none = none
signed negative (some d) =
    if negative then some (sub_ℕ 0 d) else if ltb (2 ^ 63 - 1) d then none else some (pos d)

unfoldable pub parse_duration : Text → Option ℤ
unfolding component components
parse_duration text =
    let (negative, s) = sign text in
    if text_eq s (codes "0")
    then some (pos 0)
    else if text_eq s []
    then none
    else signed negative (components (length s + 1) 0 s)

leading_int-le :
    (v : ℕ) (s : Text) (w : ℕ) (r : Text) → leading_int v s ≡ some (w, r) → length r ≤ length s
unfolding leading_int
leading_int-le v [] w r h = ground arith
leading_int-le v (c ∷ s) w r h = ground (arith, leading_int-le (v * 10 + (c - b'0')) s w r)

leading_fraction-le :
    (overflow : Bool) (f scale : ℕ) (s : Text)
    → length (leading_fraction overflow f scale s).2 ≤ length s
unfolding leading_fraction
leading_fraction-le overflow f scale [] = omega arith
leading_fraction-le overflow f scale (c ∷ s) = ground (
  arith,
  leading_fraction-le false (f * 10 + (c - b'0')) (scale * 10) s,
  leading_fraction-le true f scale s,
)

fraction-le : (s : Text) → length (fraction s).2 ≤ length s
unfolding fraction
fraction-le [] = omega arith
fraction-le (c ∷ s) = ground (arith, leading_fraction-le false 0 1 s)

split_unit-le : (s : Text) → length (split_unit s).0 + length (split_unit s).1 ≡ length s
unfolding split_unit
split_unit-le [] = refl
split_unit-le (c ∷ s) = ground (arith, split_unit-le s)

no_empty_unit : (u : Text) (n : ℕ) → unit_of u unit_map ≡ some n → 0 < length u
unfolding unit_of text_eq
no_empty_unit [] n h = cc
no_empty_unit (c ∷ u) n h = omega arith

with_unit-rest :
    (v f scale : ℕ) (rest : Text) (o : Option ℕ) (n : ℕ) (r : Text)
    → with_unit v f scale rest o ≡ some (n, r)
    → (r ≡ rest) × ((unit : ℕ) × (o ≡ some unit))
unfolding with_unit
with_unit-rest v f scale rest none n r h = absurd (cc)
with_unit-rest v f scale rest (some unit) n r h = elim (Option-cases (scaled v f scale unit)) [
  | inl e ↦ absurd (cc (rw (e, with_unit) at h))
  | inr (m, e) ↦ (cc (rw (e, with_unit) at h), (unit, refl))
]

after_int-lt :
    (s : Text) (o : Option (ℕ × Text)) (n : ℕ) (r : Text)
    → leading_int 0 s ≡ o
    → after_int s o ≡ some (n, r)
    → length r < length s
unfolding after_int
after_int-lt s none n r e h = absurd (cc)
after_int-lt s (some (v, s1)) n r e h =
    let (f, scale, s2) = fraction s1 in
    let (u, s3) = split_unit s2 in
    let pre = not (length s1 == length s) in
    let post = not (length s2 == length (behind_point s1)) in
    elim (Bool-cases (not (starts_number s) || not (pre || post))) [
      | inl bad ↦ absurd (cc (rw bad at h))
      | inr good ↦
          let found = with_unit-rest v f scale s3 (unit_of u unit_map) n r (rw good at h) in
          omega (
            arith,
            ap length found.0,
            no_empty_unit u found.1.0 found.1.1,
            split_unit-le s2,
            fraction-le s1,
            leading_int-le 0 s v s1 e,
          )
    ]

-- A round of the loop takes a byte at least.
component-lt : (s : Text) (n : ℕ) (r : Text) → component s ≡ some (n, r) → length r < length s
unfolding component
component-lt s n r h = after_int-lt s (leading_int 0 s) n r refl h

-- More fuel than there are bytes makes no difference: the loop has ended by then.
components_enough :
    (fuel more d : ℕ) (s : Text)
    → length s < fuel
    → length s < more
    → components fuel d s ≡ components more d s
unfolding components
components_enough zero more d s h h' = absurd (omega arith)
components_enough (suc fuel) zero d s h h' = absurd (omega arith)
components_enough (suc fuel) (suc more) d [] h h' = refl
components_enough (suc fuel) (suc more) d (c ∷ s) h h' = elim (Option-cases (component (c ∷ s))) [
  | inl e ↦ rw (e, components)
  | inr ((n, rest), e) ↦
      let shorter = component-lt (c ∷ s) n rest e in
      elim (Bool-cases (ltb (2 ^ 63) (d + n))) [
        | inl over ↦ rw (e, components) (rw over refl)
        | inr in_range ↦
            rw (e, components)
              (rw in_range (
                components_enough fuel more (d + n) rest (omega (arith, shorter))
                  (omega (arith, shorter))))
      ]
]

ten_minutes : parse_duration (codes "10m") ≡ some (pos 600_000_000_000)
unfolding parse_duration text_eq
ten_minutes = refl

mixed : parse_duration (codes "-1h2.5s") ≡ some (sub_ℕ 0 3_602_500_000_000)
unfolding parse_duration text_eq
mixed = refl

no_unit : parse_duration (codes "10") ≡ none
unfolding parse_duration text_eq
no_unit = refl
