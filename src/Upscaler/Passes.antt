-- ===== src/Upscaler/Passes.antt =====
-- services/camera-web-restream-upscaler-api/internal/pipeline/pool.go: stepsFor, and the sizes of an
-- image under upscale.
use Prim.Native.Nat.{bit_and}
use instachron.Base.{
  ℕ, zero, suc, ◌-◌, ◌*◌, ◌/◌, ◌≤◌, ◌<◌, ◌≡◌, refl, ◌∙◌, arith, true, false, List, [], ◌∷◌, leb,
  ltb, ◌==◌, ==_iff, if◌then◌else◌, Bool-cases, inl, inr,
}
use instachron.Upscaler.Digits.{and_pred-half}
use native.Mathlib.Nat.{mul_assoc}
use native.Mathlib.Decide.{dec_lt, dec_le}

-- `for scale > 1 { append 2; scale >>= 1 }`; a round halves the scale, so fuel as large as the scale
-- is enough.
unfoldable pub halving_steps : ℕ → ℕ → List ℕ
halving_steps zero scale = []
halving_steps (suc fuel) scale =
    let rest = halving_steps fuel (scale / 2) in if ltb 1 scale then 2 ∷ rest else []

unfoldable pub steps_for : ℕ → List ℕ
unfolding halving_steps
steps_for scale =
    if leb scale 1
    then []
    else if bit_and scale (scale - 1) == 0
    then halving_steps scale scale
    else scale ∷ []

-- The size of the image after the passes of upscale.
unfoldable pub upscaled : List ℕ → ℕ × ℕ → ℕ × ℕ
upscaled [] size = size
upscaled (s ∷ steps) (w, h) = upscaled steps (w * s, h * s)

product : List ℕ → ℕ
product [] = 1
product (s ∷ steps) = s * product steps

halving_steps-product :
    (fuel scale : ℕ)
    → scale ≤ fuel
    → 0 < scale
    → bit_and scale (scale - 1) ≡ 0
    → product (halving_steps fuel scale) ≡ scale
unfolding halving_steps product
halving_steps-product zero scale fits positive power = absurd (omega arith)
halving_steps-product (suc fuel) scale fits positive power = elim (dec_lt 1 scale) [
  | yes big ↦
      let (even, half) = and_pred-half scale big power in
      let rest = halving_steps-product fuel (scale / 2) (omega arith) (omega arith) half in
      let more : ltb 1 scale ≡ true = ground arith in rw (more, halving_steps) (omega arith)
  | no one ↦ let done : ltb 1 scale ≡ false = ground arith in rw (done, halving_steps) (omega arith)
]

steps_for-product : (scale : ℕ) → 0 < scale → product (steps_for scale) ≡ scale
unfolding steps_for product
steps_for-product scale positive = elim (dec_le scale 1) [
  | yes one ↦ let e : leb scale 1 ≡ true = ground arith in rw (e, steps_for) (omega arith)
  | no big ↦
      let e : leb scale 1 ≡ false = ground arith in
      elim (Bool-cases (bit_and scale (scale - 1) == 0)) [
        | inl power ↦
            rw (e, power, steps_for)
              (halving_steps-product scale scale (omega arith) positive ((==_iff _ 0).0 power))
        | inr other ↦ rw (e, other, steps_for) (omega arith)
      ]
]

upscaled-product :
    (steps : List ℕ) (w h : ℕ) → upscaled steps (w, h) ≡ (w * product steps, h * product steps)
unfolding upscaled product
upscaled-product [] w h = ground arith
upscaled-product (s ∷ steps) w h =
    upscaled-product steps (w * s) (h * s)
    ∙ rw (mul_assoc w s (product steps), mul_assoc h s (product steps)) refl

-- The passes that stepsFor chooses for a positive scale make every image larger by exactly that
-- scale.
pub steps_for-upscaled :
    (scale w h : ℕ) → 0 < scale → upscaled (steps_for scale) (w, h) ≡ (w * scale, h * scale)
steps_for-upscaled scale w h positive =
    upscaled-product (steps_for scale) w h ∙ rw (steps_for-product scale positive) refl
