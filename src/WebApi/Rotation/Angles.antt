-- ===== src/WebApi/Rotation/Angles.antt =====
-- The nearest of the four angles.
use instachron.Base.Int.{pos_part, neg_part}
use instachron.Base.{◌%◌, ◌/◌, ◌*◌, ◌-◌, suc}
use instachron.Base.{ℕ, ◌+◌, ◌≤◌, ◌<◌, ◌≡◌, refl, arith}
use instachron.Base.Int.{ℤ, pos, negsuc, ◌+ℤ◌}
use native.Mathlib.Decide.{dec_lt}
use instachron.WebApi.Rotation.{degrees, normalize, wrapped}

wrapped_lt : (deg : ℤ) → wrapped deg < 360
unfolding wrapped
wrapped_lt (pos n) = omega arith
wrapped_lt (negsuc n) = omega arith

-- Normalize gives an angle that is at most 45 degrees from the given one, up to whole turns.
pub normalize_nearest :
    (deg : ℤ)
    → (up down : ℕ) × (degrees (normalize deg) + 360 * up + neg_part deg
        ≤ pos_part deg + 360 * down + 45)
      × (pos_part deg + 360 * down ≤ degrees (normalize deg) + 360 * up + neg_part deg + 45)
unfolding normalize degrees wrapped
normalize_nearest (pos n) = elim (dec_lt (n % 360) 315) [
  | yes near ↦ (n / 360, 0, ground arith, ground arith)
  | no far ↦ (n / 360 + 1, 0, ground arith, ground arith)
]
normalize_nearest (negsuc n) = elim (dec_lt ((360 - suc n % 360) % 360) 315) [
  | yes near ↦ (0, (n + 360) / 360, ground arith, ground arith)
  | no far ↦ (0, n / 360, ground arith, ground arith)
]

wrapped_turn : (deg : ℤ) → wrapped (deg +ℤ pos 360) ≡ wrapped deg
unfolding wrapped
wrapped_turn (pos n) = ground arith
wrapped_turn (negsuc n) = elim (dec_lt n 360) [ yes small ↦ ground arith | no large ↦ ground arith ]

-- A whole turn more makes no difference to Normalize.
pub normalize_turn : (deg : ℤ) → normalize (deg +ℤ pos 360) ≡ normalize deg
unfolding normalize
normalize_turn deg = rw (wrapped_turn deg) refl
