-- ===== src/Streamer/Compose/Fit.antt =====
-- fitImage gives an image that is no larger than the cell.
use instachron.Base.{
  ℕ, ◌^◌, ◌<◌, ◌≤◌, ◌≡◌, ◌||◌, ◌&&◌, ◌==◌, refl, arith, true, false, Bool-cases, inl, inr,
  if◌then◌else◌, nat_instance,
}
use instachron.Detector.{Float}
use instachron.WebApi.Rotation.{Image}
use instachron.Streamer.Compose.{fit_size, fit_image}

-- What float64 does for image sizes: a width that is scaled by a quotient, of a size of a cell and
-- one of an image, that is not above the quotient for the width, is no more than the width of the
-- cell. Likewise for heights.
pub record IsScaling (R : Float) : Type 0 where
  pub scaled_le :
      (src most src' most' : ℕ)
      → let scale = R.div (R.of_int most') (R.of_int src') in
        0 < src
        → src < 2 ^ 16
        → most < 2 ^ 16
        → 0 < src'
        → src' < 2 ^ 16
        → most' < 2 ^ 16
        → R.lt (R.div (R.of_int most) (R.of_int src)) scale ≡ false
        → R.trunc (R.mul (R.of_int src) scale) ≤ most
  pub asymmetric : (a b : R.Carrier) → R.lt a b ≡ true → R.lt b a ≡ false

same_or_scaled_le :
    {P : Type 0} (img scaled : Image P) (w h max_w max_h : ℕ)
    → scaled.width ≡ w
    → scaled.height ≡ h
    → w ≤ max_w
    → h ≤ max_h
    → let chosen = if w == img.width && h == img.height then img else scaled in
      (chosen.width ≤ max_w) × (chosen.height ≤ max_h)
same_or_scaled_le img scaled w h max_w max_h p q wide high =
    elim (Bool-cases (w == img.width && h == img.height)) [
      | inl e ↦ rw e (ground arith, ground arith)
      | inr e ↦ rw e (omega arith, omega arith)
    ]

-- The size of an image.
abbrev pub IsJpegSize : {P : Type 0} → Image P → Type 0
IsJpegSize img = (img.width < 2 ^ 16) × (img.height < 2 ^ 16)

module _ (R : Float) (scaling : IsScaling R) where
  irreflexive : (a : R.Carrier) → R.lt a a ≡ false
  irreflexive a = elim (Bool-cases (R.lt a a)) [ inl e ↦ scaling.asymmetric a a e | inr e ↦ e ]

  fit_size_le :
      (src_w src_h max_w max_h : ℕ)
      → 0 < src_w
      → 0 < src_h
      → src_w < 2 ^ 16
      → src_h < 2 ^ 16
      → max_w < 2 ^ 16
      → max_h < 2 ^ 16
      → let (w, h) = fit_size R (src_w, src_h) (max_w, max_h) in (w ≤ max_w) × (h ≤ max_h)
  unfolding fit_size
  fit_size_le src_w src_h max_w max_h pw ph sw sh mw mh =
      let x = R.div (R.of_int max_w) (R.of_int src_w) in
      let y = R.div (R.of_int max_h) (R.of_int src_h) in
      elim (Bool-cases (R.lt y x)) [
        | inl e ↦ rw e (
          scaling.scaled_le src_w max_w src_h max_h pw sw mw ph sh mh (scaling.asymmetric y x e),
          scaling.scaled_le src_h max_h src_h max_h ph sh mh ph sh mh (irreflexive y),
        )
        | inr e ↦ rw e (
          scaling.scaled_le src_w max_w src_w max_w pw sw mw pw sw mw (irreflexive x),
          scaling.scaled_le src_h max_h src_w max_w ph sh mh pw sw mw e,
        )
      ]

  pub fit_image_le :
      {P : Type 0} (zero_pixel : P) (img : Image P) (max_w max_h : ℕ)
      → IsJpegSize img
      → max_w < 2 ^ 16
      → max_h < 2 ^ 16
      → let scaled = fit_image R zero_pixel img max_w max_h in
        (scaled.width ≤ max_w) × (scaled.height ≤ max_h)
  unfolding fit_image
  fit_image_le zero_pixel img max_w max_h size mw mh =
      elim (Bool-cases (img.width == 0 || img.height == 0)) [
        | inl e ↦ rw e (omega arith, omega arith)
        | inr e ↦
            (let fits =
                fit_size_le img.width img.height max_w max_h (ground arith) (ground arith) size.0
                  size.1 mw mh in
              rw e (same_or_scaled_le img _ _ _ max_w max_h refl refl fits.0 fits.1))
      ]
