-- ===== src/Enhancer/Counted.antt =====
-- A stream of frames through the enhancer, and the luminance of a frame.
use instachron.Base.{
  ℕ, ◌+◌, ◌*◌, ◌/◌, ◌%◌, ◌^◌, ◌≤◌, ◌<◌, ◌≡◌, refl, arith, List, [], ◌∷◌, length, All,
}
use instachron.Text.{Text}
use instachron.Detector.{Float}
use instachron.Enhancer.{
  CameraConfigs, Library, Stats, Outcome, undecodable, unencodable, enhanced, outcome, config_for,
  passed_on, process_camera, bump, luminance_sum,
}

-- The bytes of a thumbnail: its luminance is at most 255 * 1000 for each pixel.
luminance_sum_le :
    (pix : List ℕ) → All (λ b. b < 256) pix → luminance_sum pix ≤ 255_000 * (length pix / 4)
unfolding luminance_sum
luminance_sum_le [] h = omega arith
luminance_sum_le (r ∷ []) h = omega arith
luminance_sum_le (r ∷ g ∷ []) h = omega arith
luminance_sum_le (r ∷ g ∷ b ∷ []) h = omega arith
luminance_sum_le (r ∷ g ∷ b ∷ a ∷ pix) (hr, (hg, (hb, (ha, h)))) =
    omega (arith, luminance_sum_le pix h)

module _ (R : Float) (lib : Library R) (cfgs : CameraConfigs R) where
  -- The frames of the cameras, one after the other.
  unfoldable pub process_all : List (Text × List ℕ) → Stats → List (List ℕ) × Stats
  unfolding process_camera
  process_all [] s = ([], s)
  process_all ((id, jpeg) ∷ frames) s =
      let (out, s') = process_camera R lib cfgs id jpeg s in
      let (outs, s2) = process_all frames s' in (out ∷ outs, s2)

  abbrev pub kept : List ℕ → Outcome R lib → List ℕ
  kept jpeg undecodable = jpeg
  kept jpeg unencodable = jpeg
  kept jpeg (enhanced out) = out

  -- What a frame comes to, with the configuration of its camera.
  abbrev pub outcome_of : Text × List ℕ → Outcome R lib
  outcome_of (id, jpeg) = outcome R lib (config_for R lib cfgs id) jpeg

  abbrev pub results : List (Text × List ℕ) → List (List ℕ)
  results [] = []
  results (frame ∷ frames) = kept frame.1 (outcome_of frame) ∷ results frames

  abbrev one_undecodable : Outcome R lib → ℕ
  one_undecodable undecodable = 1
  one_undecodable unencodable = 0
  one_undecodable (enhanced out) = 0

  abbrev one_unencodable : Outcome R lib → ℕ
  one_unencodable undecodable = 0
  one_unencodable unencodable = 1
  one_unencodable (enhanced out) = 0

  abbrev pub undecodable_frames : List (Text × List ℕ) → ℕ
  undecodable_frames [] = 0
  undecodable_frames (frame ∷ frames) =
      one_undecodable (outcome_of frame) + undecodable_frames frames

  abbrev pub unencodable_frames : List (Text × List ℕ) → ℕ
  unencodable_frames [] = 0
  unencodable_frames (frame ∷ frames) =
      one_unencodable (outcome_of frame) + unencodable_frames frames

  -- The counters behind n frames of which u could not be decoded and e not be encoded.
  abbrev pub Counted : ℕ → ℕ → ℕ → Stats → Stats → Type 0
  Counted n u e s s' =
      (s'.processed ≡ (s.processed + n) % 2 ^ 64)
      × (s'.decode_failed ≡ (s.decode_failed + u) % 2 ^ 64)
      × (s'.encode_failed ≡ (s.encode_failed + e) % 2 ^ 64)

  -- The counters fit 64 bits.
  abbrev pub Fits : Stats → Type 0
  Fits s = (s.processed < 2 ^ 64) × (s.decode_failed < 2 ^ 64) × (s.encode_failed < 2 ^ 64)

  passed_on-Counted :
      (jpeg : List ℕ) (o : Outcome R lib) (s : Stats)
      → Fits s
      → let (out, s') = passed_on R lib jpeg o (record s { processed = bump s.processed }) in
        (out ≡ kept jpeg o) × Counted 1 (one_undecodable o) (one_unencodable o) s s'
  passed_on-Counted jpeg undecodable s h = (refl, (omega arith, omega arith, omega arith))
  passed_on-Counted jpeg unencodable s h = (refl, (omega arith, omega arith, omega arith))
  passed_on-Counted jpeg (enhanced out) s h = (refl, (omega arith, omega arith, omega arith))

  -- Of any frames given to the enhancer, each is pushed once and in order: enhanced with the
  -- configuration of its camera when it decodes and encodes again, as it came otherwise; and the
  -- three counters, which must fit 64 bits at the start, have grown by the number of frames, of
  -- those that did not decode and of those that did not encode, modulo 2 ^ 64.
  pub process_all-Counted :
      (frames : List (Text × List ℕ)) (s : Stats)
      → Fits s
      → let (outs, s') = process_all frames s in
        (outs ≡ results frames)
        × Counted (length frames) (undecodable_frames frames) (unencodable_frames frames) s s'
  unfolding process_all process_camera
  process_all-Counted [] s h = (refl, (omega arith, omega arith, omega arith))
  process_all-Counted (frame ∷ frames) s h =
      let o = outcome_of frame in
      let (out, s') = passed_on R lib frame.1 o (record s { processed = bump s.processed }) in
      let (same, (c1, c2, c3)) = passed_on-Counted frame.1 o s h in
      let (rest, (d1, d2, d3)) =
        process_all-Counted frames s' (omega (arith, c1), omega (arith, c2), omega (arith, c3)) in
      (rw (same, rest) refl, (omega (arith, c1, d1), omega (arith, c2, d2), omega (arith, c3, d3)))
