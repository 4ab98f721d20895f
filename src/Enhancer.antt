-- ===== src/Enhancer.antt =====
-- services/camera-web-restream-enhancer-api/internal/enhance/enhance.go: the correction of dark frames
-- and the named filters. Images and filters are a library, which is a parameter; float64 is a type
-- with the operations that the code uses.
pub mod Counted
use instachron.Base.{
  ℕ, ◌+◌, ◌*◌, ◌/◌, ◌%◌, ◌^◌, Bool, true, false, Option, none, some, List, [], ◌∷◌, length, Map,
  lookup, ◌==◌, nat_instance, if◌then◌else◌,
}
use instachron.Text.{Text, codes, text_eq, text_instance}
use instachron.Detector.{Float}

module _ (R : Float) where
  pub record Config : Type 0 where
    pub dark_threshold : R.Carrier
    pub brightness_max : R.Carrier
    pub contrast_max : R.Carrier
    pub jpeg_quality : ℕ
    pub filters : List Text

  pub record CameraConfigs : Type 0 where
    pub default : Config
    pub cameras : Map Text Config

  -- imaging and gift, with the pixels of the thumbnail as RGBA bytes.
  pub record Library : Type 1 where
    pub Image : Type 0
    pub Filter : Type 0
    pub decode : List ℕ → Option Image
    pub thumbnail : Image → List ℕ
    pub adjust_brightness : Image → R.Carrier → Image
    pub adjust_contrast : Image → R.Carrier → Image
    pub filter : Text → Filter
    pub draw : List Filter → Image → Image
    pub encode : Image → ℕ → Option (List ℕ)

-- The keys of filterRegistry.
abbrev filter_names : List Text
filter_names =
    codes "resize"
    ∷ codes "crop_to_size"
    ∷ codes "rotate_180"
    ∷ codes "rotate_30"
    ∷ codes "brightness_increase"
    ∷ codes "brightness_decrease"
    ∷ codes "contrast_increase"
    ∷ codes "contrast_decrease"
    ∷ codes "saturation_increase"
    ∷ codes "saturation_decrease"
    ∷ codes "gamma_1.5"
    ∷ codes "gamma_0.5"
    ∷ codes "gaussian_blur"
    ∷ codes "unsharp_mask"
    ∷ codes "sigmoid"
    ∷ codes "pixelate"
    ∷ codes "colorize"
    ∷ codes "grayscale"
    ∷ codes "sepia"
    ∷ codes "invert"
    ∷ codes "mean"
    ∷ codes "median"
    ∷ codes "minimum"
    ∷ codes "maximum"
    ∷ codes "hue_rotate"
    ∷ codes "color_balance"
    ∷ codes "color_func"
    ∷ codes "convolution_emboss"
    ∷ []

abbrev is_named : List Text → Text → Bool
is_named [] key = false
is_named (name ∷ names) key =
    let rest = is_named names key in if text_eq name key then true else rest

-- The sum over the pixels; four bytes are a pixel.
unfoldable pub luminance_sum : List ℕ → ℕ
luminance_sum (r ∷ g ∷ b ∷ a ∷ pix) = 299 * r + 587 * g + 114 * b + luminance_sum pix
luminance_sum [] = 0
luminance_sum (r ∷ []) = 0
luminance_sum (r ∷ g ∷ []) = 0
luminance_sum (r ∷ g ∷ b ∷ []) = 0

-- The counters of an Enhancer.
pub record Stats : Type 0 where
  pub processed : ℕ
  pub decode_failed : ℕ
  pub encode_failed : ℕ

unfoldable pub new_stats : Stats
new_stats = record { processed = 0; decode_failed = 0; encode_failed = 0 }

-- atomic.Uint64.Add(1)
abbrev pub bump : ℕ → ℕ
bump n = (n + 1) % 2 ^ 64

module _ (R : Float) (lib : Library R) where
  abbrev config_for : CameraConfigs R → Text → Config R
  config_for cfgs id = elim (lookup id cfgs.cameras) [ some cfg ↦ cfg | none ↦ cfgs.default ]

  unfoldable pub avg_luminance : lib.Image → R.Carrier
  unfolding luminance_sum
  avg_luminance img =
      let pix = lib.thumbnail img in
      let n = length pix / 4 in
      if n == 0
      then R.of_int 0
      else R.div (R.div (R.div (R.of_int (luminance_sum pix)) (R.of_int n)) (R.of_int 1000))
          (R.of_int 255)

  -- An adjustment by a share of its maximum, when that is positive.
  abbrev adjusted :
      (lib.Image → R.Carrier → lib.Image) → R.Carrier → R.Carrier → lib.Image → lib.Image
  adjusted adjust factor most img =
      if R.lt (R.of_int 0) most then adjust img (R.mul factor most) else img

  unfoldable pub apply_dark_correction : Config R → lib.Image → lib.Image
  unfolding avg_luminance
  apply_dark_correction cfg img =
      let lum = avg_luminance img in
      let factor = R.div (R.sub cfg.dark_threshold lum) cfg.dark_threshold in
      let bright = adjusted lib.adjust_brightness factor cfg.brightness_max img in
      let corrected = adjusted lib.adjust_contrast factor cfg.contrast_max bright in
      if R.lt (R.of_int 0) cfg.dark_threshold
      then (if R.lt lum cfg.dark_threshold then corrected else img)
      else img

  abbrev known_filters : List Text → List lib.Filter
  known_filters [] = []
  known_filters (key ∷ keys) =
      let rest = known_filters keys in
      if is_named filter_names key then lib.filter key ∷ rest else rest

  abbrev drawn : List lib.Filter → lib.Image → lib.Image
  drawn [] img = img
  drawn (f ∷ fs) img = lib.draw (f ∷ fs) img

  unfoldable pub apply_filters : List Text → lib.Image → lib.Image
  apply_filters keys img = drawn (known_filters keys) img

  -- What a frame comes to: it cannot be decoded, it cannot be encoded, or it is enhanced.
  pub data Outcome : Type 0 where
    undecodable : Outcome
    unencodable : Outcome
    enhanced : List ℕ → Outcome

  abbrev encoded : Option (List ℕ) → Outcome
  encoded none = unencodable
  encoded (some out) = enhanced out

  abbrev corrected_image : Config R → Option lib.Image → Outcome
  unfolding apply_dark_correction apply_filters
  corrected_image cfg none = undecodable
  corrected_image cfg (some img) =
      encoded
        (lib.encode (apply_filters cfg.filters (apply_dark_correction cfg img)) cfg.jpeg_quality)

  unfoldable pub outcome : Config R → List ℕ → Outcome
  unfolding corrected_image
  outcome cfg jpeg = corrected_image cfg (lib.decode jpeg)

  abbrev pub passed_on : List ℕ → Outcome → Stats → List ℕ × Stats
  passed_on jpeg undecodable s = (jpeg, record s { decode_failed = bump s.decode_failed })
  passed_on jpeg unencodable s = (jpeg, record s { encode_failed = bump s.encode_failed })
  passed_on jpeg (enhanced out) s = (out, s)

  -- What is pushed, and the counters.
  unfoldable pub process_camera : CameraConfigs R → Text → List ℕ → Stats → List ℕ × Stats
  unfolding outcome
  process_camera cfgs id jpeg s =
      passed_on jpeg (outcome (config_for cfgs id) jpeg) (record s { processed = bump s.processed })
