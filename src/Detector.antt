-- ===== src/Detector.antt =====
-- services/camera-web-restream-detector-api/internal/detect: the boxes that the model's output
-- holds, what is suppressed among them, the classes that are let through, and how a stream of
-- frames is annotated. float32 is a parameter: a type with the operations that the code uses.
pub mod Output
pub mod Suppression
pub mod Layouts
pub mod Model
pub mod Frames
use instachron.Base.{
  ℕ, ◌+◌, ◌-◌, ◌*◌, ◌≡◌, Bool, true, false, not, ◌&&◌, ◌||◌, Option, none, some, List,
  if◌then◌else◌,
}
use instachron.Text.{Text}

pub record Float : Type 1 where
  pub Carrier : Type 0
  pub lt : Carrier → Carrier → Bool
  pub le : Carrier → Carrier → Bool
  pub add : Carrier → Carrier → Carrier
  pub sub : Carrier → Carrier → Carrier
  pub mul : Carrier → Carrier → Carrier
  pub div : Carrier → Carrier → Carrier
  pub max : Carrier → Carrier → Carrier
  pub min : Carrier → Carrier → Carrier
  pub of_int : ℕ → Carrier
  -- 1e-6 and 0.5
  pub epsilon : Carrier
  pub half : Carrier
  -- int(x) for an x that is not negative
  pub trunc : Carrier → ℕ

-- The order of values that are no NaN.
pub record IsOrdered (R : Float) : Type 0 where
  pub asymmetric : (a b : R.Carrier) → R.lt a b ≡ true → R.lt b a ≡ false
  pub ge_trans : (a b c : R.Carrier) → R.lt a b ≡ false → R.lt b c ≡ false → R.lt a c ≡ false
  pub of_int_nonneg : (n : ℕ) → R.lt (R.of_int n) (R.of_int 0) ≡ false

pub record Detection (R : Float) : Type 0 where
  pub class_id : ℕ
  pub class_name : Text
  pub confidence : R.Carrier
  pub x1 : R.Carrier
  pub y1 : R.Carrier
  pub x2 : R.Carrier
  pub y2 : R.Carrier

pub record OutputLayout : Type 0 where
  pub num_boxes : ℕ
  pub num_channels : ℕ
  pub transposed : Bool

module _ (R : Float) where
  unfoldable pub clamp : R.Carrier → R.Carrier → R.Carrier → R.Carrier
  clamp v lo hi = if R.lt v lo then lo else if R.lt hi v then hi else v

  unfoldable pub box_iou : Detection R → Detection R → R.Carrier
  box_iou a b =
      let ix1 = R.max a.x1 b.x1 in
      let iy1 = R.max a.y1 b.y1 in
      let ix2 = R.min a.x2 b.x2 in
      let iy2 = R.min a.y2 b.y2 in
      let zero = R.of_int 0 in
      let inter = R.mul (R.max zero (R.sub ix2 ix1)) (R.max zero (R.sub iy2 iy1)) in
      let a_area = R.mul (R.sub a.x2 a.x1) (R.sub a.y2 a.y1) in
      let b_area = R.mul (R.sub b.x2 b.x1) (R.sub b.y2 b.y1) in
      R.div inter (R.add (R.sub (R.add a_area b_area) inter) R.epsilon)
