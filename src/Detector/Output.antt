-- ===== src/Detector/Output.antt =====
-- postprocess.go and preprocess.go: the model's output becomes detections. A read outside the
-- output panics, which is none.
pub mod Valid
use instachron.Base.{
  ℕ, zero, suc, ◌+◌, ◌-◌, ◌*◌, ◌/◌, ◌≡◌, Bool, true, false, ◌||◌, Option, none, some, List, [], ◌∷◌,
  get_elem?, if◌then◌else◌,
}
use instachron.Text.{Text, codes}
use instachron.Detector.{Float, Detection, OutputLayout, clamp}
use instachron.Detector.Suppression.{nms}
use instachron.Detector.Model.{coco_classes}

infixl 5 ◌>>=◌
abbrev pub ◌>>=◌ {ℓ κ} : {A : Type ℓ} {B : Type κ} → Option A → (A → Option B) → Option B
none >>= f = none
some a >>= f = f a

unfoldable pub class_name_of : ℕ → Text
unfolding coco_classes
class_name_of class = elim (get_elem? coco_classes class) [
  | none ↦ codes "unknown"
  | some name ↦ name
]

module _ (R : Float) where
  -- The scaled image fits into the model's input: the padding is not negative.
  pub record Letterbox : Type 0 where
    pub scale : R.Carrier
    pub pad_left : ℕ
    pub pad_top : ℕ

  -- letterbox: the scale and the padding for an image of the given size.
  unfoldable pub letterbox : ℕ × ℕ → ℕ → ℕ → Letterbox
  letterbox (orig_w, orig_h) target_w target_h =
      let by_width = R.div (R.of_int target_w) (R.of_int orig_w) in
      let by_height = R.div (R.of_int target_h) (R.of_int orig_h) in
      let factor = if R.lt by_height by_width then by_height else by_width in
      let new_w = R.trunc (R.add (R.mul (R.of_int orig_w) factor) R.half) in
      let new_h = R.trunc (R.add (R.mul (R.of_int orig_h) factor) R.half) in
      record { scale = factor; pad_left = (target_w - new_w) / 2; pad_top = (target_h - new_h) / 2 }

  pub record ParseParams : Type 0 where
    pub layout : OutputLayout
    pub conf_threshold : R.Carrier
    pub nms_threshold : R.Carrier
    pub letterbox : Letterbox
    pub orig_w : ℕ
    pub orig_h : ℕ

  unfoldable pub to_original : Letterbox → R.Carrier → R.Carrier → ℕ → ℕ → R.Carrier × R.Carrier
  unfolding clamp
  to_original lb x y orig_w orig_h = (
    clamp R (R.div (R.sub x (R.of_int lb.pad_left)) lb.scale) (R.of_int 0) (R.of_int orig_w),
    clamp R (R.div (R.sub y (R.of_int lb.pad_top)) lb.scale) (R.of_int 0) (R.of_int orig_h),
  )

  unfoldable pub at : OutputLayout → List R.Carrier → ℕ → ℕ → Option R.Carrier
  at layout raw ch box =
      if layout.transposed
      then get_elem? raw (box * layout.num_channels + ch)
      else get_elem? raw (ch * layout.num_boxes + box)

  -- The loop over the classes that are left, from class c on.
  unfoldable pub best_class :
      (ℕ → ℕ → Option R.Carrier) → ℕ → ℕ → ℕ → R.Carrier × ℕ → Option (R.Carrier × ℕ)
  best_class read i zero c best = some best
  best_class read i (suc left) c best = read (4 + c) i >>= λ s.
      best_class read i left (suc c) (if R.lt best.0 s then (s, c) else best)

  -- The box in the original frame, unless it is empty.
  unfoldable pub candidate :
      ParseParams
      → ℕ
      → R.Carrier
      → R.Carrier × R.Carrier
      → R.Carrier × R.Carrier
      → Option (Detection R)
  unfolding to_original
  candidate p class score (cx, cy) (w, h) =
      let two = R.of_int 2 in
      let first =
        to_original p.letterbox (R.sub cx (R.div w two)) (R.sub cy (R.div h two)) p.orig_w
          p.orig_h in
      let second =
        to_original p.letterbox (R.add cx (R.div w two)) (R.add cy (R.div h two)) p.orig_w
          p.orig_h in
      if R.le second.0 first.0 || R.le second.1 first.1
      then none
      else some (record {
        class_id = class;
        class_name = class_name_of class;
        confidence = score;
        x1 = first.0;
        y1 = first.1;
        x2 = second.0;
        y2 = second.1;
      })

  unfoldable pub parse_box :
      (ℕ → ℕ → Option R.Carrier) → ParseParams → ℕ → Option (Option (Detection R))
  unfolding best_class candidate
  parse_box read p i = best_class read i (p.layout.num_channels - 4) 0 (R.of_int 0, 0) >>= λ best.
      if R.lt best.0 p.conf_threshold
      then some none
      else (read 0 i >>= λ cx. read 1 i >>= λ cy.
          read 2 i >>= λ w. read 3 i >>= λ h. some (candidate p best.1 best.0 (cx, cy) (w, h)))

  abbrev pub add_found : Option (Detection R) → List (Detection R) → List (Detection R)
  add_found none ds = ds
  add_found (some d) ds = d ∷ ds

  unfoldable pub candidates :
      (ℕ → ℕ → Option R.Carrier) → ParseParams → ℕ → ℕ → Option (List (Detection R))
  unfolding parse_box
  candidates read p zero i = some []
  candidates read p (suc left) i = parse_box read p i >>= λ found.
      candidates read p left (suc i) >>= λ rest. some (add_found found rest)

  -- The order is the one in which nms visits the classes.
  unfoldable pub parse_output : List ℕ → List R.Carrier → ParseParams → Option (List (Detection R))
  unfolding at candidates nms
  parse_output order raw p = candidates (at p.layout raw) p p.layout.num_boxes 0 >>= λ found.
      some (nms R p.nms_threshold order found)
