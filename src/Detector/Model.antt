-- ===== src/Detector/Model.antt =====
-- classes.go and detector.go: the classes, the filter by name, the probe of the model and its
-- tensors. The ONNX runtime is a parameter: what it tells of the model, and whether it allocates.
use instachron.Base.{
  ℕ, suc, ◌+◌, true, false, not, ◌&&◌, Option, none, some, List, [], ◌∷◌, Result, ok, err,
  nat_instance, ◌==◌, if◌then◌else◌,
}
use instachron.Text.{Text, codes, text_eq}
use instachron.Detector.{OutputLayout}

unfoldable pub coco_classes : List Text
coco_classes =
    codes "person"
    ∷ codes "bicycle"
    ∷ codes "car"
    ∷ codes "motorcycle"
    ∷ codes "airplane"
    ∷ codes "bus"
    ∷ codes "train"
    ∷ codes "truck"
    ∷ codes "boat"
    ∷ codes "traffic light"
    ∷ codes "fire hydrant"
    ∷ codes "stop sign"
    ∷ codes "parking meter"
    ∷ codes "bench"
    ∷ codes "bird"
    ∷ codes "cat"
    ∷ codes "dog"
    ∷ codes "horse"
    ∷ codes "sheep"
    ∷ codes "cow"
    ∷ codes "elephant"
    ∷ codes "bear"
    ∷ codes "zebra"
    ∷ codes "giraffe"
    ∷ codes "backpack"
    ∷ codes "umbrella"
    ∷ codes "handbag"
    ∷ codes "tie"
    ∷ codes "suitcase"
    ∷ codes "frisbee"
    ∷ codes "skis"
    ∷ codes "snowboard"
    ∷ codes "sports ball"
    ∷ codes "kite"
    ∷ codes "baseball bat"
    ∷ codes "baseball glove"
    ∷ codes "skateboard"
    ∷ codes "surfboard"
    ∷ codes "tennis racket"
    ∷ codes "bottle"
    ∷ codes "wine glass"
    ∷ codes "cup"
    ∷ codes "fork"
    ∷ codes "knife"
    ∷ codes "spoon"
    ∷ codes "bowl"
    ∷ codes "banana"
    ∷ codes "apple"
    ∷ codes "sandwich"
    ∷ codes "orange"
    ∷ codes "broccoli"
    ∷ codes "carrot"
    ∷ codes "hot dog"
    ∷ codes "pizza"
    ∷ codes "donut"
    ∷ codes "cake"
    ∷ codes "chair"
    ∷ codes "couch"
    ∷ codes "potted plant"
    ∷ codes "bed"
    ∷ codes "dining table"
    ∷ codes "toilet"
    ∷ codes "tv"
    ∷ codes "laptop"
    ∷ codes "mouse"
    ∷ codes "remote"
    ∷ codes "keyboard"
    ∷ codes "cell phone"
    ∷ codes "microwave"
    ∷ codes "oven"
    ∷ codes "toaster"
    ∷ codes "sink"
    ∷ codes "refrigerator"
    ∷ codes "book"
    ∷ codes "clock"
    ∷ codes "vase"
    ∷ codes "scissors"
    ∷ codes "teddy bear"
    ∷ codes "hair drier"
    ∷ codes "toothbrush"
    ∷ []

-- nameToID[name]: the loop over CocoClasses leaves the last index of a name.
unfoldable pub name_to_id : List Text → ℕ → Text → Option ℕ
unfolding text_eq
name_to_id [] i name = none
name_to_id (first ∷ more) i name = elim (name_to_id more (suc i) name) [
  | some id ↦ some id
  | none ↦ if text_eq first name then some i else none
]

unfoldable pub allowed_ids : List Text → List ℕ
unfolding name_to_id coco_classes
allowed_ids [] = []
allowed_ids (name ∷ names) = elim (name_to_id coco_classes 0 name) [
  | some id ↦ id ∷ allowed_ids names
  | none ↦ allowed_ids names
]

-- No names: no filter, and not an empty one.
unfoldable pub allowed_class_ids : List Text → Option (List ℕ)
unfolding allowed_ids
allowed_class_ids [] = none
allowed_class_ids (name ∷ names) = some (allowed_ids (name ∷ names))

pub record TensorInfo : Type 0 where
  pub name : Text
  pub dimensions : List ℕ

pub record Config : Type 0 where
  pub input_name : Text
  pub output_name : Text
  pub input_width : ℕ
  pub input_height : ℕ
  pub num_classes : ℕ

pub record ModelProbe : Type 0 where
  pub input_name : Text
  pub output_name : Text
  pub layout : OutputLayout

pub data ProbeError : Type 0 where
  unreadable : ProbeError
  no_inputs : ProbeError
  no_outputs : ProbeError
  not_3d : List ℕ → ProbeError
  wrong_shape : List ℕ → ℕ → ProbeError

-- A configured name other than the default replaces the model's.
abbrev override : Text → Text → Text → Text
override configured default found =
    if not (text_eq configured []) && not (text_eq configured default) then configured else found

unfoldable pub layout_of : List ℕ → ℕ → Result ProbeError OutputLayout
layout_of (batch ∷ a ∷ b ∷ []) num_channels =
    if a == num_channels
    then ok (record { num_boxes = b; num_channels = a; transposed = false })
    else if b == num_channels
    then ok (record { num_boxes = a; num_channels = b; transposed = true })
    else err (wrong_shape (batch ∷ a ∷ b ∷ []) num_channels)
layout_of [] num_channels = err (not_3d [])
layout_of (x ∷ []) num_channels = err (not_3d (x ∷ []))
layout_of (x ∷ y ∷ []) num_channels = err (not_3d (x ∷ y ∷ []))
layout_of (x ∷ y ∷ z ∷ w ∷ more) num_channels = err (not_3d (x ∷ y ∷ z ∷ w ∷ more))

unfoldable pub probe_model :
    Config → Option (List TensorInfo × List TensorInfo) → Result ProbeError ModelProbe
unfolding layout_of
probe_model cfg none = err unreadable
probe_model cfg (some ([], outputs)) = err no_inputs
probe_model cfg (some (input ∷ inputs, [])) = err no_outputs
probe_model cfg (some (input ∷ inputs, output ∷ outputs)) =
    elim (layout_of output.dimensions (4 + cfg.num_classes)) [
      | err e ↦ err e
      | ok found ↦ ok (record {
        input_name = override cfg.input_name (codes "images") input.name;
        output_name = override cfg.output_name (codes "output0") output.name;
        layout = found;
      })
    ]
