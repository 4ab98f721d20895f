-- ===== src/Tests/Detection.antt =====
-- Detections and the enhancer over small numbers in place of floats.
use instachron.Base.{if◌then◌else◌, ◌==◌, nat_instance}
use instachron.Text.{Text, text_eq}
use instachron.Enhancer.{
  Library as EnhancerLibrary, CameraConfigs, new_stats, outcome, apply_filters,
  apply_dark_correction,
}
use instachron.Enhancer.Counted.{process_all, process_all-Counted, Counted}
use instachron.Base.{lookup}
use instachron.Detector.Frames.{Library, Settings, Frame}
use instachron.Base.{
  ℕ, ◌+◌, ◌-◌, ◌*◌, ◌/◌, ◌<◌, ◌≡◌, refl, arith, true, false, ltb, leb, none, some, List, [], ◌∷◌,
  length, min, max, inl, inr, get_elem?, zero, suc, ap,
}
use instachron.Text.{codes}
use instachron.Sorting.{In}
use instachron.Detector.{Float, IsOrdered, Detection}
use instachron.Detector.Suppression.{nms}
use instachron.Detector.Suppression.Greedy.{Apart}
use instachron.Detector.Suppression.Classes.{nms-Represented, group_of, Distinct, Represented}
use instachron.Detector.Output.{ParseParams, parse_output}
use instachron.Detector.Output.Valid.{parse_output_total, InFrame}
use instachron.Detector.Layouts.{parse_output-with_layout, with_layout}

abbrev numbers : Float
numbers = record {
  Carrier = ℕ;
  lt = ltb;
  le = leb;
  add = λ a b. a + b;
  sub = λ a b. a - b;
  mul = λ a b. a * b;
  div = λ a b. a / b;
  max = λ a b. max a b;
  min = λ a b. min a b;
  of_int = λ n. n;
  epsilon = 1;
  half = 0;
  trunc = λ n. n;
}

numbers-IsOrdered : IsOrdered numbers
numbers-IsOrdered = record {
  asymmetric = λ a b h. ground arith;
  ge_trans = λ a b c h k. ground arith;
  of_int_nonneg = λ n. ground arith;
}

abbrev found : ℕ → ℕ → ℕ → Detection numbers
found class score x = record {
  class_id = class;
  class_name = codes "thing";
  confidence = score;
  x1 = x;
  y1 = 0;
  x2 = x + 10;
  y2 = 10;
}

abbrev three : List (Detection numbers)
three = found 0 5 0 ∷ found 1 7 0 ∷ found 0 9 0 ∷ []

three_classes : (d : Detection numbers) → In d three → In d.class_id (0 ∷ 1 ∷ [])
unfolding In
three_classes d (inl e) = inl (ap (λ x. x.class_id) e)
three_classes d (inr (inl e)) = inr (inl (ap (λ x. x.class_id) e))
three_classes d (inr (inr (inr m))) = absurd m
three_classes d (inr (inr (inl e))) = inl (ap (λ x. x.class_id) e)

two_classes : Distinct (0 ∷ 1 ∷ [])
two_classes = (((λ e. omega arith), tt), (tt, tt))

nms-Represented_example :
    ((k : ℕ) → Apart numbers 0 (group_of numbers k (nms numbers 0 (0 ∷ 1 ∷ []) three)))
    × ((d : Detection numbers)
        → In d three
        → Represented numbers 0 numbers-IsOrdered d (nms numbers 0 (0 ∷ 1 ∷ []) three))
    × ((d : Detection numbers) → In d (nms numbers 0 (0 ∷ 1 ∷ []) three) → In d three)
nms-Represented_example =
    nms-Represented numbers 0 numbers-IsOrdered three (0 ∷ 1 ∷ []) two_classes three_classes

abbrev params : ParseParams numbers
params = record {
  layout = record { num_boxes = 2; num_channels = 5; transposed = true };
  conf_threshold = 3;
  nms_threshold = 0;
  letterbox = record { scale = 1; pad_left = 0; pad_top = 0 };
  orig_w = 20;
  orig_h = 20;
}

abbrev boxes_first : List ℕ
boxes_first = 10 ∷ 11 ∷ 4 ∷ 6 ∷ 9 ∷ 12 ∷ 13 ∷ 8 ∷ 2 ∷ 1 ∷ []

abbrev channel_first : List ℕ
channel_first = 10 ∷ 12 ∷ 11 ∷ 13 ∷ 4 ∷ 8 ∷ 6 ∷ 2 ∷ 9 ∷ 1 ∷ []

parse_output_total_example :
    (ds : List (Detection numbers)) × (parse_output numbers (0 ∷ []) boxes_first params ≡ some ds)
    × ((d : Detection numbers) → In d ds → InFrame numbers params d)
parse_output_total_example =
    parse_output_total numbers numbers-IsOrdered (0 ∷ []) boxes_first params (omega arith) refl

same_numbers :
    (ch box : ℕ)
    → ch < 5
    → box < 2
    → get_elem? channel_first (ch * 2 + box) ≡ get_elem? boxes_first (box * 5 + ch)
same_numbers zero zero h k = refl
same_numbers (suc zero) zero h k = refl
same_numbers (suc (suc zero)) zero h k = refl
same_numbers (suc (suc (suc zero))) zero h k = refl
same_numbers (suc (suc (suc (suc zero)))) zero h k = refl
same_numbers zero (suc zero) h k = refl
same_numbers (suc zero) (suc zero) h k = refl
same_numbers (suc (suc zero)) (suc zero) h k = refl
same_numbers (suc (suc (suc zero))) (suc zero) h k = refl
same_numbers (suc (suc (suc (suc zero)))) (suc zero) h k = refl
same_numbers (suc (suc (suc (suc (suc ch))))) box h k = absurd (omega arith)
same_numbers zero (suc (suc box)) h k = absurd (omega arith)
same_numbers (suc zero) (suc (suc box)) h k = absurd (omega arith)
same_numbers (suc (suc zero)) (suc (suc box)) h k = absurd (omega arith)
same_numbers (suc (suc (suc zero))) (suc (suc box)) h k = absurd (omega arith)
same_numbers (suc (suc (suc (suc zero)))) (suc (suc box)) h k = absurd (omega arith)

parse_output-with_layout_example :
    parse_output numbers (0 ∷ []) channel_first (with_layout numbers false params)
    ≡ parse_output numbers (0 ∷ []) boxes_first (with_layout numbers true params)
parse_output-with_layout_example =
    parse_output-with_layout numbers (0 ∷ []) channel_first boxes_first params (omega arith)
      same_numbers

-- A library that reads every frame: its one box is the first byte.
abbrev pictures : Library numbers
pictures = record {
  Image = List ℕ;
  decode = λ jpeg. some jpeg;
  size = λ src. (20, 20);
  run = λ src lb. some (10 ∷ 11 ∷ 4 ∷ 6 ∷ 9 ∷ []);
  annotate = λ src dets. length dets ∷ src;
  encode = λ src. some src;
}

abbrev settings : Settings numbers
settings = record {
  input_width = 20;
  input_height = 20;
  conf_threshold = 3;
  nms_threshold = 0;
  layout = record { num_boxes = 1; num_channels = 5; transposed = true };
  allowed = none;
}

abbrev frames : ℕ → Frame numbers
frames i = record { jpeg = i ∷ []; free = true; order = 0 ∷ []; now = i }

abbrev one_box : ℕ → List (Detection numbers)
one_box i =
    record {
      class_id = 0;
      class_name = codes "person";
      confidence = 9;
      x1 = 8;
      y1 = 8;
      x2 = 12;
      y2 = 14;
    }
    ∷ []

-- The empty frame cannot be decoded, and a frame of one byte cannot be encoded.
abbrev filters : EnhancerLibrary numbers
filters = record {
  Image = List ℕ;
  Filter = ℕ;
  decode = λ jpeg. if length jpeg == 0 then none else some jpeg;
  thumbnail = λ img. [];
  adjust_brightness = λ img x. img;
  adjust_contrast = λ img x. img;
  filter = λ key. 7;
  draw = λ fs img. 7 ∷ img;
  encode = λ img q. if length img == 1 then none else some img;
}

abbrev one_filter : CameraConfigs numbers
one_filter = record {
  default = record {
    dark_threshold = 0;
    brightness_max = 0;
    contrast_max = 0;
    jpeg_quality = 90;
    filters = codes "sepia" ∷ [];
  };
  cameras =
      (
        codes "2",
        record {
          dark_threshold = 0;
          brightness_max = 0;
          contrast_max = 0;
          jpeg_quality = 90;
          filters = [];
        },
      )
      ∷ [];
}

abbrev three_frames : List (Text × List ℕ)
three_frames = (codes "1", 5 ∷ []) ∷ (codes "2", 6 ∷ []) ∷ (codes "1", []) ∷ []

process_all-Counted_example :
    let (outs, s) = process_all numbers filters one_filter three_frames new_stats in
    (outs ≡ (7 ∷ 5 ∷ []) ∷ (6 ∷ []) ∷ [] ∷ [])
    × Counted numbers filters one_filter 3 1 1 new_stats s
unfolding new_stats outcome lookup text_eq apply_filters apply_dark_correction
process_all-Counted_example =
    process_all-Counted numbers filters one_filter three_frames new_stats
      (omega arith, omega arith, omega arith)
