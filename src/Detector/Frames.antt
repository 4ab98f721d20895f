-- ===== src/Detector/Frames.antt =====
-- detector.go: what Detect and Process make of a frame. The image library and the ONNX session are
-- parameters; a panic is none. The counters stay below 2 ^ 63.
pub mod Periodic
use instachron.Base.{
  ℕ, zero, suc, ◌+◌, ◌-◌, ◌*◌, ◌%◌, ◌≡◌, Bool, true, false, not, ◌&&◌, Option, none, some, List, [],
  ◌∷◌, length, Result, ok, err, nat_instance, ltb, ◌==◌, keep_if, if◌then◌else◌,
}
use instachron.Detector.{Float, Detection, OutputLayout}
use instachron.Detector.Output.{Letterbox, letterbox, ParseParams, parse_output, ◌>>=◌}

module _ (R : Float) where
  pub record Library : Type 1 where
    pub Image : Type 0
    pub decode : List ℕ → Option Image
    pub size : Image → ℕ × ℕ
    -- The output of the session on an image that was put into the model's square.
    pub run : Image → Letterbox R → Option (List R.Carrier)
    pub annotate : Image → List (Detection R) → Image
    pub encode : Image → Option (List ℕ)

  pub record Settings : Type 0 where
    pub input_width : ℕ
    pub input_height : ℕ
    pub conf_threshold : R.Carrier
    pub nms_threshold : R.Carrier
    pub layout : OutputLayout
    pub allowed : Option (List ℕ)

  -- A frame with whether the session was free, the order in which nms visits the classes, and the
  -- time of the statistics.
  pub record Frame : Type 0 where
    pub jpeg : List ℕ
    pub free : Bool
    pub order : List ℕ
    pub now : ℕ

  pub data Error : Type 0 where
    decode_failed : Error
    inference_failed : Error
    encode_failed : Error

  pub record State : Type 0 where
    pub frame_count : ℕ
    pub frame_in : ℕ
    pub frame_det : ℕ
    pub last_dets : List (Detection R)
    pub last_log : ℕ

abbrev mem_id : ℕ → List ℕ → Bool
mem_id k [] = false
mem_id k (id ∷ ids) = let rest = mem_id k ids in if k == id then true else rest

module _ (R : Float) where
  -- No filter, or the detections of the classes that it names.
  unfoldable pub only_allowed : Option (List ℕ) → List (Detection R) → List (Detection R)
  only_allowed none dets = dets
  only_allowed (some ids) dets = keep_if (λ d. mem_id d.class_id ids) dets

abbrev detect_every_n : ℕ
detect_every_n = 15

-- 10 s
abbrev stats_interval : ℕ
stats_interval = 10_000_000_000

module _ (R : Float) (lib : Library R) (cfg : Settings R) where
  abbrev params : lib.Image → ParseParams R
  unfolding letterbox
  params src =
      let (w, h) = lib.size src in
      record {
        layout = cfg.layout;
        conf_threshold = cfg.conf_threshold;
        nms_threshold = cfg.nms_threshold;
        letterbox = letterbox R (w, h) cfg.input_width cfg.input_height;
        orig_w = w;
        orig_h = h;
      }

  abbrev infer_output :
      List ℕ → lib.Image → Option (List R.Carrier) → Option (Result (Error R) (List (Detection R)))
  unfolding params parse_output only_allowed
  infer_output order src none = some (err inference_failed)
  infer_output order src (some raw) =
      parse_output R order raw (params src) >>= λ dets. some (ok (only_allowed R cfg.allowed dets))

  abbrev infer_image : List ℕ → Option lib.Image → Option (Result (Error R) (List (Detection R)))
  unfolding infer_output letterbox
  infer_image order none = some (err decode_failed)
  infer_image order (some src) =
      infer_output order src
        (lib.run src (letterbox R (lib.size src) cfg.input_width cfg.input_height))

  unfoldable pub inference_only : List ℕ → List ℕ → Option (Result (Error R) (List (Detection R)))
  unfolding infer_image
  inference_only order jpeg = infer_image order (lib.decode jpeg)

  abbrev encoded : Option (List ℕ) → Result (Error R) (List ℕ)
  encoded none = err encode_failed
  encoded (some out) = ok out

  unfoldable pub annotate_jpeg : List ℕ → List (Detection R) → Result (Error R) (List ℕ)
  annotate_jpeg jpeg dets = elim (lib.decode jpeg) [
    | none ↦ err decode_failed
    | some src ↦ encoded (lib.encode (lib.annotate src dets))
  ]

  -- Detect and infer: the detections, and the frame with them.
  unfoldable pub detect :
      List ℕ → List ℕ → Option (Result (Error R) (List (Detection R) × Result (Error R) (List ℕ)))
  unfolding inference_only annotate_jpeg
  detect order jpeg = inference_only order jpeg >>= λ r.
      some (elim r [ err e ↦ err e | ok dets ↦ ok (dets, annotate_jpeg jpeg dets) ])

  abbrev pub refreshed : State R → Result (Error R) (List (Detection R)) → State R
  refreshed s (err e) = s
  refreshed s (ok dets) = record s {
    frame_det = if ltb 0 (length dets) then s.frame_det + 1 else s.frame_det;
    last_dets = dets;
  }

  unfoldable pub refresh : State R → Frame R → Option (State R)
  unfolding inference_only
  refresh s f =
      if (s.frame_count % detect_every_n == 0) && f.free
      then (inference_only f.order f.jpeg >>= λ r. some (refreshed s r))
      else some s

  -- An error of the annotation lets the frame through as it came.
  abbrev pub pushed : List ℕ → Result (Error R) (List ℕ) → List ℕ
  pushed jpeg (err e) = jpeg
  pushed jpeg (ok annotated) = annotated

  -- The line of the statistics, when it is due.
  unfoldable pub log_stats : State R → ℕ → State R × Option (ℕ × ℕ)
  log_stats s now =
      if ltb (now - s.last_log) stats_interval
      then (s, none)
      else (record s { last_log = now }, some (s.frame_in, s.frame_det))

  unfoldable pub process : State R → Frame R → Option (State R × List ℕ × Option (ℕ × ℕ))
  unfolding refresh annotate_jpeg log_stats
  process s f =
      refresh (record s { frame_count = s.frame_count + 1; frame_in = s.frame_in + 1 }) f >>= λ s'.
      let (s2, line) = log_stats s' f.now in
      some (s2, pushed f.jpeg (annotate_jpeg f.jpeg s'.last_dets), line)
