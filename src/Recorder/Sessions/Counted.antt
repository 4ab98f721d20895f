-- ===== src/Recorder/Sessions/Counted.antt =====
-- What the queues and the counters of the cameras hold after the frames that Sessions.Submit was
-- given, while no recording loop reads.
use instachron.Base.{drop-nil}
use instachron.Base.{All}
use mathlib.Core.Path.{subst}
use instachron.Base.{
  ℕ, ◌^◌, ◌-◌, ◌<◌, ◌≡◌, refl, sym, ◌∙◌, ap, arith, List, [], ◌∷◌, ◌++◌, length, length-append,
  keep_if, lookup, insert, nat_instance, lookup-insert, ◌==◌, ==_iff, if◌then◌else◌, Bool-cases,
  inl, inr,
}
use instachron.Text.{text_instance}
use instachron.DropChan.Window.{window, window-append, length-window}
use instachron.StreamProto.{Frame}
use instachron.StreamProto.CameraId.{camera_id_string}
use instachron.Recorder.Metrics.{Metrics, camera_metrics, new_camera_metrics, new_metrics}
use instachron.Recorder.Camera.{Config, submit}
use mathlib.Core.List.{append_assoc, append-nil}
use instachron.Recorder.Sessions.{Cameras, camera, submit_frame, submit_frames}
use instachron.Recorder.Sessions.Counters.{metrics_of, submit-window, submit_other, submit_mine}

-- The frames of one camera.
abbrev pub of_camera : ℕ → List Frame → List Frame
of_camera id = keep_if (λ f. f.camera_id == id)

-- What holds for a camera after the frames `before`.
abbrev Counted : Config → ℕ → List Frame → Cameras × Metrics → Type 0
Counted cfg id before (cameras, m) =
    let cap = cfg.queue_size_per_camera in
    let mine = of_camera id before in
    (camera id cameras ≡ window cap mine)
    × ((metrics_of id m).frames_received ≡ length mine)
    × ((metrics_of id m).frames_dropped ≡ length mine - cap)

camera-insert :
    (j id : ℕ) (queue : List Frame) (cameras : Cameras)
    → camera id (insert j queue cameras) ≡ (if j == id then queue else camera id cameras)
unfolding camera
camera-insert j id queue cameras = ground (arith, lookup-insert j id queue cameras)

of_camera-append :
    (id : ℕ) (xs : List Frame) (f : Frame)
    → of_camera id (xs ++ (f ∷ []))
      ≡ (if f.camera_id == id then of_camera id xs ++ (f ∷ []) else of_camera id xs)
of_camera-append id [] f = ground arith
of_camera-append id (x ∷ xs) f = ground (arith, of_camera-append id xs f)

submit-Counted_mine :
    (cfg : Config) (before : List Frame) (f : Frame) (cameras : Cameras) (m : Metrics)
    → 0 < cfg.queue_size_per_camera
    → f.camera_id < 2 ^ 32
    → Counted cfg f.camera_id before (cameras, m)
    → Counted cfg f.camera_id (before ++ (f ∷ [])) (submit_frame cfg f (cameras, m))
unfolding submit_frame
submit-Counted_mine cfg before f cameras m positive hid (q, r, d) =
    let cap = cfg.queue_size_per_camera in
    let id = f.camera_id in
    let xs = of_camera id before in
    let self = (==_iff id id).1 refl in
    let (received, dropped) = submit_mine id cfg f xs m positive hid in
    let sent =
      submit-window (camera_id_string id) cfg f (window cap xs) m positive (length-window cap xs) in
    let size = length-append xs (f ∷ []) in
    let queue' = (submit (camera_id_string id) cfg f (window cap xs, m)).0 in
    rw (of_camera-append id before f, self, q)
      (
        camera-insert id id queue' cameras
            ∙ rw self (ap (λ s. s.0) sent ∙ window-append cap xs (f ∷ [])),
        received ∙ omega (arith, r, size),
        dropped ∙ ground (arith, d, size),
      )

-- What one Submit leaves of a camera that had `before`.
submit-Counted :
    (cfg : Config) (id : ℕ) (before : List Frame) (f : Frame) (cameras : Cameras) (m : Metrics)
    → 0 < cfg.queue_size_per_camera
    → id < 2 ^ 32
    → f.camera_id < 2 ^ 32
    → Counted cfg id before (cameras, m)
    → Counted cfg id (before ++ (f ∷ [])) (submit_frame cfg f (cameras, m))
unfolding submit_frame
submit-Counted cfg id before f cameras m positive hid hf counted =
    elim (Bool-cases (f.camera_id == id)) [
      | inl mine ↦
          let e : f.camera_id ≡ id = (==_iff f.camera_id id).0 mine in
          subst (λ i. Counted cfg i (before ++ (f ∷ [])) (submit_frame cfg f (cameras, m))) e
            (submit-Counted_mine cfg before f cameras m positive hf
              (subst (λ i. Counted cfg i before (cameras, m)) (sym e) counted))
      | inr other ↦
          let same =
            submit_other f.camera_id id cfg f (camera f.camera_id cameras) m hf hid other in
          rw (of_camera-append id before f, other)
            (
              camera-insert f.camera_id id _ cameras ∙ rw other counted.0,
              ap (λ c. c.frames_received) same ∙ counted.1,
              ap (λ c. c.frames_dropped) same ∙ counted.2,
            )
    ]

submit_frames-Counted :
    (cfg : Config) (id : ℕ) (fs before : List Frame) (cameras : Cameras) (m : Metrics)
    → 0 < cfg.queue_size_per_camera
    → id < 2 ^ 32
    → All (λ f. f.camera_id < 2 ^ 32) fs
    → Counted cfg id before (cameras, m)
    → Counted cfg id (before ++ fs) (submit_frames cfg fs (cameras, m))
unfolding submit_frames
submit_frames-Counted cfg id [] before cameras m positive hid ids counted =
    rw (append-nil before) counted
submit_frames-Counted cfg id (f ∷ fs) before cameras m positive hid ids counted =
    let (cameras', m') = submit_frame cfg f (cameras, m) in
    rw (← append_assoc before (f ∷ []) fs) (
      submit_frames-Counted cfg id fs (before ++ (f ∷ [])) cameras' m' positive hid ids.1
        (submit-Counted cfg id before f cameras m positive hid ids.0 counted))

-- From the start, while the recording loops stand still and with a positive queue size: the queue
-- of each camera holds the last of its own frames that fit, oldest first, and its counters say
-- how many frames came and how many of them are lost, whatever frames the other cameras sent.
pub submit_frames-window :
    (cfg : Config) (id : ℕ) (fs : List Frame)
    → 0 < cfg.queue_size_per_camera
    → id < 2 ^ 32
    → All (λ f. f.camera_id < 2 ^ 32) fs
    → let (cameras, m) = submit_frames cfg fs ([], new_metrics) in
      let cap = cfg.queue_size_per_camera in
      let mine = of_camera id fs in
      let c = camera_metrics (camera_id_string id) m in
      (camera id cameras ≡ window cap mine)
      × (c.frames_received ≡ length mine)
      × (c.frames_dropped ≡ length mine - cap)
unfolding new_metrics
submit_frames-window cfg id fs positive hid ids =
    unfold metrics_of in
    submit_frames-Counted cfg id fs [] [] new_metrics positive hid ids (
      unfold camera lookup camera_metrics new_camera_metrics in
      (sym (drop-nil (0 - cfg.queue_size_per_camera)), refl, omega arith))
