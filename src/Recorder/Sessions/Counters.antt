-- ===== src/Recorder/Sessions/Counters.antt =====
-- What Submit does to the queue and the counters of its own camera, and to those of another.
use native.Mathlib.Decide.{dec_lt}
use instachron.Base.{length-drop}
use instachron.Base.{
  ℕ, ◌^◌, ◌+◌, ◌-◌, ◌<◌, ◌≤◌, ◌≡◌, refl, sym, ◌∙◌, ap, arith, true, false, List, [], ◌∷◌, ◌++◌,
  length, nat_instance, lookup-insert, ltb, ◌==◌, ==_iff, if◌then◌else◌, Bool-cases, inl, inr,
}
use instachron.Text.{Text, text_instance, text_eq, text_eq_iff}
use instachron.DropChan.{send, lost}
use instachron.DropChan.Window.{window, send-window, length-window}
use instachron.StreamProto.{Frame}
use instachron.StreamProto.CameraId.{camera_id_string, camera_id_string_injective}
use instachron.Recorder.Metrics.{
  Metrics, CameraMetrics, camera_metrics, set_camera, inc_frames_received, inc_frames_dropped,
}
use instachron.Recorder.Camera.{Config, submit}

unfoldable pub metrics_of : ℕ → Metrics → CameraMetrics
metrics_of id m = camera_metrics (camera_id_string id) m

text_eq-camera_id_string :
    (j id : ℕ)
    → j < 2 ^ 32
    → id < 2 ^ 32
    → text_eq (camera_id_string j) (camera_id_string id) ≡ (j == id)
text_eq-camera_id_string j id hj hid =
    let texts = text_eq_iff (camera_id_string j) (camera_id_string id) in
    elim (Bool-cases (j == id)) [
      | inl same ↦
          let e : j ≡ id = (==_iff j id).0 same in texts.1 (ap camera_id_string e) ∙ sym same
      | inr other ↦ elim (Bool-cases (text_eq (camera_id_string j) (camera_id_string id))) [
        | inr apart ↦ apart ∙ sym other
        | inl met ↦
            let e : j ≡ id = camera_id_string_injective j id hj hid (texts.0 met) in
            absurd (ground (arith, ==_iff j id))
      ]
    ]

metrics_of-set :
    (j id : ℕ) (c : CameraMetrics) (m : Metrics)
    → j < 2 ^ 32
    → id < 2 ^ 32
    → metrics_of id (set_camera (camera_id_string j) c m) ≡ (if j == id then c else metrics_of id m)
unfolding metrics_of camera_metrics set_camera
metrics_of-set j id c m hj hid =
    let text_j = camera_id_string j in
    let text_id = camera_id_string id in
    ground (arith, lookup-insert text_j text_id c m.cameras, text_eq-camera_id_string j id hj hid)

received_of :
    (j id : ℕ) (m : Metrics)
    → j < 2 ^ 32
    → id < 2 ^ 32
    → metrics_of id (inc_frames_received (camera_id_string j) m) ≡ (
        if j == id
        then record (metrics_of id m) { frames_received = (metrics_of id m).frames_received + 1 }
        else metrics_of id m)
unfolding inc_frames_received metrics_of
received_of j id m hj hid = elim (Bool-cases (j == id)) [
  | inl same ↦
      let e : j ≡ id = (==_iff j id).0 same in metrics_of-set j id _ m hj hid ∙ rw (same, e) refl
  | inr other ↦ metrics_of-set j id _ m hj hid ∙ rw other refl
]

dropped_of :
    (j id : ℕ) (m : Metrics)
    → j < 2 ^ 32
    → id < 2 ^ 32
    → metrics_of id (inc_frames_dropped (camera_id_string j) m) ≡ (
        if j == id
        then record (metrics_of id m) { frames_dropped = (metrics_of id m).frames_dropped + 1 }
        else metrics_of id m)
unfolding inc_frames_dropped metrics_of
dropped_of j id m hj hid = elim (Bool-cases (j == id)) [
  | inl same ↦
      let e : j ≡ id = (==_iff j id).0 same in metrics_of-set j id _ m hj hid ∙ rw (same, e) refl
  | inr other ↦ metrics_of-set j id _ m hj hid ∙ rw other refl
]

pub submit-window :
    (id : Text) (cfg : Config) (f : Frame) (queue : List Frame) (m : Metrics)
    → 0 < cfg.queue_size_per_camera
    → length queue ≤ cfg.queue_size_per_camera
    → let cap = cfg.queue_size_per_camera in
      let m1 = inc_frames_received id m in
      submit id cfg f (queue, m) ≡ (
        window cap (queue ++ (f ∷ [])),
        (if ltb (length queue) cap then m1 else inc_frames_dropped id m1),
      )
unfolding submit lost
submit-window id cfg f queue m positive fits =
    let cap = cfg.queue_size_per_camera in ground (arith, send-window cap f queue positive fits)

pub submit_other :
    (j id : ℕ) (cfg : Config) (f : Frame) (queue : List Frame) (m : Metrics)
    → j < 2 ^ 32
    → id < 2 ^ 32
    → (j == id) ≡ false
    → metrics_of id (submit (camera_id_string j) cfg f (queue, m)).1 ≡ metrics_of id m
unfolding submit
submit_other j id cfg f queue m hj hid other =
    let m1 = inc_frames_received (camera_id_string j) m in
    elim (Bool-cases (lost (send cfg.queue_size_per_camera f queue).0)) [
      | inl gone ↦ rw gone (ground (arith, received_of j id m hj hid, dropped_of j id m1 hj hid))
      | inr in_ ↦ rw in_ (ground (arith, received_of j id m hj hid))
    ]

-- What one Submit leaves of its own camera: the metrics.
pub submit_mine :
    (id : ℕ) (cfg : Config) (f : Frame) (xs : List Frame) (m : Metrics)
    → 0 < cfg.queue_size_per_camera
    → id < 2 ^ 32
    → let cap = cfg.queue_size_per_camera in
      let c = metrics_of id m in
      let c' = metrics_of id (submit (camera_id_string id) cfg f (window cap xs, m)).1 in
      (c'.frames_received ≡ c.frames_received + 1)
      × (c'.frames_dropped
          ≡ (if ltb (length xs) cap then c.frames_dropped else c.frames_dropped + 1))
submit_mine id cfg f xs m positive hid =
    let cap = cfg.queue_size_per_camera in
    let q = window cap xs in
    let m1 = inc_frames_received (camera_id_string id) m in
    let size = length-drop (length xs - cap) xs in
    let self = (==_iff id id).1 refl in
    let r = rw self at (received_of id id m hid hid) in
    let d = rw self at (dropped_of id id m1 hid hid) in
    rw (submit-window (camera_id_string id) cfg f q m positive (length-window cap xs))
      (elim (dec_lt (length xs) cap) [
        | yes room ↦
            let fits : ltb (length q) cap ≡ true = ground (arith, size) in
            rw fits (ap (λ c. c.frames_received) r, ap (λ c. c.frames_dropped) r ∙ ground arith)
        | no full ↦
            let fits : ltb (length q) cap ≡ false = ground (arith, size) in
            rw fits (
              ap (λ c. c.frames_received) d ∙ ap (λ c. c.frames_received) r,
              ap (λ c. c.frames_dropped) d ∙ ap (λ c. c.frames_dropped + 1) r ∙ ground arith,
            )
      ])
