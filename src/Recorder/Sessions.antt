-- ===== src/Recorder/Sessions.antt =====
-- services/camera-recorder/internal/recorder/sessions.go: the cameras, each started by its first
-- frame. A camera is held as its queue; its recording loop is Recorder.Camera.
pub mod Counters
pub mod Counted
use instachron.Base.{All}
use mathlib.Core.Path.{subst}
use native.Mathlib.Decide.{dec_lt}
use instachron.Base.{drop, length-drop}
use instachron.Base.{
  ℕ, zero, suc, ◌^◌, ◌+◌, ◌-◌, ◌<◌, ◌≤◌, ◌≡◌, ◌≢◌, refl, sym, ◌∙◌, ap, arith, Bool, true, false,
  Option, none, some, List, [], ◌∷◌, ◌++◌, length, length-append, keep_if, Map, map, lookup, insert,
  nat_instance, lookup-insert, ltb, ◌==◌, ==_iff, if◌then◌else◌, Bool-cases, inl, inr,
}
use instachron.Text.{Text, text_instance, text_ltb, text_eq, text_eq_iff}
use instachron.Sorting.{sort}
use instachron.DropChan.{send, lost, delivered, replaced_oldest}
use instachron.DropChan.Window.{window, send-window, window-append, length-window}
use instachron.StreamProto.{Frame}
use instachron.StreamProto.CameraId.{camera_id_string, camera_id_string_injective}
use instachron.Recorder.Metrics.{
  Metrics, CameraMetrics, camera_metrics, set_camera, new_camera_metrics, inc_frames_received,
  inc_frames_dropped, new_metrics,
}
use instachron.Recorder.Camera.{Config, submit}
use mathlib.Core.List.{append_assoc, append-nil}

abbrev pub Cameras : Type 0
Cameras = Map ℕ (List Frame)

-- `camera`: the queue of the camera, empty when it was just started.
unfoldable pub camera : ℕ → Cameras → List Frame
camera id cameras = elim (lookup id cameras) [ none ↦ [] | some queue ↦ queue ]

unfoldable pub submit_frame : Config → Frame → Cameras × Metrics → Cameras × Metrics
unfolding camera
submit_frame cfg f (cameras, m) =
    let id = f.camera_id in
    let (queue, m') = submit (camera_id_string id) cfg f (camera id cameras, m) in
    (insert id queue cameras, m')

unfoldable pub active_camera_ids : Cameras → List Text
active_camera_ids cameras = sort text_ltb (map (λ c. camera_id_string c.0) cameras)

unfoldable pub submit_frames : Config → List Frame → Cameras × Metrics → Cameras × Metrics
submit_frames cfg [] s = s
submit_frames cfg (f ∷ fs) s = submit_frames cfg fs (submit_frame cfg f s)
