-- ===== src/Recorder/Metrics.antt =====
-- services/camera-recorder/internal/metrics/metrics.go: the recorder's counters. Each call holds the
-- lock or one atomic, so a call is a step. The int64 counters have no bound here.
use instachron.Base.{ℕ, ◌+◌, none, some, [], length, Map, lookup, insert}
use instachron.Base.Int.{ℤ, pos, negsuc, ◌+ℤ◌}
use instachron.Text.{Text, text_instance}

pub record CameraMetrics : Type 0 where
  pub frames_received : ℕ
  pub frames_recorded : ℕ
  pub frames_dropped : ℕ
  pub segments_done : ℕ

pub record Metrics : Type 0 where
  pub active_encoders : ℤ
  pub storage_bytes : ℕ
  pub encoder_errors : ℕ
  pub segments_done : ℕ
  pub cameras : Map Text CameraMetrics

unfoldable pub new_camera_metrics : CameraMetrics
new_camera_metrics = record {
  frames_received = 0;
  frames_recorded = 0;
  frames_dropped = 0;
  segments_done = 0;
}

unfoldable pub new_metrics : Metrics
new_metrics = record {
  active_encoders = pos 0;
  storage_bytes = 0;
  encoder_errors = 0;
  segments_done = 0;
  cameras = [];
}

-- The counters of a camera, which ensureCamera creates when there are none.
unfoldable pub camera_metrics : Text → Metrics → CameraMetrics
camera_metrics id m = elim (lookup id m.cameras) [ none ↦ new_camera_metrics | some c ↦ c ]

unfoldable pub set_camera : Text → CameraMetrics → Metrics → Metrics
set_camera id c m = record m { cameras = insert id c m.cameras }

unfoldable pub inc_frames_received : Text → Metrics → Metrics
unfolding camera_metrics set_camera new_camera_metrics
inc_frames_received id m =
    let c = camera_metrics id m in
    set_camera id (record c { frames_received = c.frames_received + 1 }) m

unfoldable pub inc_frames_recorded : Text → Metrics → Metrics
unfolding camera_metrics set_camera new_camera_metrics
inc_frames_recorded id m =
    let c = camera_metrics id m in
    set_camera id (record c { frames_recorded = c.frames_recorded + 1 }) m

unfoldable pub inc_frames_dropped : Text → Metrics → Metrics
unfolding camera_metrics set_camera new_camera_metrics
inc_frames_dropped id m =
    let c = camera_metrics id m in
    set_camera id (record c { frames_dropped = c.frames_dropped + 1 }) m

unfoldable pub inc_segment_completed : Text → Metrics → Metrics
unfolding camera_metrics set_camera new_camera_metrics
inc_segment_completed id m =
    let c = camera_metrics id m in
    set_camera id (record c { segments_done = c.segments_done + 1 })
      (record m { segments_done = m.segments_done + 1 })

unfoldable pub inc_encoder_error : Metrics → Metrics
inc_encoder_error m = record m { encoder_errors = m.encoder_errors + 1 }

unfoldable pub inc_active_encoders : Metrics → Metrics
inc_active_encoders m = record m { active_encoders = m.active_encoders +ℤ pos 1 }

unfoldable pub dec_active_encoders : Metrics → Metrics
dec_active_encoders m = record m { active_encoders = m.active_encoders +ℤ negsuc 0 }

unfoldable pub set_storage_bytes : ℕ → Metrics → Metrics
set_storage_bytes n m = record m { storage_bytes = n }

unfoldable pub active_cameras : Metrics → ℕ
active_cameras m = length m.cameras
