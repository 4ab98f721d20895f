-- ===== src/Recorder/Camera/Change.antt =====
-- How the recorder's counters change: services/camera-recorder/internal/metrics/metrics.go.
use instachron.Base.{ℕ, ◌+◌, ◌≤◌, ◌≡◌, refl, arith, Option, none, some, lookup-insert}
use instachron.Base.Int.{pos}
use instachron.Text.{Text, text_eq_iff, text_instance}
use instachron.Recorder.Metrics.{
  Metrics, CameraMetrics, camera_metrics, set_camera, inc_frames_recorded, inc_frames_dropped,
  inc_segment_completed, inc_encoder_error, inc_active_encoders, dec_active_encoders,
}
use instachron.Recorder.Camera.{ActiveSegment}

-- The frames of a camera that were recorded or dropped.
unfoldable pub settled : Text → Metrics → ℕ
settled id m = let c = camera_metrics id m in c.frames_recorded + c.frames_dropped

unfoldable pub open_count : Option ActiveSegment → ℕ
open_count none = 0
open_count (some _) = 1

-- From one state of the counters to a later one: how many frames were settled, that no error was
-- forgotten, and that the gauge moved with the camera's segment.
pub record Change (id : Text) (k : ℕ) (m m' : Metrics) (seg seg' : Option ActiveSegment)
    : Type 0 where
  pub frames : settled id m' ≡ settled id m + k
  pub errors : m.encoder_errors ≤ m'.encoder_errors
  pub gauge :
      (others : ℕ)
      → m.active_encoders ≡ pos (others + open_count seg)
      → m'.active_encoders ≡ pos (others + open_count seg')

pub set_camera-metrics :
    (id : Text) (c : CameraMetrics) (m : Metrics) → camera_metrics id (set_camera id c m) ≡ c
unfolding camera_metrics set_camera
set_camera-metrics id c m = ground (arith, lookup-insert id id c m.cameras, text_eq_iff id id)

pub settled-recorded :
    (id : Text) (m : Metrics) → settled id (inc_frames_recorded id m) ≡ settled id m + 1
unfolding settled inc_frames_recorded
settled-recorded id m = rw set_camera-metrics (omega arith)

pub settled-dropped :
    (id : Text) (m : Metrics) → settled id (inc_frames_dropped id m) ≡ settled id m + 1
unfolding settled inc_frames_dropped
settled-dropped id m = rw set_camera-metrics (omega arith)

pub settled-segment :
    (id : Text) (m : Metrics) → settled id (inc_segment_completed id m) ≡ settled id m
unfolding settled inc_segment_completed
settled-segment id m = rw set_camera-metrics refl

pub unchanged : (id : Text) (m : Metrics) (seg : Option ActiveSegment) → Change id 0 m m seg seg
unchanged id m seg = record { frames = omega arith; errors = omega arith; gauge = λ n e. e }

pub then-Change :
    (id : Text) {j k : ℕ} {m m' m'' : Metrics} {seg seg' seg'' : Option ActiveSegment}
    → Change id j m m' seg seg'
    → Change id k m' m'' seg' seg''
    → Change id (j + k) m m'' seg seg''
then-Change id a b = record {
  frames = omega (arith, a.frames, b.frames);
  errors = omega (arith, a.errors, b.errors);
  gauge = λ n e. b.gauge n (a.gauge n e);
}

pub same_segment :
    (id : Text) {k : ℕ} {m m' : Metrics} {seg : Option ActiveSegment} (a b : ActiveSegment)
    → Change id k m m' seg (some a)
    → Change id k m m' seg (some b)
unfolding open_count
same_segment id a b c = record { frames = c.frames; errors = c.errors; gauge = c.gauge }

pub inc_encoder_error-Change :
    (id : Text) (m : Metrics) (seg : Option ActiveSegment)
    → Change id 0 m (inc_encoder_error m) seg seg
unfolding settled camera_metrics inc_encoder_error
inc_encoder_error-Change id m seg = record {
  frames = omega arith;
  errors = omega arith;
  gauge = λ n e. e;
}

pub inc_segment_completed-Change :
    (id : Text) (m : Metrics) (seg : Option ActiveSegment)
    → Change id 0 m (inc_segment_completed id m) seg seg
unfolding inc_segment_completed set_camera
inc_segment_completed-Change id m seg = record {
  frames = omega (arith, settled-segment id m);
  errors = omega arith;
  gauge = λ n e. e;
}

pub inc_frames_recorded-Change :
    (id : Text) (m : Metrics) (seg : Option ActiveSegment)
    → Change id 1 m (inc_frames_recorded id m) seg seg
unfolding inc_frames_recorded set_camera
inc_frames_recorded-Change id m seg = record {
  frames = settled-recorded id m;
  errors = omega arith;
  gauge = λ n e. e;
}

pub inc_frames_dropped-Change :
    (id : Text) (m : Metrics) (seg : Option ActiveSegment)
    → Change id 1 m (inc_frames_dropped id m) seg seg
unfolding inc_frames_dropped set_camera
inc_frames_dropped-Change id m seg = record {
  frames = settled-dropped id m;
  errors = omega arith;
  gauge = λ n e. e;
}

pub dec_active_encoders-Change :
    (id : Text) (m : Metrics) (seg : ActiveSegment)
    → Change id 0 m (dec_active_encoders m) (some seg) none
unfolding settled camera_metrics dec_active_encoders open_count
dec_active_encoders-Change id m seg = record {
  frames = omega arith;
  errors = omega arith;
  gauge = λ n e. rw e (ground arith);
}

pub inc_active_encoders-Change :
    (id : Text) (m : Metrics) (seg : ActiveSegment)
    → Change id 0 m (inc_active_encoders m) none (some seg)
unfolding settled camera_metrics inc_active_encoders open_count
inc_active_encoders-Change id m seg = record {
  frames = omega arith;
  errors = omega arith;
  gauge = λ n e. rw e (ground arith);
}
