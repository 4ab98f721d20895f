-- ===== src/Recorder/Camera.antt =====
-- services/camera-recorder/internal/recorder/camera.go: the recording loop of one camera. What it
-- calls is a parameter: the Store (storage.go), the Encoder and its factory (encoder.go), which are
-- interfaces in the code too. Their calls read and change a world `W`, and may fail in any way.
pub mod Protocol
pub mod Cases
pub mod Lifecycle
pub mod Change
pub mod Segments
pub mod Accounting
use instachron.Base.{
  ℕ, zero, suc, ◌+◌, ◌-◌, ◌≤◌, ◌<◌, ◌≡◌, refl, arith, Bool, true, false, not, ◌&&◌, ◌||◌, Option,
  none, some, List, [], ◌∷◌, length, ltb, leb, ◌==◌, if◌then◌else◌,
}
use instachron.Text.{Text}
use instachron.DropChan.{Outcome, lost, send}
use instachron.StreamProto.{Frame}
use instachron.Backend.Protocol.{looks_like_jpeg}
use instachron.Recorder.Sampling.{keep_every, should_keep}
use instachron.Recorder.Metrics.{
  Metrics, inc_frames_received, inc_frames_recorded, inc_frames_dropped, inc_segment_completed,
  inc_encoder_error, inc_active_encoders, dec_active_encoders,
}

pub record Config : Type 0 where
  pub output_fps : ℕ
  pub timelapse_factor : ℕ
  pub segment_raw_duration : ℕ
  pub max_file_bytes : ℕ
  pub keep_files_per_camera : ℕ
  pub queue_size_per_camera : ℕ
  pub inactive_close_duration : ℕ

-- The Store and Encoder interfaces; segments and encoders are named by numbers. A Bool result says
-- that no error came back. `begin_segment` is told whether its context is cancelled.
pub record Services (W : Type 0) : Type 0 where
  pub begin_segment : Bool → Text → ℕ → W → Option ℕ × W
  pub complete_segment : ℕ → ℕ → W → Bool × W
  pub discard_segment : ℕ → W → W
  pub prune : Text → ℕ → W → W
  pub bytes_written : ℕ → W → ℕ
  pub close_writer : ℕ → W → Bool × W
  pub new_encoder : ℕ → W → Option ℕ × W
  pub write_jpeg : ℕ → List ℕ → W → Bool × W
  pub close_encoder : ℕ → W → Bool × W
  pub kill : ℕ → W → W

pub record ActiveSegment : Type 0 where
  pub pending : ℕ
  pub encoder : ℕ
  pub started_at : ℕ
  pub last_recorded : ℕ

-- `state`, with the metrics and the world.
pub record State (W : Type 0) : Type 0 where
  pub seg : Option ActiveSegment
  pub next_keep_at : ℕ
  pub last_frame_at : ℕ
  pub metrics : Metrics
  pub world : W

-- Submit, on the camera's queue.
unfoldable pub submit : Text → Config → Frame → List Frame × Metrics → List Frame × Metrics
unfolding lost
submit id cfg f (queue, m) =
    let m1 = inc_frames_received id m in
    let (outcome, queue') = send cfg.queue_size_per_camera f queue in
    (queue', (if lost outcome then inc_frames_dropped id m1 else m1))

-- A tick, and a frame from the queue; the clock's value, and whether the context is cancelled.
pub data Event : Type 0 where
  ticked : ℕ → Event
  queued : Bool → ℕ → Frame → Event

module _ {W : Type 0} (sv : Services W) (id : Text) (cfg : Config) where
  unfoldable pub abort_segment : ActiveSegment → Metrics × W → Metrics × W
  abort_segment seg (m, w) = (inc_encoder_error m, sv.discard_segment seg.pending w)

  unfoldable pub discard_segment : Option ActiveSegment → Metrics × W → Metrics × W
  discard_segment none s = s
  discard_segment (some seg) (m, w) =
      (dec_active_encoders m, sv.discard_segment seg.pending (sv.kill seg.encoder w))

  unfoldable pub finish_segment : Option ActiveSegment → Metrics × W → Metrics × W
  unfolding abort_segment
  finish_segment none s = s
  finish_segment (some seg) (m, w) =
      let m1 = dec_active_encoders m in
      let (encoded, w1) = sv.close_encoder seg.encoder w in
      let (closed, w2) = sv.close_writer seg.pending w1 in
      let (completed, w3) = sv.complete_segment seg.pending seg.last_recorded w2 in
      if not encoded
      then abort_segment seg (m1, w1)
      else if not closed
      then abort_segment seg (m1, w2)
      else if not completed
      then abort_segment seg (m1, w3)
      else (inc_segment_completed id m1, sv.prune id cfg.keep_files_per_camera w3)

  unfoldable pub open_segment : Bool → ℕ → Metrics × W → Option ActiveSegment × (Metrics × W)
  open_segment cancelled start (m, w) =
      let (begun, w1) = sv.begin_segment cancelled id start w in
      elim begun [
        | none ↦ (none, (m, w1))
        | some pending ↦
            let (started, w2) = sv.new_encoder pending w1 in
            elim started [
              | none ↦ (none, (m, sv.discard_segment pending w2))
              | some encoder ↦ (
                some (record {
                  pending = pending;
                  encoder = encoder;
                  started_at = start;
                  last_recorded = start;
                }),
                (inc_active_encoders m, w2),
              )
            ]
      ]

  -- rotate
  unfoldable pub rotate : State W → State W
  unfolding finish_segment
  rotate st =
      let (m, w) = finish_segment st.seg (st.metrics, st.world) in
      record st { seg = none; metrics = m; world = w }

  unfoldable pub should_rotate : Option ActiveSegment → ℕ → W → Bool
  should_rotate none now w = false
  should_rotate (some seg) now w =
      leb (seg.started_at + cfg.segment_raw_duration) now
      || leb cfg.max_file_bytes (sv.bytes_written seg.pending w)

  unfoldable pub rotate_if_due : ℕ → State W → State W
  unfolding rotate should_rotate
  rotate_if_due ts st = if should_rotate st.seg ts st.world then rotate st else st

  -- `if st.seg == nil { ... }`: false says that handleFrame returns.
  unfoldable pub ensure_segment : Bool → ℕ → State W → Bool × State W
  unfolding open_segment
  ensure_segment cancelled ts st = elim st.seg [
    | some seg ↦ (true, st)
    | none ↦
        let (opened, (m, w)) = open_segment cancelled ts (st.metrics, st.world) in
        elim opened [
          | none ↦ (false, record st { metrics = inc_encoder_error m; world = w })
          | some seg ↦ (true, record st { seg = some seg; metrics = m; world = w })
        ]
  ]

  -- The rest of handleFrame: the frame is written, or the segment thrown away. There is a segment
  -- here: ensure_segment said true.
  unfoldable pub write_frame : ℕ → List ℕ → State W → State W
  unfolding discard_segment rotate_if_due
  write_frame ts payload st = elim st.seg [
    | none ↦ st
    | some seg ↦
        let (written, w1) = sv.write_jpeg seg.encoder payload st.world in
        if not written
        then (let (m, w2) = discard_segment (some seg) (inc_encoder_error st.metrics, w1) in
            record st { seg = none; metrics = m; world = w2 })
        else rotate_if_due ts (record st {
          seg = some (record seg { last_recorded = ts });
          metrics = inc_frames_recorded id st.metrics;
          world = w1;
        })
  ]

  -- handleFrame from the decision to keep the frame on.
  unfoldable pub record_frame : Bool → ℕ → List ℕ → State W → State W
  unfolding rotate_if_due ensure_segment write_frame
  record_frame cancelled ts payload st =
      let (opened, st1) = ensure_segment cancelled ts (rotate_if_due ts st) in
      if opened then write_frame ts payload st1 else st1

  unfoldable pub drop_frame : State W → State W
  drop_frame st = record st { metrics = inc_frames_dropped id st.metrics }

  -- A frame without a timestamp is taken at the clock's time.
  unfoldable pub frame_time : ℕ → Frame → ℕ
  frame_time now f = if f.timestamp == 0 then now else f.timestamp

  -- handleFrame; none says that the loop of shouldKeep does not end.
  unfoldable pub handle_frame : Bool → ℕ → Frame → State W → Option (State W)
  unfolding drop_frame record_frame frame_time
  handle_frame cancelled now f st =
      let ts = frame_time now f in
      let st1 = record st { last_frame_at = ts } in
      if not (looks_like_jpeg f.payload)
      then some (drop_frame st1)
      else elim (should_keep ts st1.next_keep_at (keep_every cfg.timelapse_factor cfg.output_fps)) [
        | none ↦ none
        | some (kept, next) ↦
            let st2 = record st1 { next_keep_at = next } in
            if kept then some (record_frame cancelled ts f.payload st2) else some (drop_frame st2)
      ]

  unfoldable pub is_inactive : ℕ → State W → Bool
  is_inactive now st =
      not (st.last_frame_at == 0) && ltb (st.last_frame_at + cfg.inactive_close_duration) now

  -- The ticker's case of run.
  unfoldable pub tick : ℕ → State W → State W
  unfolding rotate is_inactive
  tick now st = elim st.seg [ none ↦ st | some _ ↦ if is_inactive now st then rotate st else st ]

  -- The cancelled case of run: the loop ends.
  unfoldable pub stop : State W → State W
  unfolding finish_segment
  stop st =
      let (m, w) = finish_segment st.seg (st.metrics, st.world) in
      record st { metrics = m; world = w }

  -- The cases that the select of run takes, until it is cancelled.
  unfoldable pub run : List Event → State W → Option (State W)
  run [] st = some st
  run (ticked now ∷ rest) st = run rest (tick now st)
  run (queued cancelled now f ∷ rest) st = elim (handle_frame cancelled now f st) [
    | none ↦ none
    | some st' ↦ run rest st'
  ]
