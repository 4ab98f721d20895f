-- ===== src/Tests/Recording.antt =====
-- A recorder of one camera over a store and an encoder that always succeed.
use instachron.Base.{
  ℕ, suc, ◌+◌, ◌-◌, ◌*◌, ◌≤◌, ◌<◌, ◌≡◌, refl, arith, true, false, none, some, List, [], ◌∷◌, length,
  nat_instance,
}
use instachron.Base.Int.{pos}
use instachron.Text.{codes}
use instachron.StreamProto.{Frame}
use instachron.StreamProto.CameraId.{camera_id_string}
use instachron.DropChan.Window.{window}
use instachron.Recorder.Sampling.{keep_every, advance}
use instachron.Recorder.Sampling.Rate.{keep_all, latest_of, keep_all_rate, keep_every-stuck}
use instachron.Recorder.Metrics.{new_metrics, camera_metrics}
use instachron.Recorder.Camera.{Config, Services, State, Event, ticked, queued, run, stop}
use instachron.Recorder.Camera.Protocol.{Call, traced, phase, phase_of, idle}
use instachron.Recorder.Camera.Lifecycle.{run-idle}
use instachron.Recorder.Camera.Change.{settled, open_count}
use instachron.Recorder.Camera.Accounting.{frame_count, run-counted}
use instachron.Recorder.Sessions.{camera, submit_frames}
use instachron.Recorder.Sessions.Counted.{of_camera, submit_frames-window}

-- The world counts the segments.
abbrev reliable : Services ℕ
reliable = record {
  begin_segment = λ cancelled id start n. (some n, n + 1);
  complete_segment = λ s end n. (true, n);
  discard_segment = λ s n. n;
  prune = λ id keep n. n;
  bytes_written = λ s n. 0;
  close_writer = λ s n. (true, n);
  new_encoder = λ s n. (some s, n);
  write_jpeg = λ e jpeg n. (true, n);
  close_encoder = λ e n. (true, n);
  kill = λ e n. n;
}

abbrev config : Config
config = record {
  output_fps = 10;
  timelapse_factor = 10;
  segment_raw_duration = 600 * 1_000_000_000;
  max_file_bytes = 1_000_000;
  keep_files_per_camera = 144;
  queue_size_per_camera = 2;
  inactive_close_duration = 30 * 1_000_000_000;
}

abbrev frame_of : ℕ → ℕ → Frame
frame_of id n = record {
  timestamp = 1_000_000_000 * (n + 1);
  sequence = n;
  camera_id = id;
  payload = 0xff ∷ 0xd8 ∷ 0xff ∷ 0xd9 ∷ [];
}

abbrev some_events : List Event
some_events =
    queued false 0 (frame_of 7 0)
    ∷ queued false 0 (frame_of 7 700)
    ∷ ticked (2_000 * 1_000_000_000)
    ∷ []

config-positive : 0 < keep_every config.timelapse_factor config.output_fps
unfolding keep_every
config-positive = omega arith

abbrev fresh : {W : Type 0} → W → State W
fresh w = record {
  seg = none;
  next_keep_at = 0;
  last_frame_at = 0;
  metrics = new_metrics;
  world = w;
}

abbrev fresh_traced : State (ℕ × List Call)
fresh_traced = fresh (0, [])

fresh_traced-idle : phase fresh_traced.world.1 ≡ some (phase_of fresh_traced.seg)
unfolding phase phase_of
fresh_traced-idle = refl

run-idle_example :
    (st : State (ℕ × List Call)) × (run
        (traced reliable)
        (codes "7")
        config
        some_events
        fresh_traced
      ≡ some st)
    × (phase st.world.1 ≡ some (phase_of st.seg))
    × (phase (stop (traced reliable) (codes "7") config st).world.1 ≡ some idle)
run-idle_example =
    run-idle reliable (codes "7") config some_events fresh_traced config-positive fresh_traced-idle

abbrev fresh_counted : State ℕ
fresh_counted = fresh 0

fresh_counted-gauge : fresh_counted.metrics.active_encoders ≡ pos (0 + open_count fresh_counted.seg)
unfolding new_metrics open_count
fresh_counted-gauge = refl

run-counted_example :
    (st : State ℕ) × (run reliable (codes "7") config some_events fresh_counted ≡ some st)
    × (settled (codes "7") st.metrics
        ≤ settled (codes "7") fresh_counted.metrics + frame_count some_events)
    × (settled (codes "7") fresh_counted.metrics
          + frame_count some_events
          + fresh_counted.metrics.encoder_errors
        ≤ settled (codes "7") st.metrics + st.metrics.encoder_errors)
    × (st.metrics.active_encoders ≡ pos (0 + open_count st.seg))
run-counted_example =
    run-counted reliable (codes "7") config some_events fresh_counted 0 config-positive
      fresh_counted-gauge

abbrev later_times : List ℕ
later_times = 1_500 ∷ 2_100 ∷ 2_050 ∷ []

keep_all_rate_example :
    (count : ℕ) × (last : ℕ) × (keep_all 1_000 (1_000 ∷ later_times) 0 ≡ some (suc count, last))
    × (1_000 + count * 1_000 ≤ latest_of 1_000 later_times)
keep_all_rate_example = keep_all_rate 1_000 1_000 later_times (omega arith)

keep_every-stuck_example : advance 50 9 4 (keep_every 1 2_000_000_000) ≡ none
keep_every-stuck_example = keep_every-stuck 1 2_000_000_000 50 9 4 (omega arith) (omega arith)

abbrev mixed : List Frame
mixed = frame_of 7 0 ∷ frame_of 8 0 ∷ frame_of 7 1 ∷ frame_of 7 2 ∷ []

submit_frames-window_example :
    let (cameras, m) = submit_frames config mixed ([], new_metrics) in
    let mine = of_camera 7 mixed in
    let c = camera_metrics (camera_id_string 7) m in
    (camera 7 cameras ≡ window 2 mine)
    × (c.frames_received ≡ length mine)
    × (c.frames_dropped ≡ length mine - 2)
submit_frames-window_example =
    submit_frames-window config 7 mixed (omega arith) (omega arith)
      (omega arith, (omega arith, (omega arith, (omega arith, tt))))
