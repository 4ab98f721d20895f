-- ===== src/Recorder/Camera/Accounting.antt =====
-- What the recorder's counters say of the frames of a camera and of its encoder.
use instachron.Base.{
  ℕ, suc, ◌+◌, ◌≤◌, ◌<◌, ◌≡◌, refl, arith, Bool, ◌⊎◌, none, some, List, [], ◌∷◌, if◌then◌else◌,
  Bool-cases, inl, inr,
}
use instachron.Base.Int.{pos}
use instachron.Text.{Text, text_instance}
use instachron.StreamProto.{Frame}
use instachron.Recorder.Sampling.{keep_every}
use instachron.Recorder.Metrics.{
  Metrics, inc_frames_recorded, inc_encoder_error, dec_active_encoders,
}
use instachron.Recorder.Camera.{
  Services, Config, ActiveSegment, State, Event, ticked, queued, discard_segment, rotate_if_due,
  write_frame, record_frame, drop_frame, tick, run,
}
use instachron.Recorder.Camera.Cases.{
  Handled, not_jpeg, skipped, kept, retimed, handle_frame_total, tick-cases,
}
use instachron.Recorder.Camera.Change.{
  Change, settled, open_count, unchanged, then-Change, same_segment, inc_encoder_error-Change,
  inc_frames_recorded-Change, inc_frames_dropped-Change, dec_active_encoders-Change,
}
use instachron.Recorder.Camera.Segments.{
  Ensured, ready, refused, StateChange, rotate-Change, rotate_if_due-Change, ensure_segment-Change,
  write_frame_failed, write_frame_done,
}

-- The frames that a sequence of events takes from the queue.
unfoldable pub frame_count : List Event → ℕ
frame_count [] = 0
frame_count (ticked _ ∷ rest) = frame_count rest
frame_count (queued _ _ _ ∷ rest) = suc (frame_count rest)

module _ {W : Type 0} (sv : Services W) (id : Text) (cfg : Config) where
  -- A frame is settled once, or costs an encoder error.
  abbrev Accounted : State W → State W → Type 0
  Accounted st st' =
      StateChange sv id cfg 1 st st'
      ⊎ (StateChange sv id cfg 0 st st' × (st.metrics.encoder_errors < st'.metrics.encoder_errors))

  discard_segment-Change :
      (seg : ActiveSegment) (m : Metrics) (w : W)
      → Change id 0 m (discard_segment sv id cfg (some seg) (m, w)).0 (some seg) none
  unfolding discard_segment
  discard_segment-Change seg m w = dec_active_encoders-Change id m seg

  write_frame-Accounted :
      (ts : ℕ) (payload : List ℕ) (st : State W) (seg : ActiveSegment)
      → st.seg ≡ some seg
      → Accounted st (write_frame sv id cfg ts payload st)
  write_frame-Accounted ts payload st seg have =
      let (written, w1) = sv.write_jpeg seg.encoder payload st.world in
      let m1 = inc_encoder_error st.metrics in
      let next = record st {
        seg = some (record seg { last_recorded = ts });
        metrics = inc_frames_recorded id st.metrics;
        world = w1;
      } in
      elim (Bool-cases written) [
        | inr bad ↦
            let change : Change id 0 st.metrics (discard_segment sv id cfg (some seg) (m1, w1)).0
                st.seg none =
              rw have (
                then-Change id (inc_encoder_error-Change id st.metrics (some seg))
                  (discard_segment-Change seg m1 w1)) in
            rw (write_frame_failed sv id cfg ts payload st seg have bad) (
              inr (
                change,
                unfold discard_segment inc_encoder_error dec_active_encoders in omega arith,
              ))
        | inl good ↦
            let recorded : Change id 1 st.metrics next.metrics st.seg next.seg = rw have (
              same_segment id seg (record seg { last_recorded = ts })
                (inc_frames_recorded-Change id st.metrics (some seg))) in
            rw (write_frame_done sv id cfg ts payload st seg have good)
              (inl (then-Change id recorded (rotate_if_due-Change sv id cfg ts next)))
      ]

  after_Accounted :
      (st st1 st2 : State W) → StateChange sv id cfg 0 st st1 → Accounted st1 st2 → Accounted st st2
  after_Accounted st st1 st2 first (inl second) = inl (then-Change id first second)
  after_Accounted st st1 st2 first (inr (second, more)) =
      inr (then-Change id first second, omega (arith, first.errors))

  Ensured-Accounted :
      (ts : ℕ) (payload : List ℕ) {st st1 : State W} {answer : Bool}
      → Ensured sv id cfg st answer st1
      → Accounted st (if answer then write_frame sv id cfg ts payload st1 else st1)
  Ensured-Accounted ts payload {st = st} {st1 = st1} (ready seg have change) =
      after_Accounted st st1 (write_frame sv id cfg ts payload st1) change
        (write_frame-Accounted ts payload st1 seg have)
  Ensured-Accounted ts payload (refused change more) = inr (change, more)

  record_frame-Accounted :
      (cancelled : Bool) (ts : ℕ) (payload : List ℕ) (st : State W)
      → Accounted st (record_frame sv id cfg cancelled ts payload st)
  unfolding record_frame
  record_frame-Accounted cancelled ts payload st =
      let st1 = rotate_if_due sv id cfg ts st in
      after_Accounted st st1 (record_frame sv id cfg cancelled ts payload st)
        (rotate_if_due-Change sv id cfg ts st)
        (Ensured-Accounted ts payload (ensure_segment-Change sv id cfg cancelled ts st1))

  Accounted-bounds :
      (st st' : State W) (others : ℕ)
      → Accounted st st'
      → st.metrics.active_encoders ≡ pos (others + open_count st.seg)
      → (settled id st'.metrics ≤ settled id st.metrics + 1)
        × (settled id st.metrics + 1 + st.metrics.encoder_errors
            ≤ settled id st'.metrics + st'.metrics.encoder_errors)
        × (st'.metrics.active_encoders ≡ pos (others + open_count st'.seg))
  Accounted-bounds st st' others (inl c) e =
      (omega (arith, c.frames), omega (arith, c.frames, c.errors), c.gauge others e)
  Accounted-bounds st st' others (inr (c, more)) e =
      (omega (arith, c.frames), omega (arith, c.frames, c.errors), c.gauge others e)

  Handled-Accounted :
      {cancelled : Bool} {ts : ℕ} {f : Frame} {st st' : State W}
      → Handled sv id cfg cancelled ts f st st'
      → Accounted st st'
  unfolding drop_frame
  Handled-Accounted {st = st} (not_jpeg _) = inl (inc_frames_dropped-Change id st.metrics st.seg)
  Handled-Accounted {st = st} (skipped next _ _) =
      inl (inc_frames_dropped-Change id st.metrics st.seg)
  Handled-Accounted {cancelled} {ts} {f} {st} (kept next _ _) =
      record_frame-Accounted cancelled ts f.payload (retimed sv id cfg next ts st)

  tick-Change : (now : ℕ) (st : State W) → StateChange sv id cfg 0 st (tick sv id cfg now st)
  tick-Change now st = elim (tick-cases sv id cfg now st) [
    | inl same ↦ rw same (unchanged id st.metrics st.seg)
    | inr rotated ↦ rw rotated (rotate-Change sv id cfg st)
  ]

  -- For any store and encoders, any ticks and frames, and a positive sampling interval: every
  -- frame taken from the queue is counted at most once as recorded or dropped, the frames that
  -- are not are covered by encoder errors, and the gauge of active encoders, when it counts the
  -- open segment of this camera and some others at the start, does so at the end.
  pub run-counted :
      (events : List Event) (st : State W) (others : ℕ)
      → 0 < keep_every cfg.timelapse_factor cfg.output_fps
      → st.metrics.active_encoders ≡ pos (others + open_count st.seg)
      → (st' : State W) × (run sv id cfg events st ≡ some st')
        × (settled id st'.metrics ≤ settled id st.metrics + frame_count events)
        × (settled id st.metrics + frame_count events + st.metrics.encoder_errors
            ≤ settled id st'.metrics + st'.metrics.encoder_errors)
        × (st'.metrics.active_encoders ≡ pos (others + open_count st'.seg))
  unfolding run frame_count
  run-counted [] st others positive gauge = (st, refl, omega arith, omega arith, gauge)
  run-counted (ticked now ∷ rest) st others positive gauge =
      let c = tick-Change now st in
      let (st', ran, most, least, gauge') =
        run-counted rest (tick sv id cfg now st) others positive (c.gauge others gauge) in
      (st', ran, omega (arith, c.frames), omega (arith, c.frames, c.errors), gauge')
  run-counted (queued cancelled now f ∷ rest) st others positive gauge =
      let (st1, handled, how) = handle_frame_total sv id cfg cancelled now f st positive in
      let (most1, least1, gauge1) = Accounted-bounds st st1 others (Handled-Accounted how) gauge in
      let (st', ran, most, least, gauge') = run-counted rest st1 others positive gauge1 in
      (st', rw (handled, run) ran, omega arith, omega arith, gauge')
