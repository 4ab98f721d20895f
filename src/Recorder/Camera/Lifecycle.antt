-- ===== src/Recorder/Camera/Lifecycle.antt =====
-- The recording loop keeps to the order of calls, whatever its store and encoders answer.
use instachron.Base.{sym}
use instachron.Recorder.Metrics.{inc_frames_recorded}
use instachron.Base.{
  ℕ, ◌≡◌, refl, ◌∙◌, ap, arith, Bool, true, Option, none, some, List, [], ◌∷◌, ◌==◌, ==_iff,
  Bool-cases, Option-cases, inl, inr,
}
use instachron.Text.{Text}
use instachron.Recorder.Camera.Cases.{
  Handled, not_jpeg, skipped, kept, retimed, handle_frame_total, tick-cases,
}
use instachron.Base.{◌<◌}
use instachron.StreamProto.{Frame}
use instachron.Recorder.Sampling.{keep_every}
use instachron.Recorder.Metrics.{Metrics}
use instachron.Recorder.Camera.{
  Services, Config, ActiveSegment, State, abort_segment, discard_segment, finish_segment,
  open_segment, rotate, should_rotate, rotate_if_due, ensure_segment, write_frame, record_frame,
  drop_frame, tick, stop, run, Event, ticked, queued,
}
use instachron.Recorder.Camera.Protocol.{
  Call, wrote, traced, Phase, idle, recording, follow, phase, phase_of,
}

==_refl : (n : ℕ) → (n == n) ≡ true
==_refl n = (==_iff n n).1 refl

phase_next :
    (c : Call) (log : List Call) (p : Phase) → phase log ≡ some p → phase (c ∷ log) ≡ follow c p
unfolding phase
phase_next c log p e = rw e refl

module _ {W : Type 0} (sv : Services W) (id : Text) (cfg : Config) where
  finish_segment-idle :
      (seg : Option ActiveSegment) (m : Metrics) (w : W) (log : List Call)
      → phase log ≡ some (phase_of seg)
      → phase (finish_segment (traced sv) id cfg seg (m, (w, log))).1.1 ≡ some idle
  unfolding finish_segment abort_segment traced phase follow phase_of
  finish_segment-idle none m w log e = e
  finish_segment-idle (some seg) m w log e =
      ground (arith, ==_refl seg.pending, ==_refl seg.encoder)

  open_segment-phase :
      (cancelled : Bool) (start : ℕ) (m : Metrics) (w : W) (log : List Call)
      → phase log ≡ some idle
      → let (seg, (_, (_, log'))) = open_segment (traced sv) id cfg cancelled start (m, (w, log)) in
        phase log' ≡ some (phase_of seg)
  unfolding open_segment traced phase follow phase_of
  open_segment-phase cancelled start m w log e =
      let (begin, w1) = sv.begin_segment cancelled id start w in
      elim (Option-cases begin) [
        | inl without ↦ rw (without, phase) (ground arith)
        | inr (pending, done) ↦
            rw (done, phase)
              (elim (Option-cases (sv.new_encoder pending w1).0) [
                | inl without ↦ rw (without, phase) (ground (arith, ==_refl pending))
                | inr (encoder, done') ↦ rw (done', phase) (ground (arith, ==_refl pending))
              ])
      ]

  -- The log of a state agrees with the segment that it holds.
  abbrev pub OnTrack : State (W × List Call) → Type 0
  OnTrack st = phase st.world.1 ≡ some (phase_of st.seg)

  rotate-OnTrack :
      (st : State (W × List Call)) → OnTrack st → OnTrack (rotate (traced sv) id cfg st)
  unfolding rotate phase_of
  rotate-OnTrack st e = finish_segment-idle st.seg st.metrics st.world.0 st.world.1 e

  rotate_if_due-OnTrack :
      (ts : ℕ) (st : State (W × List Call))
      → OnTrack st
      → OnTrack (rotate_if_due (traced sv) id cfg ts st)
  unfolding rotate_if_due
  rotate_if_due-OnTrack ts st e =
      elim (Bool-cases (should_rotate (traced sv) id cfg st.seg ts st.world)) [
        | inl due ↦ rw (due, rotate_if_due) (rotate-OnTrack st e)
        | inr early ↦ rw (early, rotate_if_due) e
      ]

  ensure_segment-OnTrack :
      (cancelled : Bool) (ts : ℕ) (st : State (W × List Call))
      → OnTrack st
      → OnTrack (ensure_segment (traced sv) id cfg cancelled ts st).1
  unfolding ensure_segment phase_of traced
  ensure_segment-OnTrack cancelled ts st e = elim (Option-cases st.seg) [
    | inr (seg, have) ↦ rw (have, ensure_segment) e
    | inl free ↦
        let opened = open_segment (traced sv) id cfg cancelled ts (st.metrics, st.world) in
        let next =
          open_segment-phase cancelled ts st.metrics st.world.0 st.world.1
            (e ∙ ap (λ seg. some (phase_of seg)) free) in
        rw (free, ensure_segment)
          (elim (Option-cases opened.0) [
            | inl without ↦
                rw (without, ensure_segment)
                  (next ∙ ap (λ s. some (phase_of s)) (without ∙ sym free))
            | inr (seg, done) ↦ rw (done, ensure_segment) (next ∙ ap some (ap phase_of done))
          ])
  ]

  write_frame-OnTrack :
      (ts : ℕ) (payload : List ℕ) (st : State (W × List Call))
      → OnTrack st
      → OnTrack (write_frame (traced sv) id cfg ts payload st)
  unfolding write_frame discard_segment phase_of traced phase follow
  write_frame-OnTrack ts payload st e = elim (Option-cases st.seg) [
    | inl free ↦ rw (free, write_frame) e
    | inr (seg, have) ↦
        let (written, w1) = sv.write_jpeg seg.encoder payload st.world.0 in
        let e' : phase st.world.1 ≡ some (recording seg.pending seg.encoder) =
          e ∙ ap (λ s. some (phase_of s)) have in
        rw (have, write_frame)
          (elim (Bool-cases written) [
            | inl good ↦ ground (
              arith,
              rotate_if_due-OnTrack ts (record st {
                seg = some (record seg { last_recorded = ts });
                metrics = inc_frames_recorded id st.metrics;
                world = (w1, wrote seg.encoder written ∷ st.world.1);
              }),
            )
            | inr bad ↦ ground (arith, ==_refl seg.encoder, ==_refl seg.pending)
          ])
  ]

  record_frame-OnTrack :
      (cancelled : Bool) (ts : ℕ) (payload : List ℕ) (st : State (W × List Call))
      → OnTrack st
      → OnTrack (record_frame (traced sv) id cfg cancelled ts payload st)
  unfolding record_frame
  record_frame-OnTrack cancelled ts payload st e =
      let (ready, st1) =
        ensure_segment (traced sv) id cfg cancelled ts (rotate_if_due (traced sv) id cfg ts st) in
      let e1 : OnTrack st1 =
        ensure_segment-OnTrack cancelled ts _ (rotate_if_due-OnTrack ts st e) in
      elim (Bool-cases ready) [
        | inl yes_ ↦ rw (yes_, record_frame) (write_frame-OnTrack ts payload st1 e1)
        | inr no_ ↦ rw (no_, record_frame) e1
      ]

  tick-OnTrack :
      (now : ℕ) (st : State (W × List Call)) → OnTrack st → OnTrack (tick (traced sv) id cfg now st)
  tick-OnTrack now st e = elim (tick-cases (traced sv) id cfg now st) [
    | inl same ↦ rw same e
    | inr rotated ↦ rw rotated (rotate-OnTrack st e)
  ]

  Handled-OnTrack :
      {cancelled : Bool} {ts : ℕ} {f : Frame} {st st' : State (W × List Call)}
      → Handled (traced sv) id cfg cancelled ts f st st'
      → OnTrack st
      → OnTrack st'
  unfolding drop_frame
  Handled-OnTrack (not_jpeg _) e = e
  Handled-OnTrack (skipped next _ _) e = e
  Handled-OnTrack {cancelled} {ts} {f} {st} (kept next _ _) e =
      record_frame-OnTrack cancelled ts f.payload (retimed (traced sv) id cfg next ts st) e

  -- For any store and encoders, whatever they answer, and any ticks and frames: with a positive
  -- sampling interval the recording loop handles every event; from a state whose log agrees with
  -- its open segment, every call on the store and the encoders comes in its order and on the
  -- right file and encoder; and when the loop then stops, no file is left open.
  pub run-idle :
      (events : List Event) (st : State (W × List Call))
      → 0 < keep_every cfg.timelapse_factor cfg.output_fps
      → phase st.world.1 ≡ some (phase_of st.seg)
      → (st' : State (W × List Call)) × (run (traced sv) id cfg events st ≡ some st')
        × (phase st'.world.1 ≡ some (phase_of st'.seg))
        × (phase (stop (traced sv) id cfg st').world.1 ≡ some idle)
  unfolding run stop
  run-idle [] st positive e =
      (st, refl, e, finish_segment-idle st.seg st.metrics st.world.0 st.world.1 e)
  run-idle (ticked now ∷ rest) st positive e =
      run-idle rest (tick (traced sv) id cfg now st) positive (tick-OnTrack now st e)
  run-idle (queued cancelled now f ∷ rest) st positive e =
      let (st1, handled, how) = handle_frame_total (traced sv) id cfg cancelled now f st positive in
      let (st', ran, e', done) = run-idle rest st1 positive (Handled-OnTrack how e) in
      (st', rw (handled, run) ran, e', done)
