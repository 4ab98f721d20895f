-- ===== src/Recorder/Camera/Segments.antt =====
-- What opening, finishing and writing a segment do to the recorder's counters.
use mathlib.Core.Path.{subst}
use instachron.Base.{
  ℕ, ◌<◌, ◌≡◌, refl, sym, ◌∙◌, arith, Bool, true, false, ◌⊎◌, Option, none, some, List, Bool-cases,
  Option-cases, inl, inr,
}
use instachron.Text.{Text, text_instance}
use instachron.Recorder.Metrics.{
  Metrics, inc_frames_recorded, inc_segment_completed, inc_encoder_error, dec_active_encoders,
}
use instachron.Recorder.Camera.{
  Services, Config, ActiveSegment, State, abort_segment, discard_segment, finish_segment,
  open_segment, rotate, should_rotate, rotate_if_due, ensure_segment, write_frame,
}
use instachron.Recorder.Camera.Change.{
  Change, unchanged, then-Change, inc_encoder_error-Change, inc_segment_completed-Change,
  dec_active_encoders-Change, inc_active_encoders-Change,
}

module _ {W : Type 0} (sv : Services W) (id : Text) (cfg : Config) where
  pub finish_segment-metrics :
      (seg : ActiveSegment) (m : Metrics) (w : W)
      → let m' = (finish_segment sv id cfg (some seg) (m, w)).0 in
        (m' ≡ inc_encoder_error (dec_active_encoders m))
        ⊎ (m' ≡ inc_segment_completed id (dec_active_encoders m))
  unfolding finish_segment abort_segment
  finish_segment-metrics seg m w =
      let (encoded, w1) = sv.close_encoder seg.encoder w in
      let (closed, w2) = sv.close_writer seg.pending w1 in
      let (completed, w3) = sv.complete_segment seg.pending seg.last_recorded w2 in
      elim (Bool-cases encoded) [
        | inr a ↦ inl (ground arith)
        | inl a ↦ elim (Bool-cases closed) [
          | inr b ↦ inl (ground arith)
          | inl b ↦ elim (Bool-cases completed) [
            | inr c ↦ inl (ground arith)
            | inl c ↦ inr (ground arith)
          ]
        ]
      ]

  pub finish_segment-Change :
      (seg : Option ActiveSegment) (m : Metrics) (w : W)
      → Change id 0 m (finish_segment sv id cfg seg (m, w)).0 seg none
  finish_segment-Change none m w = unfold finish_segment in unchanged id m none
  finish_segment-Change (some seg) m w =
      let stopped = dec_active_encoders-Change id m seg in
      elim (finish_segment-metrics seg m w) [
        | inl failed ↦
            rw failed
              (then-Change id stopped (inc_encoder_error-Change id (dec_active_encoders m) none))
        | inr done ↦
            rw done (
              then-Change id stopped (inc_segment_completed-Change id (dec_active_encoders m) none))
      ]

  abbrev pub StateChange : ℕ → State W → State W → Type 0
  StateChange k st st' = Change id k st.metrics st'.metrics st.seg st'.seg

  pub rotate-Change : (st : State W) → StateChange 0 st (rotate sv id cfg st)
  unfolding rotate
  rotate-Change st = finish_segment-Change st.seg st.metrics st.world

  pub rotate_if_due-Change :
      (ts : ℕ) (st : State W) → StateChange 0 st (rotate_if_due sv id cfg ts st)
  unfolding rotate_if_due
  rotate_if_due-Change ts st = elim (Bool-cases (should_rotate sv id cfg st.seg ts st.world)) [
    | inl due ↦ rw (due, rotate_if_due) (rotate-Change st)
    | inr early ↦ rw (early, rotate_if_due) (unchanged id st.metrics st.seg)
  ]

  pub open_segment-Change :
      (cancelled : Bool) (start : ℕ) (m : Metrics) (w : W)
      → let (seg, (m', _)) = open_segment sv id cfg cancelled start (m, w) in
        Change id 0 m m' none seg
  unfolding open_segment
  open_segment-Change cancelled start m w =
      let (begin, w1) = sv.begin_segment cancelled id start w in
      elim (Option-cases begin) [
        | inl without ↦ rw (without, open_segment) (unchanged id m none)
        | inr (pending, done) ↦
            rw (done, open_segment)
              (elim (Option-cases (sv.new_encoder pending w1).0) [
                | inl without ↦ rw (without, open_segment) (unchanged id m none)
                | inr (encoder, done') ↦
                    rw (done', open_segment) (inc_active_encoders-Change id m _)
              ])
      ]

  pub ensure_segment_have :
      (cancelled : Bool) (ts : ℕ) (st : State W) (seg : ActiveSegment)
      → st.seg ≡ some seg
      → ensure_segment sv id cfg cancelled ts st ≡ (true, st)
  unfolding ensure_segment
  ensure_segment_have cancelled ts st seg have = simp (have, ensure_segment)

  pub ensure_segment_failed :
      (cancelled : Bool) (ts : ℕ) (st : State W)
      → st.seg ≡ none
      → let (opened, (m, w)) = open_segment sv id cfg cancelled ts (st.metrics, st.world) in
        opened ≡ none
        → ensure_segment sv id cfg cancelled ts st
          ≡ (false, record st { metrics = inc_encoder_error m; world = w })
  unfolding ensure_segment
  ensure_segment_failed cancelled ts st free e = simp (free, ensure_segment, e)

  pub ensure_segment-opened :
      (cancelled : Bool) (ts : ℕ) (st : State W) (seg : ActiveSegment)
      → st.seg ≡ none
      → let (opened, (m, w)) = open_segment sv id cfg cancelled ts (st.metrics, st.world) in
        opened ≡ some seg
        → ensure_segment sv id cfg cancelled ts st
          ≡ (true, record st { seg = some seg; metrics = m; world = w })
  unfolding ensure_segment
  ensure_segment-opened cancelled ts st seg free e = simp (free, ensure_segment, e)

  -- What ensureSegment leaves, with the answer and the errors.
  pub data Ensured (st : State W) : Bool → State W → Type 0 where
    ready :
        {st' : State W} (seg : ActiveSegment)
        → st'.seg ≡ some seg
        → StateChange 0 st st'
        → Ensured st true st'
    refused :
        {st' : State W}
        → StateChange 0 st st'
        → st.metrics.encoder_errors < st'.metrics.encoder_errors
        → Ensured st false st'

  pub ensure_segment-Change :
      (cancelled : Bool) (ts : ℕ) (st : State W)
      → let (answer, st') = ensure_segment sv id cfg cancelled ts st in Ensured st answer st'
  ensure_segment-Change cancelled ts st =
      let (opened, (m, w)) = open_segment sv id cfg cancelled ts (st.metrics, st.world) in
      elim (Option-cases st.seg) [
        | inr (seg, have) ↦
            rw (ensure_segment_have cancelled ts st seg have)
              (ready seg have (unchanged id st.metrics st.seg))
        | inl free ↦
            let change : Change id 0 st.metrics m st.seg opened =
              rw free (open_segment-Change cancelled ts st.metrics st.world) in
            elim (Option-cases opened) [
              | inl without ↦ rw (ensure_segment_failed cancelled ts st free without) (
                  refused
                    (then-Change id
                      (subst (λ s. Change id 0 st.metrics m st.seg s) (without ∙ sym free) change)
                      (inc_encoder_error-Change id m st.seg))
                    (unfold inc_encoder_error in omega (arith, change.errors)))
              | inr (seg, done) ↦
                  rw (ensure_segment-opened cancelled ts st seg free done)
                    (ready seg refl (subst (λ s. Change id 0 st.metrics m st.seg s) done change))
            ]
      ]

  pub write_frame_failed :
      (ts : ℕ) (payload : List ℕ) (st : State W) (seg : ActiveSegment)
      → st.seg ≡ some seg
      → let (written, w1) = sv.write_jpeg seg.encoder payload st.world in
        written ≡ false
        → let (m, w2) = discard_segment sv id cfg (some seg) (inc_encoder_error st.metrics, w1) in
          write_frame sv id cfg ts payload st ≡ record st { seg = none; metrics = m; world = w2 }
  unfolding write_frame
  write_frame_failed ts payload st seg have bad = simp (have, write_frame, bad)

  pub write_frame_done :
      (ts : ℕ) (payload : List ℕ) (st : State W) (seg : ActiveSegment)
      → st.seg ≡ some seg
      → let (written, w1) = sv.write_jpeg seg.encoder payload st.world in
        written ≡ true
        → write_frame sv id cfg ts payload st
          ≡ rotate_if_due sv id cfg ts (record st {
            seg = some (record seg { last_recorded = ts });
            metrics = inc_frames_recorded id st.metrics;
            world = w1;
          })
  unfolding write_frame
  write_frame_done ts payload st seg have good = simp (have, write_frame, good)
