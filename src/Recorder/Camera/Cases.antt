-- ===== src/Recorder/Camera/Cases.antt =====
-- What handleFrame and the ticker do, case by case.
use instachron.Base.{
  ℕ, ◌<◌, ◌≡◌, refl, Bool, true, false, ◌⊎◌, some, Bool-cases, Option-cases, inl, inr,
}
use instachron.Text.{Text}
use instachron.StreamProto.{Frame}
use instachron.Backend.Protocol.{looks_like_jpeg}
use instachron.Recorder.Sampling.{should_keep, keep_every}
use instachron.Recorder.Sampling.Rate.{should_keep_total, Decision}
use instachron.Recorder.Camera.{
  Services, Config, State, record_frame, drop_frame, handle_frame, rotate, tick, is_inactive,
  frame_time,
}

module _ {W : Type 0} (sv : Services W) (id : Text) (cfg : Config) where
  -- A state that differs from `st` in its times alone.
  abbrev pub retimed : ℕ → ℕ → State W → State W
  retimed next last st = record st { next_keep_at = next; last_frame_at = last }

  pub data Handled (cancelled : Bool) (ts : ℕ) (f : Frame) (st : State W) : State W → Type 0 where
    not_jpeg :
        looks_like_jpeg f.payload ≡ false
        → Handled cancelled ts f st (drop_frame sv id cfg (retimed st.next_keep_at ts st))
    skipped :
        (next : ℕ)
        → looks_like_jpeg f.payload ≡ true
        → Decision ts st.next_keep_at (keep_every cfg.timelapse_factor cfg.output_fps) false next
        → Handled cancelled ts f st (drop_frame sv id cfg (retimed next ts st))
    kept :
        (next : ℕ)
        → looks_like_jpeg f.payload ≡ true
        → Decision ts st.next_keep_at (keep_every cfg.timelapse_factor cfg.output_fps) true next
        → Handled cancelled ts f st
            (record_frame sv id cfg cancelled ts f.payload (retimed next ts st))

  handle_frame_decided :
      (cancelled : Bool) (now next : ℕ) (f : Frame) (st : State W) (keep : Bool)
      → let ts = frame_time sv id cfg now f in
        let interval = keep_every cfg.timelapse_factor cfg.output_fps in
        looks_like_jpeg f.payload ≡ true
        → should_keep ts st.next_keep_at interval ≡ some (keep, next)
        → Decision ts st.next_keep_at interval keep next
        → (st' : State W) × (handle_frame sv id cfg cancelled now f st ≡ some st')
          × Handled cancelled ts f st st'
  unfolding handle_frame frame_time
  handle_frame_decided cancelled now next f st true jpeg e decision =
      let ts = frame_time sv id cfg now f in
      (
        record_frame sv id cfg cancelled ts f.payload (retimed next ts st),
        rw (jpeg, e, handle_frame) refl,
        kept next jpeg decision,
      )
  handle_frame_decided cancelled now next f st false jpeg e decision =
      let ts = frame_time sv id cfg now f in
      (
        drop_frame sv id cfg (retimed next ts st),
        rw (jpeg, e, handle_frame) refl,
        skipped next jpeg decision,
      )

  pub handle_frame_total :
      (cancelled : Bool) (now : ℕ) (f : Frame) (st : State W)
      → 0 < keep_every cfg.timelapse_factor cfg.output_fps
      → (st' : State W) × (handle_frame sv id cfg cancelled now f st ≡ some st')
        × Handled cancelled (frame_time sv id cfg now f) f st st'
  unfolding handle_frame frame_time
  handle_frame_total cancelled now f st positive =
      let ts = frame_time sv id cfg now f in
      let (keep, next, e, decision) = should_keep_total ts st.next_keep_at _ positive in
      elim (Bool-cases (looks_like_jpeg f.payload)) [
        | inl jpeg ↦ handle_frame_decided cancelled now next f st keep jpeg e decision
        | inr broken ↦ (
          drop_frame sv id cfg (retimed st.next_keep_at ts st),
          rw (broken, handle_frame) refl,
          not_jpeg broken,
        )
      ]

  pub tick-cases :
      (now : ℕ) (st : State W)
      → (tick sv id cfg now st ≡ st) ⊎ (tick sv id cfg now st ≡ rotate sv id cfg st)
  unfolding tick
  tick-cases now st = elim (Option-cases st.seg) [
    | inl free ↦ inl (simp (free, tick))
    | inr (seg, have) ↦ elim (Bool-cases (is_inactive sv id cfg now st)) [
      | inl quiet ↦ inr (simp (have, quiet, tick))
      | inr live ↦ inl (simp (have, live, tick))
    ]
  ]
