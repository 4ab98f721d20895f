-- ===== src/Recorder/Camera/Protocol.antt =====
-- The order of calls that the store and the encoder of camera-recorder expect of the recording
-- loop (internal/storage/storage.go, internal/recorder/encoder.go), as an automaton that reads a log.
use instachron.Base.{ℕ, Bool, true, false, Option, none, some, List, [], ◌∷◌, ◌==◌, if◌then◌else◌}
use instachron.Recorder.Camera.{Services, ActiveSegment}

-- The calls that matter here, with how they ended.
pub data Call : Type 0 where
  begun : Option ℕ → Call
  started : ℕ → Option ℕ → Call
  wrote encoder_closed writer_closed completed : ℕ → Bool → Call
  pruned : Call
  discarded killed : ℕ → Call

-- The world with the log of the calls so far, the newest first.
unfoldable pub traced : {W : Type 0} → Services W → Services (W × List Call)
traced sv = record {
  begin_segment = λ cancelled id start (w, log).
      let (s, w1) = sv.begin_segment cancelled id start w in (s, (w1, begun s ∷ log));
  complete_segment = λ s end (w, log).
      let (done, w1) = sv.complete_segment s end w in (done, (w1, completed s done ∷ log));
  discard_segment = λ s (w, log). (sv.discard_segment s w, discarded s ∷ log);
  prune = λ id keep (w, log). (sv.prune id keep w, pruned ∷ log);
  bytes_written = λ s (w, log). sv.bytes_written s w;
  close_writer = λ s (w, log).
      let (done, w1) = sv.close_writer s w in (done, (w1, writer_closed s done ∷ log));
  new_encoder = λ s (w, log). let (e, w1) = sv.new_encoder s w in (e, (w1, started s e ∷ log));
  write_jpeg = λ e jpeg (w, log).
      let (done, w1) = sv.write_jpeg e jpeg w in (done, (w1, wrote e done ∷ log));
  close_encoder = λ e (w, log).
      let (done, w1) = sv.close_encoder e w in (done, (w1, encoder_closed e done ∷ log));
  kill = λ e (w, log). (sv.kill e w, killed e ∷ log);
}

-- Where a camera stands: with no file, with a file and no encoder, recording, after a failed write,
-- with the encoder finished, with the file closed, with the file published, or with a broken file.
pub data Phase : Type 0 where
  idle published : Phase
  opened encoded sealed broken : ℕ → Phase
  recording failed : ℕ → ℕ → Phase

when : Bool → Phase → Option Phase
when ok p = if ok then some p else none

-- The phase after one more call; none for a call out of order or on another file or encoder.
unfoldable pub follow : Call → Phase → Option Phase
unfolding when
follow (begun none) idle = some idle
follow (begun (some s)) idle = some (opened s)
follow (started s none) (opened t) = when (s == t) (broken t)
follow (started s (some e)) (opened t) = when (s == t) (recording t e)
follow (wrote e true) (recording t d) = when (e == d) (recording t d)
follow (wrote e false) (recording t d) = when (e == d) (failed t d)
follow (killed e) (failed t d) = when (e == d) (broken t)
follow (encoder_closed e true) (recording t d) = when (e == d) (encoded t)
follow (encoder_closed e false) (recording t d) = when (e == d) (broken t)
follow (writer_closed s true) (encoded t) = when (s == t) (sealed t)
follow (writer_closed s false) (encoded t) = when (s == t) (broken t)
follow (completed s true) (sealed t) = when (s == t) published
follow (completed s false) (sealed t) = when (s == t) (broken t)
follow pruned published = some idle
follow (discarded s) (broken t) = when (s == t) idle
follow _ _ = none

unfoldable pub phase : List Call → Option Phase
phase [] = some idle
phase (c ∷ log) = elim (phase log) [ none ↦ none | some p ↦ follow c p ]

unfoldable pub phase_of : Option ActiveSegment → Phase
phase_of none = idle
phase_of (some seg) = recording seg.pending seg.encoder
