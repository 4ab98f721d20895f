-- ===== src/Detector/Frames/Periodic.antt =====
-- The detections that a frame is drawn with, while the session is free and every frame can be read.
use instachron.Base.{
  ℕ, zero, suc, ◌-◌, ◌*◌, ◌/◌, ◌≡◌, Option, some, List, [], nat_instance, ltb, if◌then◌else◌,
}
use instachron.Detector.{Float, Detection}
use instachron.Detector.Output.{◌>>=◌}
use instachron.Detector.Frames.{Library, Settings, Frame, State, process, detect_every_n}

module _ (R : Float) (lib : Library R) (cfg : Settings R) where
  unfoldable pub new_state : ℕ → State R
  new_state now = record {
    frame_count = 0;
    frame_in = 0;
    frame_det = 0;
    last_dets = [];
    last_log = now;
  }

  -- The state behind the first n frames.
  unfoldable pub after : (ℕ → Frame R) → State R → ℕ → Option (State R)
  unfolding process
  after frames s zero = some s
  after frames s (suc n) =
      after frames s n >>= λ s'. process R lib cfg s' (frames n) >>= λ r. some r.0

  module _ (frames : ℕ → Frame R) (result : ℕ → List (Detection R)) where
    -- What is known behind n frames: the result of the last one whose number is a multiple of 15.
    abbrev pub shown : ℕ → List (Detection R)
    shown n = if ltb n detect_every_n then [] else result (n / detect_every_n * detect_every_n - 1)

    abbrev Known : ℕ → State R → Type 0
    Known n s = (s.frame_count ≡ n) × (s.last_dets ≡ shown n)
