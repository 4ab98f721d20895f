-- ===== src/Streamer/Feed/Ticks.antt =====
-- What reaches ffmpeg, and which canvas is current.
use instachron.Base.{
  ℕ, ◌≡◌, sym, ◌∙◌, ap, arith, true, false, List, [], ◌∷◌, ◌++◌, length, ◌==◌, nat_instance,
}
use mathlib.Core.List.{append_assoc, append-nil}
use instachron.Wire.Stream.{write, sound_writer}
use instachron.Streamer.Feed.{pump}

abbrev concat : List (List ℕ) → List ℕ
concat [] = []
concat (b ∷ bs) = b ++ concat bs

-- While every write succeeds, ffmpeg gets the payloads one after the other.
pump_sound :
    (ticks : List (List ℕ)) (out : List ℕ)
    → pump ticks (sound_writer out) ≡ (true, sound_writer (out ++ concat ticks))
unfolding pump write
pump_sound [] out = ap (λ b. (true, sound_writer b)) (sym (append-nil out))
pump_sound ([] ∷ ticks) out = pump_sound ticks out
pump_sound ((b ∷ bs) ∷ ticks) out =
    let full : (length (b ∷ bs) == 0) ≡ false = ground arith in
    rw full (
      pump_sound ticks (out ++ (b ∷ bs))
      ∙ ap (λ b. (true, sound_writer b)) (append_assoc out (b ∷ bs) (concat ticks)))
