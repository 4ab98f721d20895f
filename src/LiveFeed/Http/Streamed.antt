-- ===== src/LiveFeed/Http/Streamed.antt =====
-- The frames that a client finds in the stream of a camera.
use instachron.Base.{
  ℕ, zero, suc, ◌^◌, ◌<◌, ◌≡◌, refl, sym, ◌∙◌, ap, arith, true, List, [], ◌∷◌, ◌++◌, length, All,
}
use mathlib.Core.List.{append_assoc, append-nil}
use instachron.Wire.Stream.{eof, sound_writer, write}
use instachron.LiveFeed.Hub.{Jpeg}
use instachron.LiveFeed.Mjpeg.{crlf, part_head, write_frame}
use instachron.LiveFeed.Mjpeg.Parts.{read_parts, part, read_part-part, read_part_end}
use instachron.LiveFeed.Http.{Event, cancelled, channel_closed, got, stream_loop}

-- The frames that come before the end of the stream.
abbrev pub received : List Event → List Jpeg
received [] = []
received (cancelled ∷ events) = []
received (channel_closed ∷ events) = []
received (got f ∷ events) = f ∷ received events

-- A frame whose length fits 64 bits.
abbrev pub Short : Jpeg → Type 0
Short f = length f < 2 ^ 64

parts : List Jpeg → List ℕ
parts [] = []
parts (f ∷ fs) = part f ++ parts fs

write_frame_sound :
    (f : Jpeg) (out : List ℕ)
    → write_frame f (sound_writer out) ≡ (true, sound_writer (out ++ part f))
unfolding write_frame write
write_frame_sound f out =
    ap (λ bytes. (true, sound_writer bytes))
      (append_assoc (out ++ part_head (length f)) f crlf
        ∙ append_assoc out (part_head (length f)) (f ++ crlf))

stream_loop-parts :
    (events : List Event) (out : List ℕ)
    → (stream_loop events (sound_writer out)).written ≡ out ++ parts (received events)
unfolding stream_loop parts
stream_loop-parts [] out = sym (append-nil out)
stream_loop-parts (cancelled ∷ events) out = sym (append-nil out)
stream_loop-parts (channel_closed ∷ events) out = sym (append-nil out)
stream_loop-parts (got f ∷ events) out =
    rw (write_frame_sound f out) (
      stream_loop-parts events (out ++ part f)
      ∙ append_assoc out (part f) (parts (received events)))

read_parts-parts :
    (fuel : ℕ) (frames : List Jpeg)
    → All Short frames
    → length frames < fuel
    → read_parts fuel (record { bytes = parts frames; ending = eof }) ≡ frames
unfolding read_parts parts
read_parts-parts zero frames short h = absurd (omega arith)
read_parts-parts (suc fuel) [] short h = rw (read_parts, read_part_end eof) refl
read_parts-parts (suc fuel) (f ∷ frames) short h =
    rw (read_parts, read_part-part f (parts frames) eof short.0)
      (ap (◌∷◌ f) (read_parts-parts fuel frames short.1 (omega arith)))

-- While every write succeeds, a client that reads the stream of a camera part by part, by the
-- stated lengths, finds exactly the frames that came before the request was cancelled or the
-- channel closed, in order. The frames must be shorter than 2 ^ 64 bytes and the fuel of the
-- client must exceed their number.
pub stream_loop-received :
    (events : List Event) (fuel : ℕ)
    → All Short (received events)
    → length (received events) < fuel
    → read_parts fuel
        (record { bytes = (stream_loop events (sound_writer [])).written; ending = eof })
      ≡ received events
stream_loop-received events fuel short h =
    rw (stream_loop-parts events []) (read_parts-parts fuel (received events) short h)
