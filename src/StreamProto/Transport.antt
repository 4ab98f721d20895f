-- ===== src/StreamProto/Transport.antt =====
-- shared/streamproto/tcpserver.go, serve, and tcpupstream.go, connect: one TCP connection of the
-- restream transport, the frames that one end sends and the frames that the other end delivers.
use instachron.Base.{ℕ, suc, ◌<◌, ◌≡◌, refl, ap, ◌∙◌, arith, Bool, true, false}
use instachron.Base.{List, [], ◌∷◌, ◌++◌, length, All, Option, none, some}
use instachron.Wire.Stream.{Reader, Writer, IoError, sound_writer}
use instachron.Wire.Messages.{drain, encode_all, drain_total, drain-encode_all}
use instachron.StreamProto.{Frame, Error, io, header, read_frame, write_frame}
use instachron.StreamProto.Header.{IsSendable}
use instachron.StreamProto.RoundTrip.{frame_codec, write_frame_sound}
use mathlib.Core.List.{append_assoc, append-nil}

-- The frames that the subscription delivers until it is closed, the context ends or a write
-- fails. `true` in front of a frame says that SetWriteDeadline succeeded.
pub serve : List (Bool × Frame) → Writer → Writer
serve [] w = w
serve ((false, f) ∷ rest) w = w
serve ((true, f) ∷ rest) w =
    let (result, w') = write_frame f w in elim result [ none ↦ serve rest w' | some _ ↦ w' ]

-- The frames handed to onFrame, and the error that ended the read loop; `none` is out of fuel.
unfoldable pub connect : ℕ → Reader → Option (List Frame × Error)
connect = drain read_frame

abbrev pub in_time : List Frame → List (Bool × Frame)
in_time [] = []
in_time (f ∷ fs) = (true, f) ∷ in_time fs

serve_step :
    (f : Frame) (rest : List (Bool × Frame)) (w w' : Writer)
    → write_frame f w ≡ (none, w')
    → serve ((true, f) ∷ rest) w ≡ serve rest w'
unfolding serve
serve_step f rest w w' e = ground arith

abbrev encoding : Frame → List ℕ
encoding f = header f ++ f.payload

regroup : {A : Type 0} (a b c d : List A) → ((a ++ b) ++ c) ++ d ≡ a ++ ((b ++ c) ++ d)
regroup a b c d = simp append_assoc

serve-in_time :
    (fs : List Frame) (out : List ℕ)
    → All IsSendable fs
    → serve (in_time fs) (sound_writer out) ≡ sound_writer (out ++ encode_all encoding fs)
serve-in_time [] out v = rw append-nil (unfold serve in refl)
serve-in_time (f ∷ fs) out v =
    serve_step f (in_time fs) (sound_writer out) _ (write_frame_sound f out v.0)
    ∙ serve-in_time fs ((out ++ header f) ++ f.payload) v.1
    ∙ ap sound_writer (regroup out (header f) f.payload (encode_all encoding fs))

-- Frames that can be sent, when every write is in time and succeeds, are delivered by a client to
-- its callback exactly as they were served: all of them, in order, and then the error with which
-- the connection ends. The fuel must exceed the number of frames.
pub connect-serve :
    (fs : List Frame) (fuel : ℕ) (e : IoError)
    → All IsSendable fs
    → length fs < fuel
    → connect fuel (record { bytes = (serve (in_time fs) (sound_writer [])).written; ending = e })
      ≡ some (fs, io e)
unfolding connect frame_codec
connect-serve fs fuel e v h =
    rw (serve-in_time fs [] v) (drain-encode_all frame_codec fs fuel e v h)

-- The client of the frame transport returns with an error on every input, in no more rounds than
-- there are bytes and one more.
pub connect_total :
    (r : Reader)
    → (found : List Frame) × (e : Error) × (connect (suc (length r.bytes)) r ≡ some (found, e))
unfolding connect frame_codec
connect_total r = drain_total frame_codec (suc (length r.bytes)) r (omega arith)
