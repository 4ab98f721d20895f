-- ===== src/FrameIpc/Client.antt =====
-- shared/frameipc/client.go: the reconnecting client, and the writer loop of publisher.go
-- (serveConsumer) that it is connected to. A handler's callbacks share a state `S`.
use instachron.Base.{ℕ, suc, ◌<◌, ◌≡◌, refl, ◌∙◌, ap, arith, Option, none, some}
use instachron.Base.{List, [], ◌∷◌, ◌++◌, length, All, ◌==◌, if◌then◌else◌}
use instachron.Wire.Stream.{Reader, Writer, IoError, sound_writer}
use instachron.Wire.Messages.{consume, encode_all, handle_all, consume-encode_all, consume_total}
use instachron.FrameIpc.{
  Frame, Error, io, kind_frame, kind_offline, read_message, write_message, header,
}
use instachron.FrameIpc.RoundTrip.{IsSendable, encoding, message_codec, write_message_sound}
use mathlib.Core.List.{append_assoc, append-nil}

-- Every callback is optional.
pub record Handler (S : Type 0) : Type 0 where
  pub on_frame : Option (ℕ → List ℕ → S → S)
  pub on_offline : Option (ℕ → S → S)
  pub on_disconnect : Option (S → S)

-- serveConsumer, with the messages that its channel delivers.
unfoldable pub serve_consumer : List Frame → Writer → Writer
serve_consumer [] w = w
serve_consumer (m ∷ rest) w =
    let (result, w') = write_message m w in
    elim result [ none ↦ serve_consumer rest w' | some _ ↦ w' ]

serve_consumer_step :
    (m : Frame) (rest : List Frame) (w w' : Writer)
    → write_message m w ≡ (none, w')
    → serve_consumer (m ∷ rest) w ≡ serve_consumer rest w'
unfolding serve_consumer
serve_consumer_step m rest w w' e = ground arith

regroup : {A : Type 0} (a b c d : List A) → ((a ++ b) ++ c) ++ d ≡ a ++ ((b ++ c) ++ d)
regroup a b c d = simp append_assoc

serve_consumer_sound :
    (ms : List Frame) (out : List ℕ)
    → serve_consumer ms (sound_writer out) ≡ sound_writer (out ++ encode_all encoding ms)
serve_consumer_sound [] out = rw append-nil (unfold serve_consumer in refl)
serve_consumer_sound (m ∷ ms) out =
    serve_consumer_step m ms (sound_writer out) _ (write_message_sound m out)
    ∙ serve_consumer_sound ms ((out ++ header m) ++ m.payload)
    ∙ ap sound_writer (regroup out (header m) m.payload (encode_all encoding ms))

module _ {S : Type 0} (h : Handler S) where
  call_frame : Option (ℕ → List ℕ → S → S) → ℕ → List ℕ → S → S
  call_frame none id jpeg s = s
  call_frame (some f) id jpeg s = f id jpeg s

  call_offline : Option (ℕ → S → S) → ℕ → S → S
  call_offline none id s = s
  call_offline (some f) id s = f id s

  call_disconnect : Option (S → S) → S → S
  call_disconnect none s = s
  call_disconnect (some f) s = f s

  -- A message of an unknown kind is skipped.
  unfoldable pub dispatch : Frame → S → S
  unfolding call_frame call_offline
  dispatch m s =
      if m.kind == kind_frame
      then call_frame h.on_frame m.camera_id m.payload s
      else if m.kind == kind_offline
      then call_offline h.on_offline m.camera_id s
      else s

  unfoldable pub connect : ℕ → Reader → S → Option (S × Error)
  connect = consume read_message dispatch

  -- One turn of Run: a dial that fails, `none`, or a connection until it breaks. Its fuel is the
  -- number of bytes, which is enough.
  attempt : Option Reader → S → S
  attempt none s = s
  attempt (some r) s = elim (connect (suc (length r.bytes)) r s) [ none ↦ s | some (t, e) ↦ t ]

  -- Run, over the connections that it makes until the context ends.
  unfoldable pub run : List (Option Reader) → S → S
  unfolding attempt call_disconnect
  run [] s = s
  run (conn ∷ rest) s = run rest (call_disconnect h.on_disconnect (attempt conn s))

  -- The messages that the publisher's writer loop puts on a socket reach the handler of a client
  -- exactly once each and in order; then the client has the error of the connection. The messages
  -- must fit their fields and the fuel must exceed their number.
  pub connect-serve_consumer :
      (ms : List Frame) (fuel : ℕ) (e : IoError) (s : S)
      → All IsSendable ms
      → length ms < fuel
      → connect fuel
          (record { bytes = (serve_consumer ms (sound_writer [])).written; ending = e })
          s
        ≡ some (handle_all dispatch ms s, io e)
  unfolding connect message_codec
  connect-serve_consumer ms fuel e s v lt =
      rw (serve_consumer_sound ms []) (consume-encode_all message_codec dispatch ms fuel e s v lt)

  -- The fuel of `attempt` is enough on every input.
  pub connect_total :
      (r : Reader) (s : S)
      → (t : S) × (e : Error) × (connect (suc (length r.bytes)) r s ≡ some (t, e))
  unfolding connect message_codec
  connect_total r s = consume_total message_codec dispatch (suc (length r.bytes)) r s (omega arith)
