-- ===== src/FrameIpc/RoundTrip.antt =====
-- Read undoes Write.
use instachron.Wire.Stream.{Writer}
use instachron.Base.{Option}
use instachron.FrameIpc.{read_payload_failed}
use instachron.Base.{
  ℕ, ◌+◌, ◌%◌, ◌^◌, ◌<◌, ◌≡◌, refl, ◌∙◌, arith, inl, inr, ltb, if◌then◌else◌, map_err,
}
use instachron.Base.{
  List, [], ◌∷◌, ◌++◌, length, length-append, get_or, slice, Result-cases, ok, err, none,
}
use instachron.Wire.BigEndian.{put_be, get_be, get_be-put_be}
use instachron.Wire.Stream.{
  Reader, Writer, IoError, read_full, read_full-append, read_full_empty, read_full_takes, write,
  sound_writer,
}
use instachron.Wire.Messages.{Codec}
use instachron.FrameIpc.{
  Frame, Error, io, header, write_message, read_payload, read_message, magic1, magic2,
}
use mathlib.Core.List.{append_assoc, append-nil}

pub record IsSendable (m : Frame) : Type 0 where
  pub kind_fits : m.kind < 256
  pub camera_id_fits : m.camera_id < 2 ^ 32
  pub payload_fits : length m.payload < 2 ^ 32

abbrev pub encoding : Frame → List ℕ
encoding m = header m ++ m.payload

length-header : (m : Frame) → length (header m) ≡ 11
unfolding header put_be
length-header m = refl

header_camera_id : (m : Frame) → m.camera_id < 2 ^ 32 → get_be (slice 3 4 (header m)) ≡ m.camera_id
unfolding header put_be
header_camera_id m h = get_be-put_be 4 m.camera_id h

header_size_field :
    (m : Frame) → length m.payload < 2 ^ 32 → get_be (slice 7 4 (header m)) ≡ length m.payload
unfolding header put_be
header_size_field m h = get_be-put_be 4 (length m.payload % 2 ^ 32) (omega arith) ∙ omega arith

header_start :
    (m : Frame)
    → m.kind < 256
    → (get_or (header m) 0 0 ≡ magic1)
      × (get_or (header m) 1 0 ≡ magic2)
      × (get_or (header m) 2 0 ≡ m.kind)
unfolding header put_be
header_start m h = (refl, refl, omega arith)

-- The payload is read only where the header announces one.
read_body :
    (p rest : List ℕ) (e : IoError)
    → (if ltb 0 (length p)
        then map_err read_payload_failed
            (read_full (length p) (record { bytes = p ++ rest; ending = e }))
        else ok ([], record { bytes = p ++ rest; ending = e }))
      ≡ ok (p, record { bytes = rest; ending = e })
read_body [] rest e = refl
read_body (x ∷ p) rest e = ground (arith, read_full-append (length (x ∷ p)) (x ∷ p) rest e refl)

read_payload-header :
    (m : Frame) (rest : List ℕ) (e : IoError)
    → IsSendable m
    → read_payload (header m) (record { bytes = m.payload ++ rest; ending = e })
      ≡ ok (m, record { bytes = rest; ending = e })
unfolding read_payload
read_payload-header m rest e v =
    let (first, second, third) = header_start m v.kind_fits in
    rw
      (
        first,
        second,
        third,
        header_size_field m v.payload_fits,
        header_camera_id m v.camera_id_fits,
      )
      (rw (read_body m.payload rest e))

pub read_message-encoding :
    (m : Frame) (rest : List ℕ) (e : IoError)
    → IsSendable m
    → read_message (record { bytes = encoding m ++ rest; ending = e })
      ≡ ok (m, record { bytes = rest; ending = e })
unfolding read_message
read_message-encoding m rest e v =
    rw (append_assoc, read_full-append 11 (header m) (m.payload ++ rest) e (length-header m))
      (read_payload-header m rest e v)

write_body :
    (p out : List ℕ)
    → (if ltb 0 (length p) then (none, sound_writer (out ++ p)) else (none, sound_writer out))
      ≡ (let r : Option Error × Writer = (none, sound_writer (out ++ p)) in r)
write_body [] out = rw append-nil
write_body (x ∷ p) out = ground arith

pub write_message_sound :
    (m : Frame) (out : List ℕ)
    → write_message m (sound_writer out) ≡ (none, sound_writer ((out ++ header m) ++ m.payload))
unfolding write_message write
write_message_sound m out = write_body m.payload (out ++ header m)

read_payload_takes :
    (hdr : List ℕ) (r s : Reader) (m : Frame)
    → read_payload hdr r ≡ ok (m, s)
    → length r.bytes ≡ length m.payload + length s.bytes
unfolding read_payload
read_payload_takes hdr r s m h = elim (Result-cases (read_full (get_be (slice 7 4 hdr)) r)) [
  | inl ((bs, t), e) ↦ ground (arith, read_full_takes _ r t bs e, length-append bs t.bytes)
  | inr (x, e) ↦ ground arith
]

read_message_ok :
    (r t : Reader) (hdr : List ℕ)
    → read_full 11 r ≡ ok (hdr, t)
    → read_message r ≡ read_payload hdr t
unfolding read_message
read_message_ok r t hdr e = rw e

read_message_err : (r : Reader) (x : IoError) → read_full 11 r ≡ err x → read_message r ≡ err (io x)
unfolding read_message
read_message_err r x e = rw e

-- A message that Read returns took exactly its header and its payload from the connection.
pub read_message_takes :
    (r s : Reader) (m : Frame)
    → read_message r ≡ ok (m, s)
    → length r.bytes ≡ 11 + length m.payload + length s.bytes
read_message_takes r s m h = elim (Result-cases (read_full 11 r)) [
  | inl ((hdr, t), e) ↦ ground (
    arith,
    read_full_takes 11 r t hdr e,
    length-append hdr t.bytes,
    read_payload_takes hdr t s m (cc (read_message_ok r t hdr e)),
  )
  | inr (x, e) ↦ cc (read_message_err r x e)
]

pub read_message_shrinks :
    (r s : Reader) (m : Frame) → read_message r ≡ ok (m, s) → length s.bytes < length r.bytes
read_message_shrinks r s m h = omega (arith, read_message_takes r s m h)

pub read_message_end : (e : IoError) → read_message (record { bytes = []; ending = e }) ≡ err (io e)
read_message_end e = read_message_err _ e (read_full_empty 11 e (omega arith))

unfoldable pub message_codec : Codec Frame Error
message_codec = record {
  read = read_message;
  encode = encoding;
  Valid = IsSendable;
  io_error = io;
  read-encode = read_message-encoding;
  read_takes = read_message_shrinks;
  read_end = read_message_end;
}
