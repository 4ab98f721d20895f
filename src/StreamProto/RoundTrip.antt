-- ===== src/StreamProto/RoundTrip.antt =====
-- What a reader makes of what a writer sent.
use instachron.Base.{ℕ, ◌+◌, ◌≤◌, ◌<◌, ◌≡◌, refl, arith, List, [], ◌++◌, length, slice}
use instachron.Base.{length-append, inl, inr, Result-cases, ok, err, none}
use instachron.Wire.BigEndian.{get_be}
use instachron.Wire.Stream.{
  Reader, IoError, read_full, read_full-append, read_full_empty, read_full_takes, write,
  sound_writer,
}
use instachron.Wire.Messages.{Codec}
use instachron.StreamProto.{
  Frame, Error, io, header, read_frame, read_payload, write_frame, default_max_frame_size,
}
use instachron.StreamProto.Header.{
  IsSendable, length-header, header_timestamp, header_camera_id, header_sequence,
  header_payload_len, header_magic, header_version, from_unix_nano-unix_nano,
}
use mathlib.Core.List.{append_assoc}

pub read_frame_ok :
    (r t : Reader) (hdr : List ℕ) → read_full 32 r ≡ ok (hdr, t) → read_frame r ≡ read_payload hdr t
unfolding read_frame
read_frame_ok r t hdr e = rw e

pub read_frame_err : (r : Reader) (x : IoError) → read_full 32 r ≡ err x → read_frame r ≡ err (io x)
unfolding read_frame
read_frame_err r x e = rw e

pub read_frame-header :
    (f : Frame) (rest : List ℕ) (e : IoError)
    → IsSendable f
    → read_frame (record { bytes = header f ++ (f.payload ++ rest); ending = e })
      ≡ ok (f, record { bytes = rest; ending = e })
unfolding read_frame
read_frame-header f rest e v =
    rw (read_full-append 32 (header f) (f.payload ++ rest) e (length-header f)) (
      ground (
        arith,
        header_magic f,
        header_version f,
        header_payload_len f v.payload_fits,
        header_camera_id f v.camera_id_fits,
        header_sequence f v.sequence_fits,
        header_timestamp f,
        from_unix_nano-unix_nano f.timestamp v.time_from v.time_to,
        read_full-append (length f.payload) f.payload rest e refl,
      ))

pub write_frame_sound :
    (f : Frame) (out : List ℕ)
    → IsSendable f
    → write_frame f (sound_writer out) ≡ (none, sound_writer ((out ++ header f) ++ f.payload))
unfolding write_frame write
write_frame_sound f out v = ground arith

read_payload_takes :
    (hdr : List ℕ) (r s : Reader) (f : Frame)
    → read_payload hdr r ≡ ok (f, s)
    → (length r.bytes ≡ length f.payload + length s.bytes)
      × (0 < length f.payload)
      × (length f.payload ≤ default_max_frame_size)
      × (s.ending ≡ r.ending)
unfolding read_payload
read_payload_takes hdr r s f h = elim (Result-cases (read_full (get_be (slice 28 4 hdr)) r)) [
  | inl ((bs, t), e) ↦ ground (arith, read_full_takes _ r t bs e, length-append bs t.bytes)
  | inr (x, e) ↦ ground arith
]

-- A frame that ReadFrame returns took exactly its header and its payload from the connection; the
-- payload is not empty and not over the limit.
pub read_frame_takes :
    (r s : Reader) (f : Frame)
    → read_frame r ≡ ok (f, s)
    → (length r.bytes ≡ 32 + length f.payload + length s.bytes)
      × (0 < length f.payload)
      × (length f.payload ≤ default_max_frame_size)
      × (s.ending ≡ r.ending)
read_frame_takes r s f h = elim (Result-cases (read_full 32 r)) [
  | inl ((hdr, t), e) ↦ ground (
    arith,
    read_full_takes 32 r t hdr e,
    length-append hdr t.bytes,
    read_payload_takes hdr t s f (cc (read_frame_ok r t hdr e)),
  )
  | inr (x, e) ↦ cc (read_frame_err r x e)
]

pub read_frame-encode :
    (f : Frame) (rest : List ℕ) (e : IoError)
    → IsSendable f
    → read_frame (record { bytes = (header f ++ f.payload) ++ rest; ending = e })
      ≡ ok (f, record { bytes = rest; ending = e })
read_frame-encode f rest e v = rw append_assoc (read_frame-header f rest e v)

pub read_frame_shrinks :
    (r s : Reader) (f : Frame) → read_frame r ≡ ok (f, s) → length s.bytes < length r.bytes
read_frame_shrinks r s f h = omega (arith, (read_frame_takes r s f h).0)

pub read_frame_end : (e : IoError) → read_frame (record { bytes = []; ending = e }) ≡ err (io e)
read_frame_end e = read_frame_err _ e (read_full_empty 32 e (omega arith))

unfoldable pub frame_codec : Codec Frame Error
frame_codec = record {
  read = read_frame;
  encode = λ f. header f ++ f.payload;
  Valid = IsSendable;
  io_error = io;
  read-encode = read_frame-encode;
  read_takes = read_frame_shrinks;
  read_end = read_frame_end;
}
