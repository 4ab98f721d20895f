-- ===== src/StreamProto.antt =====
-- shared/streamproto/streamproto.go: the proxy-to-proxy frame transport. A time.Time is the
-- number of nanoseconds since Go's zero Time, so the zero Time is 0; an int64 is its bit pattern.
pub mod Header
pub mod RoundTrip
pub mod Truncated
pub mod Transport
pub mod Upstream
pub mod Server
pub mod CameraId
use instachron.Base.{ℕ, ◌+◌, ◌-◌, ◌*◌, ◌%◌, ◌^◌, ◌≤◌, ◌<◌, Bool, true, false, not, ◌&&◌}
use instachron.Base.{Result, ok, err, ◌>>=◌, ◌>>◌, fail_if, map_err, Option, none, some}
use instachron.Base.{List, [], ◌∷◌, ◌++◌, length, get_or, slice, take, drop}
use instachron.Base.{if◌then◌else◌, ltb, ◌==◌}
use instachron.Wire.BigEndian.{put_be, get_be}
use instachron.Wire.Stream.{Reader, Writer, IoError, read_full, write}

abbrev pub proto_version : ℕ
proto_version = 1

abbrev pub header_size : ℕ
header_size = 32

abbrev pub default_max_frame_size : ℕ
default_max_frame_size = 10 * 1024 * 1024

-- "MJPG"
abbrev pub magic_bytes : List ℕ
magic_bytes = b'M' ∷ b'J' ∷ b'P' ∷ b'G' ∷ []

pub data Error : Type 0 where
  invalid_magic invalid_version frame_too_large empty_payload write_failed : Error
  io : IoError → Error

pub record Frame : Type 0 where
  pub timestamp : ℕ
  pub sequence : ℕ
  pub camera_id : ℕ
  pub payload : List ℕ

-- From Go's zero Time to 1 January 1970.
abbrev pub unix_epoch : ℕ
unix_epoch = 62_135_596_800 * 1_000_000_000

-- uint64(t.UnixNano()); the sum is kept from going below zero by four turns of the modulus.
unfoldable pub unix_nano : ℕ → ℕ
unix_nano t = (t + 4 * 2 ^ 64 - unix_epoch) % 2 ^ 64

-- time.Unix(0, int64(ns))
pub from_unix_nano : ℕ → ℕ
from_unix_nano ns = if ltb ns (2 ^ 63) then unix_epoch + ns else unix_epoch + ns - 2 ^ 64

-- hdr[5], the flags, stays 0.
pub header : Frame → List ℕ
header f =
    magic_bytes
    ++ ((proto_version ∷ 0 ∷ [])
        ++ (put_be 2 header_size
            ++ (put_be 8 (unix_nano f.timestamp)
                ++ (put_be 4 f.camera_id
                    ++ (put_be 8 f.sequence ++ put_be 4 (length f.payload % 2 ^ 32))))))

-- The two Write calls of WriteFrame: a header that fails to go out stops the frame.
write_parts : List ℕ → List ℕ → Writer → Option Error × Writer
write_parts hdr payload w =
    let (sent, w1) = write hdr w in
    let (done, w2) = write payload w1 in
    if sent then ((if done then none else some write_failed), w2) else (some write_failed, w1)

pub write_frame : Frame → Writer → Option Error × Writer
unfolding write_parts
write_frame f w =
    if length f.payload == 0
    then (some empty_payload, w)
    else if ltb default_max_frame_size (length f.payload)
    then (some frame_too_large, w)
    else write_parts (header f) f.payload w

pub has_magic : List ℕ → Bool
has_magic hdr =
    get_or hdr 0 0 == b'M'
    && get_or hdr 1 0 == b'J'
    && get_or hdr 2 0 == b'P'
    && get_or hdr 3 0 == b'G'

-- Everything after the header is in. The flags and the header length are read past.
pub read_payload : List ℕ → Reader → Result Error (Frame × Reader)
read_payload hdr r1 = do
  fail_if (not (has_magic hdr)) invalid_magic
  fail_if (not (get_or hdr 4 0 == proto_version)) invalid_version
  let payload_len = get_be (slice 28 4 hdr)
  fail_if (payload_len == 0) empty_payload
  fail_if (ltb default_max_frame_size payload_len) frame_too_large
  (payload, r2) ← map_err io (read_full payload_len r1)
  ok (
    record {
      timestamp = from_unix_nano (get_be (slice 8 8 hdr));
      sequence = get_be (slice 20 8 hdr);
      camera_id = get_be (slice 16 4 hdr);
      payload = payload;
    },
    r2,
  )

pub read_frame : Reader → Result Error (Frame × Reader)
unfolding read_payload
read_frame r = do (hdr, r1) ← map_err io (read_full header_size r); read_payload hdr r1
