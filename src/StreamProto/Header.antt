-- ===== src/StreamProto/Header.antt =====
-- The 32 bytes of a streamproto header, field by field.
use instachron.Base.{ℕ, ◌+◌, ◌%◌, ◌^◌, ◌≤◌, ◌<◌, ◌≡◌, refl, ◌∙◌, arith, length, slice, get_or, true}
use instachron.Wire.BigEndian.{put_be, get_be, get_be-put_be}
use instachron.StreamProto.{Frame, header, unix_nano, from_unix_nano, unix_epoch}
use instachron.StreamProto.{default_max_frame_size, has_magic, proto_version}

-- A frame that the format can carry: fields of their widths, a time that int64 nanoseconds reach,
-- and a payload that is neither empty nor too large.
pub record IsSendable (f : Frame) : Type 0 where
  pub time_from : unix_epoch ≤ f.timestamp + 2 ^ 63
  pub time_to : f.timestamp < unix_epoch + 2 ^ 63
  pub sequence_fits : f.sequence < 2 ^ 64
  pub camera_id_fits : f.camera_id < 2 ^ 32
  pub payload_some : 0 < length f.payload
  pub payload_fits : length f.payload ≤ default_max_frame_size

pub unix_nano-lt : (t : ℕ) → unix_nano t < 2 ^ 64
unfolding unix_nano
unix_nano-lt t = omega arith

pub from_unix_nano-unix_nano :
    (t : ℕ) → unix_epoch ≤ t + 2 ^ 63 → t < unix_epoch + 2 ^ 63 → from_unix_nano (unix_nano t) ≡ t
unfolding from_unix_nano unix_nano
from_unix_nano-unix_nano t lo hi = ground arith

pub length-header : (f : Frame) → length (header f) ≡ 32
unfolding header put_be
length-header f = refl

pub header_timestamp : (f : Frame) → get_be (slice 8 8 (header f)) ≡ unix_nano f.timestamp
unfolding header put_be
header_timestamp f = get_be-put_be 8 (unix_nano f.timestamp) (unix_nano-lt f.timestamp)

pub header_camera_id :
    (f : Frame) → f.camera_id < 2 ^ 32 → get_be (slice 16 4 (header f)) ≡ f.camera_id
unfolding header put_be
header_camera_id f h = get_be-put_be 4 f.camera_id h

pub header_sequence :
    (f : Frame) → f.sequence < 2 ^ 64 → get_be (slice 20 8 (header f)) ≡ f.sequence
unfolding header put_be
header_sequence f h = get_be-put_be 8 f.sequence h

pub header_payload_len :
    (f : Frame)
    → length f.payload ≤ default_max_frame_size
    → get_be (slice 28 4 (header f)) ≡ length f.payload
unfolding header put_be
header_payload_len f h = get_be-put_be 4 (length f.payload % 2 ^ 32) (omega arith) ∙ omega arith

pub header_magic : (f : Frame) → has_magic (header f) ≡ true
unfolding header has_magic
header_magic f = refl

pub header_version : (f : Frame) → get_or (header f) 4 0 ≡ proto_version
unfolding header put_be
header_version f = refl
