-- ===== src/Backend/Protocol.antt =====
-- internal/protocol/protocol.go, internal/server/server.go (readFrame) and
-- shared/imageutil/jpeg.go (LooksLikeJPEG): the two frame headers that a camera may send.
use instachron.Base.{ℕ, ◌-◌, Bool, false, not, ◌&&◌, ◌||◌, ltb, ◌==◌, if◌then◌else◌}
use instachron.Base.{Result, ok, err, ◌>>=◌, ◌>>◌, fail_if, map_err}
use instachron.Base.{List, length, get_or, slice}
use instachron.Wire.BigEndian.{get_be}
use instachron.Wire.Stream.{Reader, IoError, read_full}

-- "JPGS" and "JPGD"
abbrev pub magic_legacy : ℕ
magic_legacy = 0x4a504753

abbrev pub magic_with_device : ℕ
magic_with_device = 0x4a504744

abbrev pub header_size : ℕ
header_size = 16

abbrev pub camera_id_size : ℕ
camera_id_size = 4

abbrev pub default_camera_id : ℕ
default_camera_id = 0

pub record Header : Type 0 where
  pub camera_id : ℕ
  pub sequence : ℕ
  pub payload_size : ℕ
  pub timestamp_ms : ℕ

pub data Error : Type 0 where
  bad_header_size bad_camera_id_size bad_magic : ℕ → Error
  read_header_failed read_camera_id_failed read_payload_failed : IoError → Error
  invalid_payload_size : Header → Error

abbrev fixed_fields : ℕ → List ℕ → Header
fixed_fields id header = record {
  camera_id = id;
  sequence = get_be (slice 4 4 header);
  payload_size = get_be (slice 8 4 header);
  timestamp_ms = get_be (slice 12 4 header);
}

unfoldable pub parse_legacy_header : List ℕ → Result Error Header
parse_legacy_header header = do
  fail_if (not (length header == header_size)) (bad_header_size (length header))
  let magic = get_be (slice 0 4 header)
  fail_if (not (magic == magic_legacy)) (bad_magic magic)
  ok (fixed_fields default_camera_id header)

unfoldable pub parse_device_header : List ℕ → List ℕ → Result Error Header
parse_device_header header camera_id_bytes = do
  fail_if (not (length header == header_size)) (bad_header_size (length header))
  fail_if (not (length camera_id_bytes == camera_id_size))
      (bad_camera_id_size (length camera_id_bytes))
  let magic = get_be (slice 0 4 header)
  fail_if (not (magic == magic_with_device)) (bad_magic magic)
  ok (fixed_fields (get_be camera_id_bytes) header)

-- ReadHeader, once the 16 fixed bytes are in.
unfoldable pub read_rest : List ℕ → Reader → Result Error (Header × Reader)
unfolding parse_legacy_header parse_device_header
read_rest header r =
    let magic = get_be (slice 0 4 header) in
    if magic == magic_legacy
    then (parse_legacy_header header >>= λ h. ok (h, r))
    else if magic == magic_with_device
    then (map_err read_camera_id_failed (read_full camera_id_size r) >>= λ p.
        parse_device_header header p.0 >>= λ h. ok (h, p.1))
    else err (bad_magic magic)

unfoldable pub read_header : Reader → Result Error (Header × Reader)
read_header r = do
  (header, r1) ← map_err read_header_failed (read_full header_size r)
  read_rest header r1

pub record Captured : Type 0 where
  pub header : Header
  pub payload : List ℕ

-- readFrame, behind the header. The read deadline is part of how the reader ends.
unfoldable pub read_payload : ℕ → Header → Reader → Result Error (Captured × Reader)
read_payload max_frame_bytes header r1 = do
  fail_if (header.payload_size == 0 || ltb max_frame_bytes header.payload_size)
      (invalid_payload_size header)
  (payload, r2) ← map_err read_payload_failed (read_full header.payload_size r1)
  ok (record { header = header; payload = payload }, r2)

unfoldable pub read_frame : ℕ → Reader → Result Error (Captured × Reader)
read_frame max_frame_bytes r = do
  (header, r1) ← read_header r
  read_payload max_frame_bytes header r1

-- The markers at both ends; too short a payload has none.
unfoldable pub looks_like_jpeg : List ℕ → Bool
looks_like_jpeg payload =
    let n = length payload in
    if ltb n 4
    then false
    else get_or payload 0 0 == 0xff
      && get_or payload 1 0 == 0xd8
      && get_or payload (n - 2) 0 == 0xff
      && get_or payload (n - 1) 0 == 0xd9
