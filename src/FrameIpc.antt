-- ===== src/FrameIpc.antt =====
-- shared/frameipc/frameipc.go: the messages on the Unix socket between tcp-camera-backend and its
-- consumers. A nil payload and an empty one are the empty list: Write and Read do not tell them
-- apart.
pub mod RoundTrip
pub mod Client
use instachron.Base.{ℕ, ◌%◌, ◌^◌, ◌<◌, Bool, true, false, not, ◌&&◌, Option, none, some}
use instachron.Base.{Result, ok, err, ◌>>=◌, ◌>>◌, fail_if, map_err, ◌==◌, ltb, if◌then◌else◌}
use instachron.Base.{List, [], ◌∷◌, ◌++◌, length, get_or, slice}
use instachron.Wire.BigEndian.{put_be, get_be}
use instachron.Wire.Stream.{Reader, Writer, IoError, read_full, write}

abbrev pub magic1 : ℕ
magic1 = 0xaa

abbrev pub magic2 : ℕ
magic2 = 0xbb

abbrev pub header_size : ℕ
header_size = 11

-- A Kind is a byte; other values than these two may come in from another build.
abbrev pub kind_frame : ℕ
kind_frame = 1

abbrev pub kind_offline : ℕ
kind_offline = 2

pub record Frame : Type 0 where
  pub kind : ℕ
  pub camera_id : ℕ
  pub payload : List ℕ

pub data Error : Type 0 where
  bad_magic write_failed : Error
  io : IoError → Error
  read_payload_failed : IoError → Error

pub header : Frame → List ℕ
header m =
    (magic1 ∷ magic2 ∷ m.kind % 256 ∷ [])
    ++ (put_be 4 m.camera_id ++ put_be 4 (length m.payload % 2 ^ 32))

pub write_message : Frame → Writer → Option Error × Writer
write_message m w =
    let (sent, w1) = write (header m) w in
    let (done, w2) = write m.payload w1 in
    if not sent
    then (some write_failed, w1)
    else if ltb 0 (length m.payload)
    then ((if done then none else some write_failed), w2)
    else (none, w1)

-- The part of Read behind the header.
pub read_payload : List ℕ → Reader → Result Error (Frame × Reader)
read_payload hdr r1 = do
  fail_if (not (get_or hdr 0 0 == magic1 && get_or hdr 1 0 == magic2)) bad_magic
  let payload_size = get_be (slice 7 4 hdr)
  (payload, r2) ←
      if ltb 0 payload_size
      then map_err read_payload_failed (read_full payload_size r1)
      else ok ([], r1)
  ok (record { kind = get_or hdr 2 0; camera_id = get_be (slice 3 4 hdr); payload = payload }, r2)

pub read_message : Reader → Result Error (Frame × Reader)
unfolding read_payload
read_message r = do (hdr, r1) ← map_err io (read_full header_size r); read_payload hdr r1
