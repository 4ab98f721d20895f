-- ===== src/Backend/Wire.antt =====
-- The camera protocol as README.md lays it out, and what the backend reads of it.
use instachron.Base.{ℕ, ◌^◌, ◌≤◌, ◌<◌, ◌≡◌, refl, arith}
use instachron.Base.{List, ◌++◌, length, slice, ok}
use instachron.Wire.BigEndian.{put_be, get_be, get_be-put_be, length-put_be}
use instachron.Wire.Stream.{Reader, IoError, read_full-append}
use instachron.Backend.Protocol.{
  Header, Captured, magic_legacy, magic_with_device, default_camera_id,
}
use instachron.Backend.Protocol.{read_rest, read_header, read_payload, read_frame}
use mathlib.Core.List.{append_assoc}

-- What a camera sends: a frame of the current protocol, or of the legacy one, which names no camera.
pub data Sent : Type 0 where
  device : ℕ → ℕ → ℕ → List ℕ → Sent
  legacy : ℕ → ℕ → List ℕ → Sent

abbrev fixed : ℕ → ℕ → ℕ → List ℕ → List ℕ
fixed magic sequence timestamp payload =
    put_be 4 magic ++ (put_be 4 sequence ++ (put_be 4 (length payload) ++ put_be 4 timestamp))

abbrev pub wire : Sent → List ℕ
wire (device id sequence timestamp payload) =
    fixed magic_with_device sequence timestamp payload ++ (put_be 4 id ++ payload)
wire (legacy sequence timestamp payload) = fixed magic_legacy sequence timestamp payload ++ payload

-- What the backend makes of it.
abbrev pub captured : Sent → Captured
captured (device id sequence timestamp payload) = record {
  header = record {
    camera_id = id;
    sequence = sequence;
    payload_size = length payload;
    timestamp_ms = timestamp;
  };
  payload = payload;
}
captured (legacy sequence timestamp payload) = record {
  header = record {
    camera_id = default_camera_id;
    sequence = sequence;
    payload_size = length payload;
    timestamp_ms = timestamp;
  };
  payload = payload;
}

abbrev Fits : ℕ → ℕ → ℕ → List ℕ → Type 0
Fits max_frame_bytes sequence timestamp payload =
    (sequence < 2 ^ 32)
    × (timestamp < 2 ^ 32)
    × (0 < length payload)
    × (length payload ≤ max_frame_bytes)
    × (max_frame_bytes < 2 ^ 32)

abbrev pub IsSendable : ℕ → Sent → Type 0
IsSendable m (device id sequence timestamp payload) =
    (id < 2 ^ 32) × Fits m sequence timestamp payload
IsSendable m (legacy sequence timestamp payload) = Unit {0} × Fits m sequence timestamp payload

module _ (magic sequence timestamp : ℕ) (payload : List ℕ) where
  length-fixed : length (fixed magic sequence timestamp payload) ≡ 16
  unfolding put_be
  length-fixed = refl

  fixed_magic : magic < 2 ^ 32 → get_be (slice 0 4 (fixed magic sequence timestamp payload)) ≡ magic
  unfolding put_be
  fixed_magic h = get_be-put_be 4 magic h

  fixed_sequence :
      sequence < 2 ^ 32 → get_be (slice 4 4 (fixed magic sequence timestamp payload)) ≡ sequence
  unfolding put_be
  fixed_sequence h = get_be-put_be 4 sequence h

  fixed_size :
      length payload < 2 ^ 32
      → get_be (slice 8 4 (fixed magic sequence timestamp payload)) ≡ length payload
  unfolding put_be
  fixed_size h = get_be-put_be 4 (length payload) h

  fixed_timestamp :
      timestamp < 2 ^ 32 → get_be (slice 12 4 (fixed magic sequence timestamp payload)) ≡ timestamp
  unfolding put_be
  fixed_timestamp h = get_be-put_be 4 timestamp h

read_rest_legacy :
    (sequence timestamp : ℕ) (payload : List ℕ) (r : Reader)
    → sequence < 2 ^ 32
    → timestamp < 2 ^ 32
    → length payload < 2 ^ 32
    → read_rest (fixed magic_legacy sequence timestamp payload) r
      ≡ ok ((captured (legacy sequence timestamp payload)).header, r)
unfolding read_rest
read_rest_legacy s t p r hs ht hp = ground (
  arith,
  length-fixed magic_legacy s t p,
  fixed_magic magic_legacy s t p (omega arith),
  fixed_sequence magic_legacy s t p hs,
  fixed_size magic_legacy s t p hp,
  fixed_timestamp magic_legacy s t p ht,
)

read_rest_device :
    (id sequence timestamp : ℕ) (payload rest : List ℕ) (e : IoError)
    → id < 2 ^ 32
    → sequence < 2 ^ 32
    → timestamp < 2 ^ 32
    → length payload < 2 ^ 32
    → read_rest
        (fixed magic_with_device sequence timestamp payload)
        (record { bytes = put_be 4 id ++ rest; ending = e })
      ≡ ok (
        (captured (device id sequence timestamp payload)).header,
        record { bytes = rest; ending = e },
      )
unfolding read_rest
read_rest_device id s t p rest e hi hs ht hp = ground (
  arith,
  length-fixed magic_with_device s t p,
  fixed_magic magic_with_device s t p (omega arith),
  fixed_sequence magic_with_device s t p hs,
  fixed_size magic_with_device s t p hp,
  fixed_timestamp magic_with_device s t p ht,
  read_full-append 4 (put_be 4 id) rest e (length-put_be 4 id),
  length-put_be 4 id,
  get_be-put_be 4 id hi,
)

read_frame_of_parts :
    (m : ℕ) (hdr payload rest : List ℕ) (h : Header) (r : Reader) (e : IoError)
    → length hdr ≡ 16
    → read_rest hdr r ≡ ok (h, record { bytes = payload ++ rest; ending = e })
    → h.payload_size ≡ length payload
    → 0 < length payload
    → length payload ≤ m
    → read_frame m (record { bytes = hdr ++ r.bytes; ending = r.ending })
      ≡ ok (record { header = h; payload = payload }, record { bytes = rest; ending = e })
unfolding read_frame read_header read_payload
read_frame_of_parts m hdr payload rest h r e h16 parsed size lo hi = ground (
  arith,
  read_full-append 16 hdr r.bytes r.ending h16,
  read_full-append (length payload) payload rest e refl,
)

-- The backend reads back what a camera sent, in either protocol, and stops behind it.
pub read_frame-wire :
    (m : ℕ) (s : Sent) (rest : List ℕ) (e : IoError)
    → IsSendable m s
    → read_frame m (record { bytes = wire s ++ rest; ending = e })
      ≡ ok (captured s, record { bytes = rest; ending = e })
read_frame-wire m (device id seq ts p) rest e (hi, (hs, ht, lo, hp, hm)) =
    rw
      (
        append_assoc (fixed magic_with_device seq ts p) (put_be 4 id ++ p) rest,
        append_assoc (put_be 4 id) p rest,
      )
      (read_frame_of_parts m (fixed magic_with_device seq ts p) p rest _ _ e
        (length-fixed _ seq ts p)
        (read_rest_device id seq ts p (p ++ rest) e hi hs ht (omega arith)) refl lo hp)
read_frame-wire m (legacy seq ts p) rest e (_, (hs, ht, lo, hp, hm)) = rw append_assoc (
    read_frame_of_parts m (fixed magic_legacy seq ts p) p rest _ _ e (length-fixed _ seq ts p)
      (read_rest_legacy seq ts p _ hs ht (omega arith)) refl lo hp)
