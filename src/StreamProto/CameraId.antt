-- ===== src/StreamProto/CameraId.antt =====
-- shared/streamproto/streamproto.go, CameraID: its text form. A CameraID is a number below 2 ^ 32.
use instachron.Base.{ℕ, ◌-◌, ◌^◌, ◌<◌, ◌≡◌, arith, Result, ok}
use instachron.Text.{Text}
use instachron.Strconv.{NumError, format_uint, parse_uint, parse_uint-format_uint, parse_uint-le}

abbrev pub max_uint32 : ℕ
max_uint32 = 2 ^ 32 - 1

unfoldable pub camera_id_string : ℕ → Text
camera_id_string id = format_uint id

unfoldable pub parse_camera_id : Text → Result NumError ℕ
parse_camera_id s = parse_uint max_uint32 s

-- ParseCameraID is a left inverse of String, and every CameraID that it returns is a uint32.
pub parse_camera_id_inverse :
    ((id : ℕ) → id < 2 ^ 32 → parse_camera_id (camera_id_string id) ≡ ok id)
    × ((s : Text) (id : ℕ) → parse_camera_id s ≡ ok id → id < 2 ^ 32)
unfolding parse_camera_id camera_id_string
parse_camera_id_inverse = (
  λ id h. parse_uint-format_uint max_uint32 id (omega arith) (omega arith),
  λ s id h. omega (arith, parse_uint-le max_uint32 id s h),
)

-- ParseCameraID gives back every CameraID below 2 ^ 32 from its text.
pub parse_camera_id-camera_id_string :
    (id : ℕ) → id < 2 ^ 32 → parse_camera_id (camera_id_string id) ≡ ok id
parse_camera_id-camera_id_string id h = parse_camera_id_inverse.0 id h

-- Two CameraIDs below 2 ^ 32 with the same text are the same.
pub camera_id_string_injective :
    (a b : ℕ) → a < 2 ^ 32 → b < 2 ^ 32 → camera_id_string a ≡ camera_id_string b → a ≡ b
camera_id_string_injective a b ha hb e =
    cc (parse_camera_id_inverse.0 a ha, parse_camera_id_inverse.0 b hb)
