-- ===== src/Recorder/Storage.antt =====
-- services/camera-recorder/internal/storage: the data of storage.go, and the names that local.go
-- gives to directories and files. A path below the root directory is the name of a directory in it
-- and a name there. A duration is in nanoseconds; the code's RawDurationSec is in seconds.
pub mod Calendar
pub mod Names
pub mod Paths
pub mod Disk
pub mod Local
pub mod Changes
pub mod Effects
pub mod Completion
pub mod Recorded
pub mod Reading
pub mod Segments
pub mod Listing
pub mod Pruning
pub mod Oldest
use instachron.Base.{◌^◌}
use instachron.Base.{
  ℕ, zero, suc, ◌+◌, ◌-◌, ◌%◌, Bool, true, false, not, ◌&&◌, ◌||◌, Option, List, [], ◌∷◌, ◌++◌, leb,
  ◌==◌, if◌then◌else◌,
}
use instachron.Base.Int.{ℤ, pos, sub_ℕ}
use instachron.Text.{Text, codes, text_eq, has_suffix, contains}
use instachron.Strconv.{format_uint}
use instachron.StreamProto.{unix_nano}
use instachron.Recorder.Storage.Calendar.{format_time}

pub record SegmentInfo : Type 0 where
  pub camera_id : Text
  pub file_name : Text
  pub started_at : ℕ
  pub ended_at : ℕ
  pub raw_duration : ℤ
  pub timelapse_factor : ℕ
  pub output_fps : ℕ
  pub size_bytes : ℕ
  pub relative_path : Text
  pub download_url : Text

-- The zero time stands for no bound, and the empty id for every camera.
pub record ListFilter : Type 0 where
  pub camera_id : Text
  pub from : ℕ
  pub to : ℕ
  pub limit : ℕ

unfoldable pub is_plain : ℕ → Bool
is_plain c =
    (leb b'0' c && leb c b'9')
    || ((leb b'a' c && leb c b'z') || ((leb b'A' c && leb c b'Z') || (c == b'-' || c == b'_')))

-- The closure of safeName, at an ASCII character or, for the other ones, at any byte of theirs.
unfoldable pub safe_char : ℕ → ℕ
unfolding is_plain
safe_char c = if is_plain c then c else b'-'

-- How many bytes follow the first byte of a character in UTF-8.
unfoldable pub more_bytes : ℕ → ℕ
more_bytes c =
    if leb 0xc2 c && leb c 0xdf
    then 1
    else if leb 0xe0 c && leb c 0xef
    then 2
    else if leb 0xf0 c && leb c 0xf4
    then 3
    else 0

-- The least and the largest second byte.
abbrev second_low : ℕ → ℕ
second_low c = if c == 0xe0 then 0xa0 else if c == 0xf0 then 0x90 else 0x80

abbrev second_high : ℕ → ℕ
second_high c = if c == 0xed then 0x9f else if c == 0xf4 then 0x8f else 0xbf

continues : ℕ → Text → Bool
continues zero v = true
continues (suc n) [] = false
continues (suc n) (c ∷ v) = let rest = continues n v in leb 0x80 c && (leb c 0xbf && rest)

-- How many bytes of a text belong to the character that the byte before it begins: none when that
-- is no character of UTF-8, so that the byte stands alone.
unfoldable pub rune_tail : ℕ → Text → ℕ
unfolding more_bytes continues
rune_tail c [] = 0
rune_tail c (d ∷ v) =
    if leb (second_low c) d && (leb d (second_high c) && continues (more_bytes c - 1) v)
    then more_bytes c
    else 0

-- strings.Map of the closure, when some bytes of a character are left to skip.
unfoldable pub safe_from : ℕ → Text → Text
unfolding safe_char rune_tail
safe_from skip [] = []
safe_from zero (c ∷ v) = safe_char c ∷ safe_from (rune_tail c v) v
safe_from (suc skip) (c ∷ v) = safe_from skip v

unfoldable pub safe_name : Text → Text
unfolding safe_from
safe_name v = safe_from 0 v

unfoldable pub valid_file_name : Text → Bool
valid_file_name v =
    not (text_eq v [])
    && (not (contains v b'/') && (not (contains v 0x5c) && has_suffix v (codes ".mp4")))

unfoldable pub is_segment_file : Text → Bool → Bool
is_segment_file name is_dir =
    not is_dir && (has_suffix name (codes ".mp4") && not (text_eq name (codes "latest.mp4")))

-- cameraDir and tmpDir, as names in the root directory.
unfoldable pub camera_dir : Text → Text
unfolding safe_name
camera_dir id = codes "camera-" ++ safe_name id

abbrev pub tmp_dir : Text
tmp_dir = codes ".tmp"

-- "%d" of UnixNano, which is negative before 1970 and after 2262.
format_unix_nano : ℕ → Text
format_unix_nano ns = if leb (2 ^ 63) ns then b'-' ∷ format_uint (2 ^ 64 - ns) else format_uint ns

unfoldable pub segment_file_name : ℕ → Text
unfolding format_unix_nano
segment_file_name start =
    format_time start ++ (b'_' ∷ (format_unix_nano (unix_nano start) ++ codes ".mp4"))

unfoldable pub tmp_name : Text → Text → Text
tmp_name id file_name = codes "camera-" ++ (safe_name id ++ (b'-' ∷ (file_name ++ codes ".tmp")))

abbrev pub json_name : Text → Text
json_name file_name = file_name ++ codes ".json"

unfoldable pub download_url : SegmentInfo → Text
download_url info = codes "/videos/" ++ (info.camera_id ++ (b'/' ∷ info.file_name))
