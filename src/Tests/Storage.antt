-- ===== src/Tests/Storage.antt =====
-- A small disk with two finished segments of camera 7, and a codec for their metadata.
use instachron.Base.{
  ℕ, ◌+◌, ◌*◌, ◌≡◌, ◌↔◌, refl, arith, true, false, Option, none, some, List, [], ◌∷◌, ◌++◌, ok,
  length, take, drop, min, All, lookup,
}
use mathlib.Core.List.{Perm}
use instachron.Base.Int.{pos, sub_ℕ, pos_part, neg_part}
use instachron.Text.{Text, codes, text_eq, contains, text_ltb}
use instachron.StreamProto.{unix_epoch, unix_nano}
use instachron.Recorder.Storage.{
  SegmentInfo, ListFilter, camera_dir, tmp_name, json_name, segment_file_name, download_url,
  safe_name, is_plain, is_segment_file,
}
use instachron.Recorder.Storage.Disk.{
  Item, file, link, Tree, folder, World, fine, failed, item, folder_of, content,
}
use instachron.Recorder.Storage.Local.{
  Json, remove_segments, list, prune, open_segment, whole_camera,
}
use instachron.Recorder.Storage.Changes.{at}
use instachron.Recorder.Storage.Listing.{list_camera, NewestFirst, Video, Described, Between}
use instachron.Recorder.Storage.Paths.{IsEntryName, join, with_suffix}
use instachron.Base.{◌==◌, if◌then◌else◌, nat_instance, insert, remove}
use instachron.Recorder.Storage.Pruning.{KeptOrGone, Gone, named}
use instachron.Recorder.Storage.Oldest.{doomed, prune-KeptOrGone, prune_oldest, OlderThan}
use instachron.Recorder.Storage.Recorded.{open-record_segment, record_segment, concat, done}
use instachron.Recorder.Storage.Completion.{AfterCompletion}
use instachron.Strconv.{format_uint}
use instachron.Text.{has_suffix}
use instachron.Recorder.Storage.{valid_file_name}
use instachron.Recorder.Storage.Disk.{remove_path, ctx_err, read_dir, read_file}
use instachron.Recorder.Storage.Local.{list_cameras, list_entries, read_metadata, in_range}
use instachron.Sorting.{place}
use instachron.Recorder.Api.{handle_video_file}
use instachron.Recorder.Api.Answers.{handle_video_file-inside}
use instachron.Recorder.Storage.Calendar.{format_time}
use instachron.Sorting.{sort, In}

-- Three texts with their lengths in front, and the numbers.
abbrev encode : SegmentInfo → List ℕ
encode i =
    length i.camera_id
    ∷ length i.file_name
    ∷ length i.relative_path
    ∷ i.started_at
    ∷ i.ended_at
    ∷ pos_part i.raw_duration
    ∷ neg_part i.raw_duration
    ∷ i.timelapse_factor
    ∷ i.output_fps
    ∷ i.size_bytes
    ∷ (i.camera_id ++ (i.file_name ++ i.relative_path))

abbrev decode : List ℕ → Option SegmentInfo
decode (a ∷ b ∷ c ∷ start ∷ end ∷ p ∷ n ∷ factor ∷ fps ∷ size ∷ texts) = some (record {
  camera_id = take a texts;
  file_name = take b (drop a texts);
  started_at = start;
  ended_at = end;
  raw_duration = sub_ℕ p n;
  timelapse_factor = factor;
  output_fps = fps;
  size_bytes = size;
  relative_path = take c (drop (a + b) texts);
  download_url = [];
})
decode other = none

abbrev codec : Json
codec = record { encode = encode; decode = decode }

abbrev seven : Text
seven = codes "7"

abbrev first_start : ℕ
first_start = unix_epoch + 1_709_210_096 * 1_000_000_000

abbrev info_at : ℕ → SegmentInfo
info_at start = record {
  camera_id = seven;
  file_name = segment_file_name start;
  started_at = start;
  ended_at = start + 60_000_000_000;
  raw_duration = pos 60_000_000_000;
  timelapse_factor = 10;
  output_fps = 10;
  size_bytes = 3;
  relative_path = codes "camera-7/a.mp4";
  download_url = [];
}

-- Two segments a minute apart, as a camera's directory.
abbrev two_segments : Tree
two_segments =
    let a = info_at first_start in
    let b = info_at (first_start + 60_000_000_000) in
    (
      codes "camera-7",
      folder (
          (a.file_name, file (1 ∷ 2 ∷ 3 ∷ []))
          ∷ (json_name a.file_name, file (encode a))
          ∷ (b.file_name, file (4 ∷ 5 ∷ 6 ∷ []))
          ∷ (json_name b.file_name, file (encode b))
          ∷ (codes "latest.mp4", link b.file_name)
          ∷ []),
    )
    ∷ []

abbrev chunks : List (List ℕ)
chunks = (1 ∷ 2 ∷ []) ∷ (3 ∷ []) ∷ []

abbrev end : ℕ
end = first_start + 60_000_000_000

abbrev recorded : SegmentInfo
recorded = done codec seven first_start 10 10 end chunks

open-record_segment_example :
    (t' : Tree) × (record_segment codec seven first_start 10 10 end chunks (at [])
      ≡ (ok recorded, at t'))
    × AfterCompletion codec recorded
        (tmp_name seven (segment_file_name first_start))
        end
        (concat chunks)
        []
        t'
    × (open_segment codec seven (segment_file_name first_start) (at t')
        ≡ (ok (concat chunks, record recorded { download_url = download_url recorded }), at t'))
unfolding concat segment_file_name format_time safe_name unix_nano format_uint
open-record_segment_example =
    open-record_segment codec seven first_start 10 10 end chunks [] (λ b h. unfold lookup in cc)
      (λ b h. unfold lookup in cc) (unfold item lookup in refl) (unfold item lookup in refl)
      (unfold item lookup in refl) refl

abbrev camera_seven : ListFilter
camera_seven = record { camera_id = seven; from = 0; to = 0; limit = 1 }

abbrev entries : List (Text × Item)
entries =
    let a = info_at first_start in
    let b = info_at (first_start + 60_000_000_000) in
    (a.file_name, file (1 ∷ 2 ∷ 3 ∷ []))
    ∷ (json_name a.file_name, file (encode a))
    ∷ (b.file_name, file (4 ∷ 5 ∷ 6 ∷ []))
    ∷ (json_name b.file_name, file (encode b))
    ∷ (codes "latest.mp4", link b.file_name)
    ∷ []

there : folder_of (camera_dir seven) two_segments ≡ ok entries
unfolding folder_of lookup camera_dir segment_file_name text_eq
there = refl

list_camera_example :
    (all : List SegmentInfo) × (list codec camera_seven (at two_segments)
      ≡ (ok (if 1 == 0 then all else take 1 all), at two_segments))
    × NewestFirst all
    × ((info : SegmentInfo)
        → In info all ↔ (
            (name : Text) × (i : Item) × In (name, i) entries
            × Video (name, i)
            × Described codec two_segments seven name info
            × Between camera_seven info))
list_camera_example = list_camera codec camera_seven two_segments entries (λ h. cc) there

abbrev with_url : SegmentInfo → SegmentInfo
with_url i = record i { download_url = download_url i }

abbrev both : List SegmentInfo
both = with_url (info_at (first_start + 60_000_000_000)) ∷ with_url (info_at first_start) ∷ []

listed : list codec (whole_camera seven) (at two_segments) ≡ (ok both, at two_segments)
unfolding list segment_file_name format_time ctx_err list_cameras read_dir lookup text_eq camera_dir
    list_entries place text_ltb unix_nano format_uint is_segment_file has_suffix read_metadata
    read_file in_range download_url folder_of item safe_name sort
listed = refl

abbrev root : List Text
root = codes "recordings" ∷ codes "data" ∷ []

plain_name : IsEntryName (segment_file_name first_start)
unfolding segment_file_name format_time unix_nano format_uint contains
plain_name = record { full = λ e. cc; slashes = refl; here = λ e. cc; up = λ e. cc }

prune_oldest_example :
    let gone = doomed 1 (ok both) in
    (kept : List SegmentInfo) × (t' : Tree) × (prune codec root seven 1 (at two_segments)
      ≡ (ok tt, at t'))
    × Gone (camera_dir seven) (λ n. named n gone) two_segments t'
    × Perm (gone ++ kept) both
    × (length kept ≡ min 1 (length both))
    × OlderThan gone kept
unfolding doomed sort place
prune_oldest_example =
    prune_oldest codec root seven 1 two_segments both (omega arith) listed (plain_name, tt)

-- The second removal fails.
abbrev failing : World
failing = record {
  tree = two_segments;
  outcomes = fine ∷ fine ∷ fine ∷ fine ∷ fine ∷ failed [] ∷ [];
}

listed_failing : (list codec (whole_camera seven) failing).0 ≡ ok both
unfolding list segment_file_name format_time ctx_err list_cameras read_dir lookup text_eq camera_dir
    list_entries place text_ltb unix_nano format_uint is_segment_file has_suffix read_metadata
    read_file in_range download_url folder_of item safe_name sort
listed_failing = refl

prune-KeptOrGone_example :
    KeptOrGone
      (camera_dir seven)
      (λ n. named n (doomed 1 (list codec (whole_camera seven) failing).0))
      two_segments
      (prune codec root seven 1 failing).1.tree
unfolding doomed sort place
prune-KeptOrGone_example =
    prune-KeptOrGone codec root seven 1 failing (rw listed_failing (plain_name, tt))

-- A character of two bytes becomes one dash, and so does a byte that is no character.
safe_name_runes : safe_name (0xc3 ∷ 0xa9 ∷ b'a' ∷ 0xc3 ∷ b'_' ∷ 0x80 ∷ []) ≡ codes "-a-_-"
unfolding safe_name
safe_name_runes = refl

-- Metadata may name a file of another camera.
abbrev elsewhere : SegmentInfo
elsewhere = record (info_at first_start) { file_name = codes "../camera-8/x.mp4" }

abbrev two_cameras : Tree
two_cameras =
    (codes "camera-7", folder [])
    ∷ (codes "camera-8", folder ((codes "x.mp4", file (9 ∷ [])) ∷ []))
    ∷ []

removes_elsewhere :
    (remove_segments root (camera_dir seven ∷ root) (elsewhere ∷ []) (at two_cameras)).1.tree
    ≡ (codes "camera-7", folder []) ∷ (codes "camera-8", folder []) ∷ []
unfolding remove_segments remove_path with_suffix join camera_dir safe_name ctx_err text_eq lookup
    insert remove
removes_elsewhere = refl

handle_video_file-inside_example :
    let name = segment_file_name first_start in
    (content (camera_dir seven) name two_segments ≡ ok (1 ∷ 2 ∷ 3 ∷ []))
    × (contains name b'/' ≡ false)
    × (contains name 0x5c ≡ false)
    × All (λ c. is_plain c ≡ true) (safe_name seven)
unfolding handle_video_file open_segment segment_file_name format_time ctx_err lookup text_eq
    camera_dir unix_nano format_uint has_suffix read_metadata read_file download_url item safe_name
    valid_file_name contains
handle_video_file-inside_example =
    handle_video_file-inside codec seven (segment_file_name first_start) (at two_segments)
      (1 ∷ 2 ∷ 3 ∷ []) (with_url (info_at first_start)) refl
