-- ===== src/Recorder/Storage/Listing.antt =====
-- List of one camera: exactly the videos in the bounds of the filter, newest first.
use instachron.Recorder.Storage.Names.{text_eq-false}
use instachron.Recorder.Storage.Local.{parsed}
use instachron.Recorder.Storage.{json_name}
use instachron.Recorder.Storage.Disk.{file, link, and_then}
use instachron.Text.{text_eq_iff}
use instachron.Base.{Option-cases, ltb, zero, suc}
use instachron.Recorder.Storage.{download_url}
use instachron.Recorder.Storage.Disk.{subfolder, content, read_file}
use instachron.Text.{codes, has_suffix}
use instachron.Base.{◌≤◌, ◌++◌, ◌==◌, some, take, length, ℕ, nat_instance}
use instachron.Base.{
  lookup, ap, ◌≡◌, refl, arith, true, List, [], ◌∷◌, Result, ok, err, if◌then◌else◌, Bool-cases,
  inl, inr, ◌⊎◌, ◌↔◌, ◌≢◌,
}
use instachron.Text.{Text}
use instachron.Sorting.{Ascending, In}
use instachron.Recorder.Storage.{SegmentInfo, ListFilter, camera_dir, is_segment_file}
use instachron.Recorder.Storage.Disk.{FsError, Item, Folder, Tree, folder_of}
use instachron.Recorder.Storage.Local.{
  Json, read_metadata, list, in_range, is_directory, newer, limited,
}
use instachron.Recorder.Storage.Changes.{at}
use instachron.Recorder.Storage.Segments.{
  metadata, camera_segments, camera_segments-Stored, camera_segments-Ascending, list-at,
}

-- A start in the bounds of a filter; a bound that is the zero time is none.
abbrev pub Between : ListFilter → SegmentInfo → Type 0
Between filter info =
    ((filter.from ≡ 0) ⊎ (filter.from ≤ info.started_at))
    × ((filter.to ≡ 0) ⊎ (info.started_at ≤ filter.to))

in_range_iff :
    (filter : ListFilter) (info : SegmentInfo) → (in_range filter info ≡ true) ↔ Between filter info
unfolding in_range
in_range_iff filter info = (λ h. (ground arith, ground arith), λ h. ground arith)

-- A video of the camera's directory: an entry that is no directory, ends in .mp4 and is not the
-- link latest.mp4.
abbrev pub Video : Text × Item → Type 0
Video (name, i) =
    (i ≢ subfolder) × (has_suffix name (codes ".mp4") ≡ true) × (name ≢ codes "latest.mp4")

is_segment_file_iff :
    (name : Text) (i : Item) → (is_segment_file name (is_directory i) ≡ true) ↔ Video (name, i)
unfolding is_segment_file
is_segment_file_iff name subfolder = (λ h. absurd (cc), λ (here, suffix, other). absurd (here refl))
is_segment_file_iff name (file b) = (
  λ h. (λ e. cc, ground arith, λ e. ground (arith, text_eq_iff name (codes "latest.mp4"))),
  λ (here, suffix, name_ok). ground (arith, text_eq-false name (codes "latest.mp4") name_ok),
)
is_segment_file_iff name (link target) = (
  λ h. (λ e. cc, ground arith, λ e. ground (arith, text_eq_iff name (codes "latest.mp4"))),
  λ (here, suffix, name_ok). ground (arith, text_eq-false name (codes "latest.mp4") name_ok),
)

-- What the metadata file of a video says.
abbrev pub Described : Json → Tree → Text → Text → SegmentInfo → Type 0
Described json t id name info =
    (b : List ℕ) × (raw : SegmentInfo) × (content (camera_dir id) (name ++ codes ".json") t ≡ ok b)
    × (json.decode b ≡ some raw)
    × (info ≡ record raw {
      download_url = codes "/videos/" ++ (raw.camera_id ++ (b'/' ∷ raw.file_name));
    })

decoded :
    (json : Json) (t : Tree) (info : SegmentInfo) (r : Result FsError (List ℕ))
    → (and_then (λ b. parsed json (json.decode b)) (r, at t)).0 ≡ ok info
    → (b : List ℕ) × (raw : SegmentInfo) × (r ≡ ok b)
      × (json.decode b ≡ some raw)
      × (info ≡ record raw { download_url = download_url raw })
decoded json t info (err e) h = absurd (cc)
decoded json t info (ok b) h = elim (Option-cases (json.decode b)) [
  | inl e ↦ absurd (cc (rw e at h))
  | inr (raw, e) ↦ (b, raw, refl, e, cc (rw e at h))
]

metadata_iff :
    (json : Json) (filter : ListFilter) (t : Tree) (id name : Text) (info : SegmentInfo)
    → (metadata json filter t id name ≡ ok info) ↔ Described json t id name info
unfolding read_metadata read_file download_url lookup
metadata_iff json filter t id name info = (
  λ h. decoded json t info (content (camera_dir id) (json_name name) t) h,
  λ (b, raw, read, parse, same). rw read (rw parse (cc same)),
)

-- No segment starts before the next.
abbrev pub NewestFirst : List SegmentInfo → Type 0
NewestFirst [] = Unit {0}
NewestFirst (a ∷ []) = Unit {0}
NewestFirst (a ∷ b ∷ more) = (b.started_at ≤ a.started_at) × NewestFirst (b ∷ more)

Ascending-NewestFirst : (infos : List SegmentInfo) → Ascending newer infos → NewestFirst infos
Ascending-NewestFirst [] h = tt
Ascending-NewestFirst (a ∷ []) h = tt
Ascending-NewestFirst (a ∷ b ∷ more) h = (ground arith, Ascending-NewestFirst (b ∷ more) h.1)

take_whole : (n : ℕ) (infos : List SegmentInfo) → length infos ≤ n → take n infos ≡ infos
take_whole zero [] h = refl
take_whole zero (x ∷ infos) h = absurd (omega arith)
take_whole (suc n) [] h = refl
take_whole (suc n) (x ∷ infos) h = ap (◌∷◌ x) (take_whole n infos (omega arith))

limited_lem :
    (limit : ℕ) (infos : List SegmentInfo)
    → limited limit infos ≡ (if limit == 0 then infos else take limit infos)
limited_lem limit infos = elim (Bool-cases (ltb limit (length infos))) [
  | inl e ↦ rw e (ground arith)
  | inr e ↦ rw e (ground (arith, take_whole limit infos (ground arith)))
]

-- When nothing fails and the directory of the named camera exists, List gives the first segments
-- of a list, as many as the limit says, or all of it when the limit is 0, and leaves the disk as
-- it is. In the list no segment starts later than one before it, and it holds exactly the
-- metadata, with its download address, beside the entries of the directory that are no
-- directories, end in .mp4 and are not latest.mp4, when it can be read and its start is neither
-- before nor after the bounds of the filter that are set.
pub list_camera :
    (json : Json) (filter : ListFilter) (t : Tree) (entries : Folder)
    → filter.camera_id ≢ []
    → folder_of (camera_dir filter.camera_id) t ≡ ok entries
    → (all : List SegmentInfo) × (list json filter (at t)
        ≡ (ok (if filter.limit == 0 then all else take filter.limit all), at t))
      × NewestFirst all
      × ((info : SegmentInfo)
          → In info all ↔ (
              (name : Text) × (i : Item) × In (name, i) entries
              × Video (name, i)
              × Described json t filter.camera_id name info
              × Between filter info))
list_camera json filter t entries named there =
    let id = filter.camera_id in
    let all = camera_segments json filter t id entries in
    (
      all,
      rw (← limited_lem filter.limit all) (list-at json filter t entries named there),
      Ascending-NewestFirst all (camera_segments-Ascending json filter t id entries),
      λ info. (
        λ m.
            let (name, i, stored, video, read, range) =
              (camera_segments-Stored json filter t id entries info).0 m in
            (
              name,
              i,
              stored,
              (is_segment_file_iff name i).0 video,
              (metadata_iff json filter t id name info).0 read,
              (in_range_iff filter info).0 range,
            ),
        λ (name, i, stored, video, read, range).
            (camera_segments-Stored json filter t id entries info).1 (
              name,
              i,
              stored,
              (is_segment_file_iff name i).1 video,
              (metadata_iff json filter t id name info).1 read,
              (in_range_iff filter info).1 range,
            ),
      ),
    )
