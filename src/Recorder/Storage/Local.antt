-- ===== src/Recorder/Storage/Local.antt =====
-- local.go: the methods of Local, on the disk of Disk. encoding/json is a parameter. A Close of the
-- segment's file has no effect on the disk.
use instachron.Base.{
  ℕ, ◌+◌, ◌-◌, Bool, true, false, not, ◌&&◌, Option, none, some, List, [], ◌∷◌, ◌++◌, Result, ok,
  err, length, take, ltb, leb, ◌==◌, if◌then◌else◌,
}
use instachron.Base.Int.{sub_ℕ}
use instachron.Text.{Text, codes, has_prefix, text_ltb}
use instachron.Base.{drop}
use instachron.Sorting.{sort}
use instachron.Recorder.Storage.{
  SegmentInfo, ListFilter, valid_file_name, is_segment_file, camera_dir, tmp_dir, safe_name,
  segment_file_name, tmp_name, json_name, download_url,
}
use instachron.Recorder.Storage.Paths.{join, with_suffix}
use instachron.Recorder.Storage.Disk.{
  FsError, not_exist, invalid, not_local, Item, file, link, subfolder, Folder, Entry, folder, plain,
  Tree, World, M, ◌>>=◌, ◌>>◌, return, fail, ignore, try, ctx_err, mkdir_all, create, write_file,
  append_file, rename, remove_file, remove_path, symlink, read_file, stat_size, item_size,
  entry_info, read_dir, read_root,
}

-- json.MarshalIndent and json.Unmarshal of a SegmentInfo. The first fails for a year that has more
-- than four digits only, which is left out.
pub record Json : Type 0 where
  pub encode : SegmentInfo → List ℕ
  pub decode : List ℕ → Option SegmentInfo

-- localSegmentWriter around a countingFile, or another SegmentWriter.
pub data Writer : Type 0 where
  local : Text → Text → Text → ℕ → Writer
  foreign : Writer

pub record PendingSegment : Type 0 where
  pub info : SegmentInfo
  pub writer : Writer

abbrev pub opened : Text → Text → ℕ → ℕ → ℕ → PendingSegment
opened id file_name start output_fps timelapse_factor = record {
  info = record {
    camera_id = id;
    file_name = file_name;
    started_at = start;
    ended_at = 0;
    raw_duration = sub_ℕ 0 0;
    timelapse_factor = timelapse_factor;
    output_fps = output_fps;
    size_bytes = 0;
    relative_path = codes "camera-" ++ (safe_name id ++ (b'/' ∷ file_name));
    download_url = [];
  };
  writer = local (tmp_name id file_name) (camera_dir id) file_name 0;
}

unfoldable pub begin_segment : Text → ℕ → ℕ → ℕ → M PendingSegment
begin_segment id start output_fps timelapse_factor = do
  ctx_err
  mkdir_all (camera_dir id)
  mkdir_all tmp_dir
  let file_name = segment_file_name start
  create tmp_dir (tmp_name id file_name)
  return (opened id file_name start output_fps timelapse_factor)

-- Write and BytesWritten of countingFile.
unfoldable pub write : List ℕ → Writer → World → (ℕ × Option FsError) × Writer × World
write b foreign w = ((0, none), foreign, w)
write b (local tmp dir name n) w =
    let ((k, e), w') = append_file tmp_dir tmp b w in ((k, e), local tmp dir name (n + k), w')

abbrev pub bytes_written : Writer → ℕ
bytes_written foreign = 0
bytes_written (local tmp dir name n) = n

abbrev pub size_or : ℕ → Result FsError ℕ → ℕ
size_or n (ok size) = size
size_or n (err e) = n

abbrev discard_writer : Writer → M (Unit {0})
discard_writer foreign = fail not_local
discard_writer (local tmp dir name n) = do ctx_err; remove_file tmp_dir tmp

unfoldable pub discard_segment : Option PendingSegment → M (Unit {0})
discard_segment none = return tt
discard_segment (some p) = discard_writer p.writer

unfoldable pub in_range : ListFilter → SegmentInfo → Bool
in_range filter info =
    not (not (filter.from == 0) && ltb info.started_at filter.from)
    && not (not (filter.to == 0) && ltb filter.to info.started_at)

abbrev pub admit : ListFilter → Result FsError SegmentInfo → List SegmentInfo → List SegmentInfo
admit filter (err e) infos = infos
admit filter (ok info) infos = if in_range filter info then info ∷ infos else infos

abbrev pub is_directory : Item → Bool
is_directory subfolder = true
is_directory (file b) = false
is_directory (link target) = false

abbrev is_folder : Entry → Bool
is_folder (folder f) = true
is_folder (plain b) = false

unfoldable pub camera_ids : Tree → List Text
camera_ids [] = []
camera_ids ((name, e) ∷ entries) =
    let rest = camera_ids entries in
    if is_folder e && has_prefix name (codes "camera-") then drop 7 name ∷ rest else rest

unfoldable pub cameras : M (List Text)
unfolding camera_ids
cameras = do ctx_err; entries ← read_root; return (sort text_ltb (camera_ids entries))

abbrev pub newer : SegmentInfo → SegmentInfo → Bool
newer a b = ltb b.started_at a.started_at

abbrev pub older : SegmentInfo → SegmentInfo → Bool
older a b = ltb a.started_at b.started_at

abbrev pub limited : ℕ → List SegmentInfo → List SegmentInfo
limited limit out = if ltb 0 limit && ltb limit (length out) then take limit out else out

abbrev pub chosen_cameras : Text → M (List Text)
chosen_cameras [] = cameras
chosen_cameras (c ∷ id) = return ((c ∷ id) ∷ [])

-- The removals of Prune, below the directory with the absolute path dir; the file name is the one
-- that the metadata gives. The errors of os.Remove are dropped.
unfoldable pub remove_segments : List Text → List Text → List SegmentInfo → M (Unit {0})
remove_segments root dir [] = return tt
remove_segments root dir (info ∷ infos) =
    let rest = remove_segments root dir infos in
    let base = join dir info.file_name in
    do
      ctx_err
      ignore (remove_path root base)
      ignore (remove_path root (with_suffix (codes ".json") base))
      rest

abbrev pub whole_camera : Text → ListFilter
whole_camera id = record { camera_id = id; from = 0; to = 0; limit = 0 }

abbrev pub remove_old : List Text → Text → ℕ → List SegmentInfo → M (Unit {0})
remove_old root dir keep files =
    if leb (length files) keep
    then return tt
    else remove_segments root (dir ∷ root) (take (length files - keep) (sort older files))

unfoldable pub latest_link : SegmentInfo → M (Unit {0})
latest_link info = do
  ignore (remove_file (camera_dir info.camera_id) (codes "latest.mp4"))
  ignore (symlink info.file_name (camera_dir info.camera_id) (codes "latest.mp4"))

abbrev pub finished : SegmentInfo → ℕ → ℕ → SegmentInfo
finished info end size = record info {
  ended_at = end;
  raw_duration = sub_ℕ end info.started_at;
  size_bytes = size;
}

module _ (json : Json) where
  unfoldable pub write_metadata : SegmentInfo → M (Unit {0})
  write_metadata info =
      write_file (camera_dir info.camera_id) (json_name info.file_name) (json.encode info)

  abbrev pub parsed : Option SegmentInfo → M SegmentInfo
  parsed none = fail invalid
  parsed (some info) = return (record info { download_url = download_url info })

  unfoldable pub read_metadata : Text → Text → M SegmentInfo
  read_metadata id name = do b ← read_file (camera_dir id) (json_name name); parsed (json.decode b)

  -- The metadata of a finished segment goes to the disk, and the link to the newest follows.
  unfoldable pub describe : SegmentInfo → M SegmentInfo
  describe done = do write_metadata done; latest_link done; return done

  unfoldable pub complete_writer : SegmentInfo → Writer → ℕ → M SegmentInfo
  complete_writer info foreign end = fail not_local
  complete_writer info (local tmp dir name n) end = do
    rename tmp_dir tmp dir name
    size ← try (stat_size dir name)
    describe (finished info end (size_or n size))

  unfoldable pub complete_segment : PendingSegment → ℕ → M SegmentInfo
  unfolding complete_writer
  complete_segment p end = do ctx_err; complete_writer p.info p.writer end

  -- The inner loop of List, over the entries of a camera's directory.
  unfoldable pub list_entries : ListFilter → Text → Folder → M (List SegmentInfo)
  list_entries filter id [] = return []
  list_entries filter id ((name, i) ∷ entries) =
      let rest = list_entries filter id entries in
      if is_segment_file name (is_directory i)
      then (do r ← try (read_metadata id name); infos ← rest; return (admit filter r infos))
      else rest

  abbrev pub list_read :
      ListFilter → Text → M (List SegmentInfo) → Result FsError Folder → M (List SegmentInfo)
  list_read filter id rest (ok entries) = do
    infos ← list_entries filter id entries
    more ← rest
    return (infos ++ more)
  list_read filter id rest (err not_exist) = rest
  list_read filter id rest (err other) = fail other

  -- The outer loop, over the cameras.
  unfoldable pub list_cameras : ListFilter → List Text → M (List SegmentInfo)
  list_cameras filter [] = return []
  list_cameras filter (id ∷ ids) =
      let rest = list_cameras filter ids in
      do r ← try (read_dir (camera_dir id)); list_read filter id rest r

  unfoldable pub list : ListFilter → M (List SegmentInfo)
  list filter = do
    ctx_err
    ids ← chosen_cameras filter.camera_id
    out ← list_cameras filter ids
    return (limited filter.limit (sort newer out))

  unfoldable pub prune : List Text → Text → ℕ → M (Unit {0})
  prune root id keep =
      let pruned : M (Unit {0}) =
        (list (whole_camera id) >>= remove_old root (camera_dir id) keep) in
      if keep == 0 then return tt else pruned

  unfoldable pub open_segment : Text → Text → M (List ℕ × SegmentInfo)
  open_segment id name = do
    ctx_err
    if valid_file_name name then return tt else fail invalid
    info ← read_metadata id name
    b ← read_file (camera_dir id) name
    return (b, info)

-- filepath.WalkDir of UsageBytes: the closure is called for each entry.
unfoldable pub visit : Text → Bool → ℕ → ℕ → M ℕ
visit name dir size total =
    let counted : M ℕ = (do n ← entry_info size; return (total + n)) in
    ctx_err >> (if is_segment_file name dir then counted else return total)

unfoldable pub walk_folder : Folder → ℕ → M ℕ
walk_folder [] total = return total
walk_folder ((name, i) ∷ items) total =
    visit name (is_directory i) (item_size i) total >>= walk_folder items

abbrev walk_entry : Text → Entry → ℕ → M ℕ
walk_entry name (plain b) total = visit name false (length b) total
walk_entry name (folder f) total = do
  total' ← visit name true 0 total
  items ← read_dir name
  walk_folder items total'

unfoldable pub walk : Tree → ℕ → M ℕ
walk [] total = return total
walk ((name, e) ∷ entries) total = walk_entry name e total >>= walk entries

abbrev none_if_missing : Result FsError ℕ → M ℕ
none_if_missing (ok n) = return n
none_if_missing (err not_exist) = return 0
none_if_missing (err other) = fail other

unfoldable pub usage_bytes : M ℕ
usage_bytes = do
  total ← try (do ctx_err; entries ← read_root; walk entries 0)
  none_if_missing total
