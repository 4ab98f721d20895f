-- ===== src/Recorder/Storage/Segments.antt =====
-- List of one camera as a function of the disk: the segments that the entries make, sorted.
use instachron.Base.{nat_instance}
use instachron.Base.{
  lookup, ap, ◌≡◌, refl, arith, true, List, [], ◌∷◌, Result, ok, err, if◌then◌else◌, Bool-cases,
  inl, inr, ◌⊎◌, ◌↔◌, ◌≢◌,
}
use mathlib.Core.List.{append-nil}
use instachron.Text.{Text}
use instachron.Sorting.{sort, Ascending, sort-Ascending, In, In-sort}
use instachron.Recorder.Storage.{SegmentInfo, ListFilter, camera_dir, is_segment_file}
use instachron.Recorder.Storage.Disk.{
  FsError, Item, Folder, Tree, by_name, folder_of, read_dir, ctx_err,
}
use instachron.Recorder.Storage.Local.{
  Json, read_metadata, list_entries, list_cameras, list, in_range, admit, is_directory, newer,
  limited, chosen_cameras,
}
use instachron.Recorder.Storage.Changes.{at}
use instachron.Recorder.Storage.Reading.{read_metadata-Reads}

module _ (json : Json) (filter : ListFilter) (t : Tree) where
  -- What readMetadata finds.
  abbrev pub metadata : Text → Text → Result FsError SegmentInfo
  metadata id name = (read_metadata json id name (at t)).0

  -- The segments that the entries of a camera's directory make, in their order.
  segments_of : Text → Folder → List SegmentInfo
  segments_of id [] = []
  segments_of id ((name, i) ∷ entries) =
      let rest = segments_of id entries in
      if is_segment_file name (is_directory i) then admit filter (metadata id name) rest else rest

  read_metadata-at : (id name : Text) → read_metadata json id name (at t) ≡ (metadata id name, at t)
  read_metadata-at id name =
      let (same, quiet) = (read_metadata-Reads json id name).keeps (at t) in cc (quiet refl)

  list_entries-at :
      (id : Text) (entries : Folder)
      → list_entries json filter id entries (at t) ≡ (ok (segments_of id entries), at t)
  unfolding list_entries segments_of
  list_entries-at id [] = refl
  list_entries-at id ((name, i) ∷ entries) =
      elim (Bool-cases (is_segment_file name (is_directory i))) [
        | inl e ↦ rw (e, read_metadata-at id name) (rw (list_entries-at id entries) refl)
        | inr e ↦ rw e (list_entries-at id entries)
      ]

  -- A finished segment of the camera with readable metadata in the filter's range.
  abbrev pub Stored : Text → Folder → SegmentInfo → Type 0
  Stored id entries info =
      (name : Text) × (i : Item) × In (name, i) entries
      × (is_segment_file name (is_directory i) ≡ true)
      × (metadata id name ≡ ok info)
      × (in_range filter info ≡ true)

  In-admit :
      (r : Result FsError SegmentInfo) (infos : List SegmentInfo) (info : SegmentInfo)
      → In info (admit filter r infos)
      → ((r ≡ ok info) × (in_range filter info ≡ true)) ⊎ In info infos
  unfolding In
  In-admit (err e) infos info m = inr m
  In-admit (ok first) infos info m = elim (Bool-cases (in_range filter first)) [
    | inl e ↦ admitted e (rw e at m)
    | inr e ↦ inr (rw e at m)
  ]
    where
      admitted :
          in_range filter first ≡ true
          → (info ≡ first) ⊎ In info infos
          → ((◌≡◌ {A = Result FsError SegmentInfo} (ok first) (ok info))
              × (in_range filter info ≡ true))
            ⊎ In info infos
      admitted e (inl same) = inl (cc, rw same e)
      admitted e (inr more) = inr more

  In-segments_of :
      (id : Text) (entries : Folder) (info : SegmentInfo)
      → In info (segments_of id entries)
      → Stored id entries info
  unfolding In segments_of
  In-segments_of id [] info m = absurd m
  In-segments_of id ((name, i) ∷ entries) info m =
      elim (Bool-cases (is_segment_file name (is_directory i))) [
        | inr e ↦ further (In-segments_of id entries info) (rw e at m)
        | inl e ↦ elim (In-admit (metadata id name) (segments_of id entries) info (rw e at m)) [
          | inl (read, range) ↦ (name, i, inl refl, e, read, range)
          | inr more ↦ further (In-segments_of id entries info) more
        ]
      ]
    where
      further :
          (In info (segments_of id entries) → Stored id entries info)
          → In info (segments_of id entries)
          → Stored id ((name, i) ∷ entries) info
      further rest m' =
          let (n, j, stored, file, read, range) = rest m' in (n, j, inr stored, file, read, range)

  In-admit_more :
      (r : Result FsError SegmentInfo) (infos : List SegmentInfo) (info : SegmentInfo)
      → In info infos
      → In info (admit filter r infos)
  unfolding In
  In-admit_more (err e) infos info m = m
  In-admit_more (ok first) infos info m = elim (Bool-cases (in_range filter first)) [
    | inl e ↦ rw e (inr m)
    | inr e ↦ rw e m
  ]

  In-admit_first :
      (r : Result FsError SegmentInfo) (infos : List SegmentInfo) (info : SegmentInfo)
      → r ≡ ok info
      → in_range filter info ≡ true
      → In info (admit filter r infos)
  unfolding In
  In-admit_first r infos info read range = rw read (rw range (inl refl))

  Stored-segments_of :
      (id : Text) (entries : Folder) (info : SegmentInfo) (name : Text) (i : Item)
      → In (name, i) entries
      → is_segment_file name (is_directory i) ≡ true
      → metadata id name ≡ ok info
      → in_range filter info ≡ true
      → In info (segments_of id entries)
  unfolding In segments_of
  Stored-segments_of id [] info name i m file read range = absurd m
  Stored-segments_of id ((n, j) ∷ entries) info name i (inl same) file read range =
      let e : name ≡ n = ap (λ p. p.0) same in
      let e' : i ≡ j = ap (λ p. p.1) same in
      let file' : is_segment_file n (is_directory j) ≡ true = rw (← e, ← e') file in
      let read' : metadata id n ≡ ok info = rw (← e) read in
      rw file' (In-admit_first (metadata id n) (segments_of id entries) info read' range)
  Stored-segments_of id ((n, j) ∷ entries) info name i (inr m) file read range =
      let rest = Stored-segments_of id entries info name i m file read range in
      elim (Bool-cases (is_segment_file n (is_directory j))) [
        | inl e ↦ rw e (In-admit_more (metadata id n) (segments_of id entries) info rest)
        | inr e ↦ rw e rest
      ]

  -- The segments of one camera, newest first.
  pub camera_segments : Text → Folder → List SegmentInfo
  camera_segments id entries = sort newer (segments_of id (sort by_name entries))

  pub camera_segments-Ascending :
      (id : Text) (entries : Folder) → Ascending newer (camera_segments id entries)
  unfolding camera_segments
  camera_segments-Ascending id entries = sort-Ascending newer (λ a b h. ground arith) _

  pub camera_segments-Stored :
      (id : Text) (entries : Folder) (info : SegmentInfo)
      → In info (camera_segments id entries) ↔ Stored id entries info
  unfolding camera_segments
  camera_segments-Stored id entries info = (
    λ m.
        let found = (In-sort newer info (segments_of id (sort by_name entries))).0 m in
        let (name, i, there, file, read, range) =
          In-segments_of id (sort by_name entries) info found in
        (name, i, (In-sort by_name (name, i) entries).0 there, file, read, range),
    λ (name, i, there, file, read, range).
        let sorted = (In-sort by_name (name, i) entries).1 there in
        (In-sort newer info (segments_of id (sort by_name entries))).1
          (Stored-segments_of id (sort by_name entries) info name i sorted file read range),
  )

  read_dir-at :
      (d : Text) (entries : Folder)
      → folder_of d t ≡ ok entries
      → read_dir d (at t) ≡ (ok (sort by_name entries), at t)
  unfolding read_dir lookup
  read_dir-at d entries there = rw (there, read_dir)

  list_cameras-at :
      (id : Text) (entries : Folder)
      → folder_of (camera_dir id) t ≡ ok entries
      → list_cameras json filter (id ∷ []) (at t)
        ≡ (ok (segments_of id (sort by_name entries)), at t)
  unfolding list_cameras
  list_cameras-at id entries there =
      rw (read_dir-at (camera_dir id) entries there)
        (rw (list_entries-at id (sort by_name entries)) (rw append-nil))

  chosen_cameras-at : (id : Text) → id ≢ [] → chosen_cameras id (at t) ≡ (ok (id ∷ []), at t)
  chosen_cameras-at [] named = absurd (named refl)
  chosen_cameras-at (c ∷ id) named = refl

  pub list-at :
      (entries : Folder)
      → filter.camera_id ≢ []
      → folder_of (camera_dir filter.camera_id) t ≡ ok entries
      → list json filter (at t)
        ≡ (ok (limited filter.limit (camera_segments filter.camera_id entries)), at t)
  unfolding list ctx_err camera_segments
  list-at entries named there =
      rw (chosen_cameras-at filter.camera_id named)
        (rw (list_cameras-at filter.camera_id entries there) refl)
