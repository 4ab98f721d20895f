-- ===== src/Recorder/Storage/Recorded.antt =====
-- A segment from BeginSegment over the encoder's writes to CompleteSegment, and what Open reads.
use instachron.Base.{
  ℕ, ap, ◌+◌, ◌≡◌, refl, sym, ◌∙◌, arith, true, false, Option, none, some, List, [], ◌∷◌, ◌++◌,
  Result, ok, err, if◌then◌else◌, length, length-append,
}
use mathlib.Core.List.{append_assoc, append-nil}
use instachron.Text.{Text, codes, text_eq, text_eq_iff}
use instachron.Recorder.Storage.{
  SegmentInfo, camera_dir, tmp_dir, tmp_name, json_name, segment_file_name, download_url,
}
use instachron.Recorder.Storage.Disk.{FsError, file, Tree, World, M, ◌>>=◌, item, put_item, ctx_err}
use instachron.Recorder.Storage.Local.{
  Json, Writer, local, PendingSegment, opened, begin_segment, write, complete_segment,
  read_metadata, open_segment, finished,
}
use instachron.Recorder.Storage.Changes.{
  at, has_folder, same_path, item-put_item, has_folder-put_item,
}
use instachron.Recorder.Storage.Effects.{NoFile, create-at, append_at, read_at, mkdir_at}
use instachron.Recorder.Storage.Names.{
  text_eq-false, camera_dir-ne-tmp_dir, json_name-ne, json_name-ne-latest,
  segment_file_name-ne-latest, segment_file_name-valid,
}
use instachron.Recorder.Storage.Completion.{AfterCompletion, complete_writer-at}

abbrev next_write :
    (Writer → World → Option FsError × Writer × World)
    → (ℕ × Option FsError) × Writer × World
    → Option FsError × Writer × World
next_write more ((n, none), writer, w) = more writer w
next_write more ((n, some e), writer, w) = (some e, writer, w)

-- The writes of an encoder, one after the other, up to the first error.
unfoldable pub write_all : List (List ℕ) → Writer → World → Option FsError × Writer × World
write_all [] writer w = (none, writer, w)
write_all (b ∷ bs) writer w = next_write (write_all bs) (write b writer w)

unfoldable pub concat : List (List ℕ) → List ℕ
concat [] = []
concat (b ∷ bs) = b ++ concat bs

-- Where the items of a tree are those of another but for one file.
abbrev pub FileAt : Text → Text → List ℕ → Tree → Tree → Type 0
FileAt d n b t t' =
    ((d' n' : Text) → item d' n' t' ≡ (if same_path d n d' n' then some (file b) else item d' n' t))

write-at :
    (b : List ℕ) (tmp dir name : Text) (size : ℕ) (old : List ℕ) (t : Tree)
    → item tmp_dir tmp t ≡ some (file old)
    → write b (local tmp dir name size) (at t) ≡ (
      (length b, none),
      local tmp dir name (size + length b),
      at (put_item tmp_dir tmp (file (old ++ b)) t),
    )
unfolding write
write-at b tmp dir name size old t e = rw (append_at tmp_dir tmp old b t e) refl

pub write_all-at :
    (bs : List (List ℕ)) (tmp dir name : Text) (size : ℕ) (old : List ℕ) (t : Tree)
    → has_folder tmp_dir t ≡ true
    → item tmp_dir tmp t ≡ some (file old)
    → (t' : Tree) × (write_all bs (local tmp dir name size) (at t)
        ≡ (none, local tmp dir name (size + length (concat bs)), at t'))
      × FileAt tmp_dir tmp (old ++ concat bs) t t'
      × ((d : Text) → has_folder d t' ≡ has_folder d t)
unfolding write_all concat
write_all-at [] tmp dir name size old t there e = (
  t,
  ap (λ n. (none, local tmp dir name n, at t)) (omega arith),
  λ d n. ground (arith, append-nil old, e, text_eq_iff tmp_dir d, text_eq_iff tmp n),
  λ d. refl,
)
write_all-at (b ∷ bs) tmp dir name size old t there e =
    let t1 = put_item tmp_dir tmp (file (old ++ b)) t in
    let items = λ (d n : Text). item-put_item tmp_dir tmp d n (file (old ++ b)) t there in
    let kept = λ (d : Text). has_folder-put_item tmp_dir tmp d (file (old ++ b)) t there in
    let now : item tmp_dir tmp t1 ≡ some (file (old ++ b)) =
      ground (arith, items tmp_dir tmp, text_eq_iff tmp_dir tmp_dir, text_eq_iff tmp tmp) in
    let (t', run, after, folders) =
      write_all-at bs tmp dir name (size + length b) (old ++ b) t1 (kept tmp_dir ∙ there) now in
    let total : size + length b + length (concat bs) ≡ size + length (b ++ concat bs) =
      omega (arith, length-append b (concat bs)) in
    (
      t',
      rw (write-at b tmp dir name size old t e)
          (run ∙ ap (λ n. (none, local tmp dir name n, at t')) total),
      λ d n. ground (arith, after d n, items d n, append_assoc old b (concat bs)),
      λ d. folders d ∙ kept d,
    )

module _ (id : Text) (start output_fps timelapse_factor : ℕ) where
  abbrev name : Text
  name = segment_file_name start

  begin_segment_at :
      (t : Tree)
      → NoFile (camera_dir id) t
      → NoFile tmp_dir t
      → item tmp_dir (tmp_name id name) t ≡ none
      → (t' : Tree) × (begin_segment id start output_fps timelapse_factor (at t)
          ≡ (ok (opened id name start output_fps timelapse_factor), at t'))
        × FileAt tmp_dir (tmp_name id name) [] t t'
        × (has_folder (camera_dir id) t' ≡ true)
        × (has_folder tmp_dir t' ≡ true)
  unfolding begin_segment ctx_err
  begin_segment_at t no_file no_file' free =
      let tmp = tmp_name id name in
      let (t1, made, folders1, items1, others) = mkdir_at (camera_dir id) t no_file in
      let (t2, made', folders2, items2, others') = mkdir_at tmp_dir t1 (others tmp_dir no_file') in
      let tmp_there : has_folder tmp_dir t2 ≡ true =
        ground (arith, folders2 tmp_dir, text_eq_iff tmp_dir tmp_dir) in
      let cam_there : has_folder (camera_dir id) t2 ≡ true = ground (
        arith,
        folders2 (camera_dir id),
        folders1 (camera_dir id),
        text_eq_iff (camera_dir id) (camera_dir id),
      ) in
      let free2 : item tmp_dir tmp t2 ≡ none = items2 tmp_dir tmp ∙ (items1 tmp_dir tmp ∙ free) in
      (
        put_item tmp_dir tmp (file []) t2,
        rw made (rw made' (rw (create-at tmp_dir tmp t2 tmp_there free2) refl)),
        λ d n.
            ground
              (arith, item-put_item tmp_dir tmp d n (file []) t2 tmp_there, items2 d n, items1 d n),
        has_folder-put_item tmp_dir tmp (camera_dir id) (file []) t2 tmp_there ∙ cam_there,
        has_folder-put_item tmp_dir tmp tmp_dir (file []) t2 tmp_there ∙ tmp_there,
      )

module _ (json : Json) (id : Text) (start output_fps timelapse_factor end : ℕ)
    (chunks : List (List ℕ)) where
  abbrev info : SegmentInfo
  info = (opened id (segment_file_name start) start output_fps timelapse_factor).info

  abbrev pub done : SegmentInfo
  done = finished info end (length (concat chunks))

  abbrev complete_written :
      PendingSegment → Option FsError × Writer × World → Result FsError SegmentInfo × World
  complete_written p (none, writer, w) = complete_segment json (record p { writer = writer }) end w
  complete_written p (some e, writer, w) = (err e, w)

  -- BeginSegment, the writes, and CompleteSegment.
  unfoldable pub record_segment : M SegmentInfo
  record_segment = do
    p ← begin_segment id start output_fps timelapse_factor
    λ w. complete_written p (write_all chunks p.writer w)

  open_at :
      (t t' : Tree)
      → AfterCompletion json info (tmp_name id (segment_file_name start)) end (concat chunks) t t'
      → json.decode (json.encode done) ≡ some done
      → open_segment json id (segment_file_name start) (at t')
        ≡ (ok (concat chunks, record done { download_url = download_url done }), at t')
  unfolding open_segment read_metadata ctx_err
  open_at t t' items law =
      let cam = camera_dir id in
      let n = segment_file_name start in
      let json_item : item cam (json_name n) t' ≡ some (file (json.encode done)) = ground (
        arith,
        items cam (json_name n),
        text_eq_iff cam cam,
        text_eq_iff (json_name n) (json_name n),
        text_eq-false (codes "latest.mp4") (json_name n) (λ h. json_name-ne-latest n (sym h)),
      ) in
      let video : item cam n t' ≡ some (file (concat chunks)) = ground (
        arith,
        items cam n,
        text_eq_iff cam cam,
        text_eq_iff n n,
        text_eq-false (codes "latest.mp4") n (λ h. segment_file_name-ne-latest start (sym h)),
        text_eq-false (json_name n) n (json_name-ne n),
      ) in
      rw (segment_file_name-valid start) (
        rw (read_at cam (json_name n) (json.encode done) t' json_item)
          (rw law (rw (read_at cam n (concat chunks) t' video) refl)))

  -- A segment that is begun, written in any number of chunks and completed while nothing fails is
  -- opened again under its name with exactly the bytes written, in order, and its metadata with
  -- the download URL. Behind it the disk has the video, its metadata and the link latest.mp4 in
  -- the directory of the camera, no temporary file, and every other path as before. Before it, no
  -- file must have the name of one of the two directories, nothing must be at the temporary path,
  -- the video path and the metadata path, and the codec must read back this metadata.
  pub open-record_segment :
      (t : Tree)
      → NoFile (camera_dir id) t
      → NoFile tmp_dir t
      → item tmp_dir (tmp_name id (segment_file_name start)) t ≡ none
      → item (camera_dir id) (segment_file_name start) t ≡ none
      → item (camera_dir id) (json_name (segment_file_name start)) t ≡ none
      → json.decode (json.encode done) ≡ some done
      → (t' : Tree) × (record_segment (at t) ≡ (ok done, at t'))
        × AfterCompletion json info (tmp_name id (segment_file_name start)) end (concat chunks) t t'
        × (open_segment json id (segment_file_name start) (at t')
            ≡ (ok (concat chunks, record done { download_url = download_url done }), at t'))
  unfolding record_segment complete_segment ctx_err
  open-record_segment t no_file no_file' free_tmp free free_json law =
      let cam = camera_dir id in
      let n = segment_file_name start in
      let tmp = tmp_name id n in
      let (t1, begun, items1, cam1, tmp1) =
        begin_segment_at id start output_fps timelapse_factor t no_file no_file' free_tmp in
      let empty : item tmp_dir tmp t1 ≡ some (file []) =
        ground (arith, items1 tmp_dir tmp, text_eq_iff tmp_dir tmp_dir, text_eq_iff tmp tmp) in
      let (t2, wrote, items2, kept) = write_all-at chunks tmp cam n 0 [] t1 tmp1 empty in
      let video : item tmp_dir tmp t2 ≡ some (file (concat chunks)) =
        ground (arith, items2 tmp_dir tmp, text_eq_iff tmp_dir tmp_dir, text_eq_iff tmp tmp) in
      let elsewhere : text_eq tmp_dir cam ≡ false =
        text_eq-false tmp_dir cam (λ h. camera_dir-ne-tmp_dir id (sym h)) in
      let free2 : item cam n t2 ≡ none = ground (arith, items2 cam n, items1 cam n, elsewhere) in
      let free_json2 : item cam (json_name n) t2 ≡ none =
        ground (arith, items2 cam (json_name n), items1 cam (json_name n), elsewhere) in
      let (t3, completed, items3) =
        complete_writer-at json info tmp end (concat chunks) t2 (kept cam ∙ cam1) free2 free_json2
          (0 + length (concat chunks)) video in
      let after : AfterCompletion json info tmp end (concat chunks) t t3 =
        (λ d m. items3 d m ∙ ground (arith, items2 d m, items1 d m)) in
      (t3, rw begun (rw wrote completed), after, open_at t t3 after law)
