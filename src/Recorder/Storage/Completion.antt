-- ===== src/Recorder/Storage/Completion.antt =====
-- A segment from BeginSegment over its writes to CompleteSegment, and what Open then reads.
use instachron.Base.{
  ℕ, ap, ◌≡◌, refl, sym, ◌∙◌, arith, true, none, some, List, ok, if◌then◌else◌, length,
}
use instachron.Text.{Text, codes, text_eq_iff}
use instachron.Recorder.Storage.{SegmentInfo, camera_dir, tmp_dir, json_name}
use instachron.Recorder.Storage.Disk.{file, link, Tree, item, put_item, drop_item, fine}
use instachron.Recorder.Storage.Local.{
  Json, local, write_metadata, latest_link, complete_writer, finished, describe,
}
use instachron.Recorder.Storage.Changes.{
  at, has_folder, same_path, item-put_item, item-drop_item, has_folder-put_item,
  has_folder-drop_item,
}
use instachron.Recorder.Storage.Effects.{write-at, rename-at, stat_at, symlink-at}
use instachron.Recorder.Storage.Names.{text_eq-false, json_name-ne}
use instachron.Recorder.Storage.Pruning.{
  removed_tree, removed_tree_fine, remove_at, has_folder-removed_tree,
}

abbrev latest : Text
latest = codes "latest.mp4"

-- The link to the newest segment replaces the old one.
latest_link-at :
    (info : SegmentInfo) (t : Tree)
    → has_folder (camera_dir info.camera_id) t ≡ true
    → (t' : Tree) × (latest_link info (at t) ≡ (ok tt, at t'))
      × ((d n : Text)
          → item d n t' ≡ (
              if same_path (camera_dir info.camera_id) latest d n
              then some (link info.file_name)
              else item d n t))
unfolding latest_link
latest_link-at info t h =
    let d = camera_dir info.camera_id in
    let t1 = removed_tree d latest fine t in
    let there : has_folder d t1 ≡ true = has_folder-removed_tree d latest d t ∙ h in
    let free : item d latest t1 ≡ none =
      ground (
        arith,
        removed_tree_fine d latest d latest t,
        text_eq_iff d d,
        text_eq_iff latest latest,
      ) in
    (
      put_item d latest (link info.file_name) t1,
      rw (remove_at d latest t) (rw (symlink-at info.file_name d latest t1 there free) refl),
      λ d' n'. ground (
        arith,
        item-put_item d latest d' n' (link info.file_name) t1 there,
        removed_tree_fine d latest d' n' t,
      ),
    )

module _ (json : Json) (info : SegmentInfo) (tmp : Text) (end : ℕ) (b : List ℕ) where
  abbrev metadata_bytes : List ℕ
  metadata_bytes = json.encode (finished info end (length b))

  -- The item at a path behind a completed segment, from the one before.
  abbrev pub AfterCompletion : Tree → Tree → Type 0
  AfterCompletion t t' =
      let cam = camera_dir info.camera_id in
      (d n : Text)
      → item d n t' ≡ (
          if same_path cam latest d n
          then some (link info.file_name)
          else if same_path cam (json_name info.file_name) d n
          then some (file metadata_bytes)
          else if same_path cam info.file_name d n
          then some (file b)
          else if same_path tmp_dir tmp d n
          then none
          else item d n t)

  -- The video in its place.
  moved : Tree → Tree
  moved t = put_item (camera_dir info.camera_id) info.file_name (file b) (drop_item tmp_dir tmp t)

  -- The video and its metadata in their places.
  described : Tree → Tree
  unfolding moved
  described t =
      put_item (camera_dir info.camera_id) (json_name info.file_name) (file metadata_bytes)
        (moved t)

  module _ (t : Tree) (there : has_folder (camera_dir info.camera_id) t ≡ true)
      (free : item (camera_dir info.camera_id) info.file_name t ≡ none)
      (free_json : item (camera_dir info.camera_id) (json_name info.file_name) t ≡ none) where
    has_folder-moved : (d : Text) → has_folder d (moved t) ≡ has_folder d t
    unfolding moved
    has_folder-moved d =
        let kept = has_folder-drop_item tmp_dir tmp (camera_dir info.camera_id) t ∙ there in
        has_folder-put_item (camera_dir info.camera_id) info.file_name d (file b)
          (drop_item tmp_dir tmp t) kept
        ∙ has_folder-drop_item tmp_dir tmp d t

    item-moved :
        (d n : Text)
        → item d n (moved t) ≡ (
            if same_path (camera_dir info.camera_id) info.file_name d n
            then some (file b)
            else if same_path tmp_dir tmp d n
            then none
            else item d n t)
    unfolding moved
    item-moved d n =
        let kept = has_folder-drop_item tmp_dir tmp (camera_dir info.camera_id) t ∙ there in
        item-put_item (camera_dir info.camera_id) info.file_name d n (file b)
          (drop_item tmp_dir tmp t) kept
        ∙ ap
            (λ x.
              if same_path (camera_dir info.camera_id) info.file_name d n then some (file b) else x)
            (item-drop_item tmp_dir tmp d n t)

    item-described :
        (d n : Text)
        → item d n (described t) ≡ (
            if same_path (camera_dir info.camera_id) (json_name info.file_name) d n
            then some (file metadata_bytes)
            else item d n (moved t))
    unfolding described
    item-described d n =
        item-put_item (camera_dir info.camera_id) (json_name info.file_name) d n
          (file metadata_bytes) (moved t) (has_folder-moved (camera_dir info.camera_id) ∙ there)

    has_folder-described : (d : Text) → has_folder d (described t) ≡ has_folder d t
    unfolding described
    has_folder-described d =
        has_folder-put_item (camera_dir info.camera_id) (json_name info.file_name) d
          (file metadata_bytes) (moved t) (has_folder-moved (camera_dir info.camera_id) ∙ there)
        ∙ has_folder-moved d

    video_there : item (camera_dir info.camera_id) info.file_name (moved t) ≡ some (file b)
    video_there = ground (
      arith,
      item-moved (camera_dir info.camera_id) info.file_name,
      text_eq_iff (camera_dir info.camera_id) (camera_dir info.camera_id),
      text_eq_iff info.file_name info.file_name,
    )

    json_free : item (camera_dir info.camera_id) (json_name info.file_name) (moved t) ≡ none
    json_free = ground (
      arith,
      item-moved (camera_dir info.camera_id) (json_name info.file_name),
      free_json,
      text_eq-false info.file_name (json_name info.file_name)
          (λ h. json_name-ne info.file_name (sym h)),
    )

    describe-at :
        (t' : Tree) × (describe json (finished info end (length b)) (at (moved t))
          ≡ (ok (finished info end (length b)), at t'))
        × AfterCompletion t t'
    unfolding describe write_metadata described
    describe-at =
        let cam = camera_dir info.camera_id in
        let (t', run, items) =
          latest_link-at (finished info end (length b)) (described t)
            (has_folder-described cam ∙ there) in
        (
          t',
          rw
              (write-at cam (json_name info.file_name) metadata_bytes (moved t)
                (has_folder-moved cam ∙ there) json_free)
              (rw run refl),
          λ d n. items d n ∙ ground (arith, item-described d n, item-moved d n),
        )

    pub complete_writer-at :
        (size : ℕ)
        → item tmp_dir tmp t ≡ some (file b)
        → (t' : Tree) × (complete_writer json info
              (local tmp (camera_dir info.camera_id) info.file_name size)
              end
              (at t)
            ≡ (ok (finished info end (length b)), at t'))
          × AfterCompletion t t'
    unfolding complete_writer moved
    complete_writer-at size e =
        let cam = camera_dir info.camera_id in
        let (t', run, items) = describe-at in
        (
          t',
          rw (rename-at tmp_dir tmp cam info.file_name (file b) t e there free)
              (rw (stat_at cam info.file_name b (moved t) video_there) run),
          items,
        )
