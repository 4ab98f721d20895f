-- ===== src/Recorder/Storage/Oldest.antt =====
-- Prune: it removes the oldest segments of a camera and keeps the newest.
use instachron.Base.{
  ℕ, zero, suc, ◌-◌, ◌≤◌, ◌<◌, ◌≡◌, refl, arith, false, List, [], ◌∷◌, ◌++◌, Result, ok, err,
  if◌then◌else◌, Bool-cases, inl, inr, length, take, drop, leb, All, ◌||◌, ◌==◌, min,
  take-append-drop, length-drop,
}
use mathlib.Core.List.{Perm}
use mathlib.Core.List.Perm
use mathlib.Core.Path.{subst}
use instachron.Text.{Text}
use instachron.Sorting.{sort, Ascending, sort-perm, length-sort, sort-Ascending}
use instachron.Recorder.Storage.{SegmentInfo, camera_dir}
use instachron.Recorder.Storage.Disk.{FsError, Tree, World, and_then}
use instachron.Recorder.Storage.Local.{Json, list, prune, older, whole_camera, remove_old}
use instachron.Recorder.Storage.Changes.{at}
use instachron.Recorder.Storage.Reading.{list-Reads}
use instachron.Recorder.Storage.Pruning.{
  named, EntryNames, KeptOrGone, Gone, remove_segments-KeptOrGone, remove_segments-Gone,
}

-- The segments of a listing that are over the number to keep, oldest first.
unfoldable pub doomed : ℕ → Result FsError (List SegmentInfo) → List SegmentInfo
doomed keep (err e) = []
doomed keep (ok files) =
    if keep == 0 || leb (length files) keep
    then []
    else take (length files - keep) (sort older files)

remove_old-KeptOrGone :
    (root : List Text) (dir : Text) (keep : ℕ) (r : Result FsError (List SegmentInfo) × World)
    → (keep == 0) ≡ false
    → EntryNames (doomed keep r.0)
    → KeptOrGone dir
        (λ n. named n (doomed keep r.0))
        r.1.tree
        (and_then (remove_old root dir keep) r).1.tree
unfolding doomed
remove_old-KeptOrGone root dir keep (err e, w) pos h d n = inl refl
remove_old-KeptOrGone root dir keep (ok files, w) pos h d n =
    elim (Bool-cases (leb (length files) keep)) [
      | inl few ↦ rw few (inl refl)
      | inr many ↦
          let old = take (length files - keep) (sort older files) in
          let named_old : EntryNames old = rw (many, pos) at h in
          rw (many, pos) (remove_segments-KeptOrGone root dir old w named_old d n)
    ]

before_listing :
    (dir : Text) (infos : List SegmentInfo) {s t : Tree} (t' : Tree)
    → s ≡ t
    → KeptOrGone dir (λ n. named n infos) s t'
    → KeptOrGone dir (λ n. named n infos) t t'
before_listing dir infos t' e h = subst (λ x. KeptOrGone dir (λ n. named n infos) x t') e h

-- Whatever fails while Prune runs, and whatever it is asked to keep, as long as the stored file
-- name of each of the oldest listed segments beyond those to keep is a plain entry name, without
-- a slash and neither empty nor . or ..: a path keeps its item, or it is the video or the
-- metadata file, in the directory of the camera, of one of the oldest listed segments beyond
-- those to keep, and is gone.
pub prune-KeptOrGone :
    (json : Json) (root : List Text) (id : Text) (keep : ℕ) (w : World)
    → EntryNames (doomed keep (list json (whole_camera id) w).0)
    → KeptOrGone
        (camera_dir id)
        (λ n. named n (doomed keep (list json (whole_camera id) w).0))
        w.tree
        (prune json root id keep w).1.tree
unfolding prune
prune-KeptOrGone json root id keep w h d n = elim (Bool-cases (keep == 0)) [
  | inl e ↦ rw e (inl refl)
  | inr e ↦
      let listing = list json (whole_camera id) w in
      let after = remove_old-KeptOrGone root (camera_dir id) keep listing e h in
      let same = ((list-Reads json (whole_camera id)).keeps w).0 in
      rw e (before_listing (camera_dir id) (doomed keep listing.0) _ same after d n)
]

abbrev pub NotAfter : SegmentInfo → SegmentInfo → Type 0
NotAfter a b = a.started_at ≤ b.started_at

-- Each of the first is as old as each of the second.
abbrev pub OlderThan : List SegmentInfo → List SegmentInfo → Type 0
OlderThan xs ys = All (λ x. All (NotAfter x) ys) xs

NotAfter-head :
    (x y : SegmentInfo) (ys : List SegmentInfo)
    → NotAfter x y
    → Ascending older (y ∷ ys)
    → All (NotAfter x) (y ∷ ys)
NotAfter-head x y [] h s = (h, tt)
NotAfter-head x y (z ∷ zs) h s = (h, NotAfter-head x z zs (ground arith) s.1)

NotAfter-tail :
    (x : SegmentInfo) (ys : List SegmentInfo) → Ascending older (x ∷ ys) → All (NotAfter x) ys
NotAfter-tail x [] s = tt
NotAfter-tail x (y ∷ ys) s = NotAfter-head x y ys (ground arith) s.1

Ascending-tail :
    (x : SegmentInfo) (ys : List SegmentInfo) → Ascending older (x ∷ ys) → Ascending older ys
Ascending-tail x [] s = tt
Ascending-tail x (y ∷ ys) s = s.1

All-drop {ℓ κ} : {A : Type ℓ} (P : A → Type κ) (k : ℕ) (xs : List A) → All P xs → All P (drop k xs)
All-drop P zero xs h = h
All-drop P (suc k) [] h = tt
All-drop P (suc k) (x ∷ xs) h = All-drop P k xs h.1

take-OlderThan :
    (k : ℕ) (xs : List SegmentInfo) → Ascending older xs → OlderThan (take k xs) (drop k xs)
take-OlderThan zero xs s = tt
take-OlderThan (suc k) [] s = tt
take-OlderThan (suc k) (x ∷ xs) s =
    (All-drop (NotAfter x) k xs (NotAfter-tail x xs s), take-OlderThan k xs (Ascending-tail x xs s))

-- When nothing fails, and the stored file name of each segment to remove is a plain entry name,
-- without a slash and neither empty nor . or .., Prune with a positive number to keep removes the
-- video and the metadata file of some of the segments that List gives for the camera, and no
-- other path changes. Those segments and the kept ones are together the listed ones; as many are
-- kept as allowed, or all when there are fewer; and no removed one started later than a kept one.
pub prune_oldest :
    (json : Json) (root : List Text) (id : Text) (keep : ℕ) (t : Tree) (files : List SegmentInfo)
    → 0 < keep
    → list json (whole_camera id) (at t) ≡ (ok files, at t)
    → EntryNames (doomed keep (ok files))
    → let gone = doomed keep (ok files) in
      (kept : List SegmentInfo) × (t' : Tree) × (prune json root id keep (at t) ≡ (ok tt, at t'))
      × Gone (camera_dir id) (λ n. named n gone) t t'
      × Perm (gone ++ kept) files
      × (length kept ≡ min keep (length files))
      × OlderThan gone kept
unfolding prune doomed
prune_oldest json root id keep t files pos e h = elim (Bool-cases (leb (length files) keep)) [
  | inl few ↦
      let some_kept : (keep == 0) ≡ false = ground arith in
      (
        files,
        t,
        rw (some_kept, e) (rw few refl),
        rw (some_kept, few) (λ d n. unfold named in ground arith),
        rw (some_kept, few) (Perm.refl files),
        ground arith,
        rw (some_kept, few) tt,
      )
  | inr many ↦
      let some_kept : (keep == 0) ≡ false = ground arith in
      let n = length files - keep in
      let sorted = sort older files in
      let (t', run, gone) =
        remove_segments-Gone root (camera_dir id) (take n sorted) t (rw (some_kept, many) at h) in
      (
        drop n sorted,
        t',
        rw (some_kept, e) (rw many run),
        rw (some_kept, many) gone,
        rw (some_kept, many) (rw (take-append-drop n sorted) (sort-perm older files)),
        ground (arith, length-drop n sorted, length-sort older files),
        rw (some_kept, many)
            (take-OlderThan n sorted (sort-Ascending older (λ a b h. ground arith) files)),
      )
]
