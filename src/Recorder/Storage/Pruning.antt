-- ===== src/Recorder/Storage/Pruning.antt =====
-- Prune: which files it removes, and that it touches nothing else, whatever calls fail.
use instachron.Base.{
  ℕ, ap, ◌≡◌, refl, ◌∙◌, arith, Bool, true, false, ◌&&◌, ◌||◌, none, List, [], ◌∷◌, Result, ok, err,
  if◌then◌else◌, Bool-cases, inl, inr, ◌⊎◌, Option-cases, All,
}
use instachron.Text.{Text, text_eq, text_eq_iff, text_instance}
use instachron.Recorder.Storage.{SegmentInfo, json_name}
use instachron.Recorder.Storage.Disk.{
  FsError, Tree, World, ignore, Outcome, change, settle, unchanged, removed, fine, failed,
  next_outcome, later, item, remove_file, remove_path-entry, ctx_err, M, ◌>>◌, return,
}
use instachron.Recorder.Storage.Paths.{IsEntryName, join-IsEntryName, with_suffix}
use instachron.Recorder.Storage.Local.{remove_segments}
use instachron.Recorder.Storage.Changes.{
  at, same_path, item-drop_item, has_folder, has_folder-drop_item,
}

-- The loop of Prune over file names that are entries of the directory.
remove_named : Text → List SegmentInfo → M (Unit {0})
remove_named dir [] = return tt
remove_named dir (info ∷ infos) =
    let rest = remove_named dir infos in
    do
      ctx_err
      ignore (remove_file dir info.file_name)
      ignore (remove_file dir (json_name info.file_name))
      rest

-- The metadata name an entry of their directory.
abbrev pub EntryNames : List SegmentInfo → Type 0
EntryNames infos = All (λ info. IsEntryName info.file_name) infos

remove_segments-remove_named :
    (root : List Text) (dir : Text) (infos : List SegmentInfo)
    → EntryNames infos
    → remove_segments root (dir ∷ root) infos ≡ remove_named dir infos
unfolding remove_segments remove_named with_suffix
remove_segments-remove_named root dir [] h = refl
remove_segments-remove_named root dir (info ∷ infos) h =
    rw
      (
        join-IsEntryName (dir ∷ root) info.file_name h.0,
        remove_path-entry root dir info.file_name,
        remove_path-entry root dir (json_name info.file_name),
        remove_segments-remove_named root dir infos h.1,
      )
      refl

-- The names that the removal of some segments concerns.
unfoldable pub named : Text → List SegmentInfo → Bool
named n [] = false
named n (info ∷ infos) =
    let rest = named n infos in
    text_eq info.file_name n || (text_eq (json_name info.file_name) n || rest)

-- A path keeps its item, or it is one of the named ones in the directory and now has none.
abbrev pub KeptOrGone : Text → (Text → Bool) → Tree → Tree → Type 0
KeptOrGone dir names t t' =
    (d n : Text)
    → (item d n t' ≡ item d n t)
      ⊎ ((text_eq dir d ≡ true) × (names n ≡ true) × (item d n t' ≡ none))

-- Exactly the named paths in the directory have lost their item.
abbrev pub Gone : Text → (Text → Bool) → Tree → Tree → Type 0
Gone dir names t t' =
    (d n : Text) → item d n t' ≡ (if text_eq dir d && names n then none else item d n t)

Outcome-cases : (o : Outcome) → (o ≡ fine) ⊎ ((junk : List ℕ) × (o ≡ failed junk))
Outcome-cases fine = inl refl
Outcome-cases (failed junk) = inr (junk, refl)

-- What os.Remove makes of the disk.
pub removed_tree : Text → Text → Outcome → Tree → Tree
removed_tree d n o t = (change unchanged (removed d n) o [] t).1.tree

settle_lem :
    {A : Type 0} (t : Tree) (os : List Outcome) (r : Result FsError (A × Tree))
    → (settle t os r).1 ≡ record { tree = (settle t [] r).1.tree; outcomes = os }
settle_lem t os (ok (a, t')) = refl
settle_lem t os (err e) = refl

remove_file_lem :
    (d n : Text) (o : Outcome) (os : List Outcome) (t : Tree)
    → (change unchanged (removed d n) o os t).1
      ≡ record { tree = removed_tree d n o t; outcomes = os }
unfolding removed_tree
remove_file_lem d n (failed junk) os t = refl
remove_file_lem d n fine os t = settle_lem t os (removed d n t)

-- A removal takes the item of one path, if nothing fails.
pub removed_tree_fine :
    (d n d' n' : Text) (t : Tree)
    → item d' n' (removed_tree d n fine t) ≡ (if same_path d n d' n' then none else item d' n' t)
unfolding removed_tree
removed_tree_fine d n d' n' t = elim (Option-cases (item d n t)) [
  | inl e ↦ rw (e, removed_tree) (ground (arith, e, text_eq_iff d d', text_eq_iff n n'))
  | inr (i, e) ↦ rw (e, removed_tree) (item-drop_item d n d' n' t)
]

removed_tree_any :
    (d n d' n' : Text) (t : Tree) (o : Outcome)
    → (item d' n' (removed_tree d n o t) ≡ item d' n' t)
      ⊎ ((same_path d n d' n' ≡ true) × (item d' n' (removed_tree d n o t) ≡ none))
removed_tree_any d n d' n' t (failed junk) = inl (unfold removed_tree in refl)
removed_tree_any d n d' n' t fine = elim (Bool-cases (same_path d n d' n')) [
  | inl same ↦ inr (same, rw (removed_tree_fine, same))
  | inr other ↦ inl (rw (removed_tree_fine, other))
]

-- One round of the loop that removes.
round_trees : Text → SegmentInfo → Outcome → Outcome → Tree → Tree
round_trees dir info o o' t =
    removed_tree dir (json_name info.file_name) o' (removed_tree dir info.file_name o t)

round_lem :
    (dir : Text) (info : SegmentInfo) (w : World)
    → (ignore
        (remove_file dir (json_name info.file_name))
        (ignore (remove_file dir info.file_name) w).1).1
      ≡ record {
        tree =
            round_trees dir info (next_outcome w.outcomes) (next_outcome (later w.outcomes)) w.tree;
        outcomes = later (later w.outcomes);
      }
unfolding remove_file round_trees
round_lem dir info w =
    rw (remove_file_lem dir info.file_name (next_outcome w.outcomes) (later w.outcomes) w.tree)
      (remove_file_lem dir (json_name info.file_name) (next_outcome (later w.outcomes)) _ _)

-- The world behind one round.
abbrev round : Text → SegmentInfo → Outcome → Outcome → List Outcome → Tree → World
round dir info o o' os t = record { tree = round_trees dir info o o' t; outcomes = os }

remove_named-round :
    (dir : Text) (info : SegmentInfo) (infos : List SegmentInfo) (w : World)
    → next_outcome w.outcomes ≡ fine
    → let os = later w.outcomes in
      remove_named dir (info ∷ infos) w
      ≡ remove_named dir infos
          (round dir info (next_outcome os) (next_outcome (later os)) (later (later os)) w.tree)
unfolding remove_named ctx_err
remove_named-round dir info infos w e =
    rw (e, remove_named)
      (ap (remove_named dir infos) (round_lem dir info (record w { outcomes = later w.outcomes })))

remove_named_stopped :
    (dir : Text) (info : SegmentInfo) (infos : List SegmentInfo) (w : World) (junk : List ℕ)
    → next_outcome w.outcomes ≡ failed junk
    → (remove_named dir (info ∷ infos) w).1.tree ≡ w.tree
unfolding remove_named ctx_err
remove_named_stopped dir info infos w junk e = rw (e, remove_named)

abbrev both_names : SegmentInfo → Text → Bool
both_names info n = text_eq info.file_name n || text_eq (json_name info.file_name) n

round_any :
    (dir : Text) (info : SegmentInfo) (o o' : Outcome) (t : Tree)
    → KeptOrGone dir (both_names info) t (round_trees dir info o o' t)
unfolding round_trees
round_any dir info o o' t d n = ground (
  arith,
  removed_tree_any dir info.file_name d n t o,
  removed_tree_any dir (json_name info.file_name) d n (removed_tree dir info.file_name o t) o',
)

round_fine :
    (dir : Text) (info : SegmentInfo) (t : Tree)
    → Gone dir (both_names info) t (round_trees dir info fine fine t)
unfolding round_trees
round_fine dir info t d n = ground (
  arith,
  removed_tree_fine dir info.file_name d n t,
  removed_tree_fine dir (json_name info.file_name) d n (removed_tree dir info.file_name fine t),
)

-- Whatever fails, the loop removes nothing but the files of its segments.
remove_named-KeptOrGone :
    (dir : Text) (infos : List SegmentInfo) (w : World)
    → KeptOrGone dir (λ n. named n infos) w.tree (remove_named dir infos w).1.tree
unfolding remove_named named
remove_named-KeptOrGone dir [] w d n = inl refl
remove_named-KeptOrGone dir (info ∷ infos) w d n = elim (Outcome-cases (next_outcome w.outcomes)) [
  | inr (junk, e) ↦ inl (ap (item d n) (remove_named_stopped dir info infos w junk e))
  | inl e ↦
      let os = later w.outcomes in
      let o = next_outcome os in
      let o' = next_outcome (later os) in
      let w' = round dir info o o' (later (later os)) w.tree in
      let rest = remove_named-KeptOrGone dir infos w' d n in
      rw (remove_named-round dir info infos w e)
        (ground (arith, rest, round_any dir info o o' w.tree d n))
]

pub remove_segments-KeptOrGone :
    (root : List Text) (dir : Text) (infos : List SegmentInfo) (w : World)
    → EntryNames infos
    → KeptOrGone dir (λ n. named n infos) w.tree (remove_segments root (dir ∷ root) infos w).1.tree
remove_segments-KeptOrGone root dir infos w h =
    rw (remove_segments-remove_named root dir infos h) (remove_named-KeptOrGone dir infos w)

-- When nothing fails, it removes all of them.
remove_named-Gone :
    (dir : Text) (infos : List SegmentInfo) (t : Tree)
    → (t' : Tree) × (remove_named dir infos (at t) ≡ (ok tt, at t'))
      × Gone dir (λ n. named n infos) t t'
unfolding remove_named named
remove_named-Gone dir [] t = (t, refl, λ d n. ground arith)
remove_named-Gone dir (info ∷ infos) t =
    let (t', e, gone) = remove_named-Gone dir infos (round_trees dir info fine fine t) in
    (
      t',
      remove_named-round dir info infos (at t) refl ∙ e,
      λ d n. ground (arith, gone d n, round_fine dir info t d n),
    )

pub remove_segments-Gone :
    (root : List Text) (dir : Text) (infos : List SegmentInfo) (t : Tree)
    → EntryNames infos
    → (t' : Tree) × (remove_segments root (dir ∷ root) infos (at t) ≡ (ok tt, at t'))
      × Gone dir (λ n. named n infos) t t'
remove_segments-Gone root dir infos t h =
    rw (remove_segments-remove_named root dir infos h) (remove_named-Gone dir infos t)

pub has_folder-removed_tree :
    (d n d' : Text) (t : Tree) → has_folder d' (removed_tree d n fine t) ≡ has_folder d' t
unfolding removed_tree
has_folder-removed_tree d n d' t = elim (Option-cases (item d n t)) [
  | inl e ↦ rw (e, removed_tree)
  | inr (i, e) ↦ rw (e, removed_tree) (has_folder-drop_item d n d' t)
]

pub remove_at : (d n : Text) (t : Tree) → (remove_file d n (at t)).1 ≡ at (removed_tree d n fine t)
unfolding remove_file
remove_at d n t = remove_file_lem d n fine [] t
