-- ===== src/Recorder/Storage/Effects.antt =====
-- The calls on the disk in a world where nothing fails: what each makes of the disk.
use instachron.Base.{
  ℕ, ◌≡◌, refl, arith, true, none, some, List, [], ◌++◌, ok, if◌then◌else◌, Option-cases, inl, inr,
  ◌≢◌, lookup, insert, lookup-insert, length,
}
use instachron.Text.{Text, text_eq, text_eq_iff, text_instance}
use instachron.Recorder.Storage.Disk.{
  Item, file, link, Folder, folder, plain, Tree, folder_of, item, put_item, drop_item, mkdir_all,
  create, write_file, append_file, rename, symlink, read_file, stat_size,
}
use instachron.Recorder.Storage.Changes.{at, has_folder, item-insert, has_folder-insert}

-- A directory stands at the name, or nothing.
abbrev pub NoFile : Text → Tree → Type 0
NoFile d t = (b : List ℕ) → lookup d t ≢ some (plain b)

pub folder_at :
    (d : Text) (t : Tree) → has_folder d t ≡ true → (f : Folder) × (folder_of d t ≡ ok f)
unfolding has_folder folder_of
folder_at d t h = elim (Option-cases (lookup d t)) [
  | inl e ↦ absurd (cc (rw (e, has_folder) at h))
  | inr (folder f, e) ↦ (f, rw (e, folder_of))
  | inr (plain b, e) ↦ absurd (cc (rw (e, has_folder) at h))
]

pub create-at :
    (d n : Text) (t : Tree)
    → has_folder d t ≡ true
    → item d n t ≡ none
    → create d n (at t) ≡ (ok tt, at (put_item d n (file []) t))
unfolding create lookup
create-at d n t h e = let (f, there) = folder_at d t h in rw (there, e, create)

pub write-at :
    (d n : Text) (b : List ℕ) (t : Tree)
    → has_folder d t ≡ true
    → item d n t ≡ none
    → write_file d n b (at t) ≡ (ok tt, at (put_item d n (file b) t))
unfolding write_file lookup
write-at d n b t h e = let (f, there) = folder_at d t h in rw (there, e, write_file)

pub append_at :
    (d n : Text) (old b : List ℕ) (t : Tree)
    → item d n t ≡ some (file old)
    → append_file d n b (at t) ≡ ((length b, none), at (put_item d n (file (old ++ b)) t))
unfolding append_file lookup
append_at d n old b t e = rw (e, append_file)

pub rename-at :
    (d n d' n' : Text) (i : Item) (t : Tree)
    → item d n t ≡ some i
    → has_folder d' t ≡ true
    → item d' n' t ≡ none
    → rename d n d' n' (at t) ≡ (ok tt, at (put_item d' n' i (drop_item d n t)))
unfolding rename lookup
rename-at d n d' n' i t e h free = let (f, there) = folder_at d' t h in rw (e, there, free, rename)

pub stat_at :
    (d n : Text) (b : List ℕ) (t : Tree)
    → item d n t ≡ some (file b)
    → stat_size d n (at t) ≡ (ok (length b), at t)
unfolding stat_size lookup
stat_at d n b t e = rw (e, stat_size)

pub read_at :
    (d n : Text) (b : List ℕ) (t : Tree)
    → item d n t ≡ some (file b)
    → read_file d n (at t) ≡ (ok b, at t)
unfolding read_file lookup
read_at d n b t e = rw (e, read_file)

pub symlink-at :
    (target d n : Text) (t : Tree)
    → has_folder d t ≡ true
    → item d n t ≡ none
    → symlink target d n (at t) ≡ (ok tt, at (put_item d n (link target) t))
unfolding symlink lookup
symlink-at target d n t h e = let (f, there) = folder_at d t h in rw (there, e, symlink)

item-none : (d n : Text) (t : Tree) → lookup d t ≡ none → item d n t ≡ none
unfolding item
item-none d n t e = rw (e, item)

lookup-nil : (n : Text) → lookup {V = Item} n [] ≡ none
unfolding lookup
lookup-nil n = refl

mkdir_new :
    (d : Text) (t : Tree)
    → lookup d t ≡ none
    → mkdir_all d (at t) ≡ (ok tt, at (insert d (folder []) t))
unfolding mkdir_all lookup insert
mkdir_new d t e = rw (e, mkdir_all)

mkdir_old :
    (d : Text) (t : Tree) (f : Folder)
    → lookup d t ≡ some (folder f)
    → mkdir_all d (at t) ≡ (ok tt, at t)
unfolding mkdir_all lookup
mkdir_old d t f e = rw (e, mkdir_all)

has_folder_known :
    (d : Text) (t : Tree) (f : Folder) → lookup d t ≡ some (folder f) → has_folder d t ≡ true
unfolding has_folder
has_folder_known d t f e = rw (e, has_folder)

-- What MkdirAll leaves: the directory, the other directories, and every item.
pub mkdir_at :
    (d : Text) (t : Tree)
    → NoFile d t
    → (t' : Tree) × (mkdir_all d (at t) ≡ (ok tt, at t'))
      × ((d' : Text) → has_folder d' t' ≡ (if text_eq d d' then true else has_folder d' t))
      × ((d' n : Text) → item d' n t' ≡ item d' n t)
      × ((d' : Text) → NoFile d' t → NoFile d' t')
mkdir_at d t free = elim (Option-cases (lookup d t)) [
  | inl e ↦ (
    insert d (folder []) t,
    mkdir_new d t e,
    λ d'. has_folder-insert d d' [] t,
    λ d' n.
        ground (arith, item-insert d d' n [] t, lookup-nil n, item-none d n t e, text_eq_iff d d'),
    λ d' h b found. ground (arith, lookup-insert d d' (folder []) t, h b),
  )
  | inr (folder f, e) ↦ (
    t,
    mkdir_old d t f e,
    λ d'. ground (arith, has_folder_known d t f e, text_eq_iff d d'),
    λ d' n. refl,
    λ d' h. h,
  )
  | inr (plain b, e) ↦ absurd (free b e)
]
