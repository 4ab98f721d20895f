-- ===== src/Recorder/Storage/Disk.antt =====
-- The calls of package os that local.go makes, on a directory tree. The root directory holds
-- directories and other entries; a camera's directory holds files, symbolic links and directories
-- that are empty, since the recorder makes none there. No link leads to a directory.
-- Every call takes the next of the outcomes that the system has in store, and may fail by it: a
-- write that fails may have left anything in its file. When there are none left, nothing fails but
-- by the state of the disk. A write through a symbolic link is an error here; the recorder makes
-- no link but latest.mp4, which it does not write to.
pub mod Outcomes
pub use Outcomes.*
use instachron.Base.{
  ℕ, ◌≡◌, refl, Bool, Option, none, some, List, [], ◌∷◌, ◌++◌, Result, ok, err, Map, lookup, insert,
  remove, length,
}
use instachron.Text.{Text, text_instance, text_ltb}
use instachron.Sorting.{sort}
use instachron.Recorder.Storage.Paths.{below, below-entry}

unfoldable pub folder_of : Text → Tree → Result FsError Folder
folder_of d t = elim (lookup d t) [
  | none ↦ err not_exist
  | some e ↦ elim e [ folder f ↦ ok f | plain b ↦ err not_dir ]
]

-- What stands at a path.
unfoldable pub item : Text → Text → Tree → Option Item
item d n t = elim (lookup d t) [
  | none ↦ none
  | some e ↦ elim e [ folder f ↦ lookup n f | plain b ↦ none ]
]

unfoldable pub put_item : Text → Text → Item → Tree → Tree
put_item d n i t = elim (lookup d t) [
  | none ↦ t
  | some e ↦ elim e [ folder f ↦ insert d (folder (insert n i f)) t | plain b ↦ t ]
]

unfoldable pub drop_item : Text → Text → Tree → Tree
drop_item d n t = elim (lookup d t) [
  | none ↦ t
  | some e ↦ elim e [ folder f ↦ insert d (folder (remove n f)) t | plain b ↦ t ]
]

abbrev pub unchanged : List ℕ → Tree → Tree
unchanged junk t = t

-- ctx.Err()
unfoldable pub ctx_err : M (Unit {0})
ctx_err = reading cancelled (λ t. ok tt)

-- os.MkdirAll of the root directory and one directory in it.
abbrev pub made : Text → Tree → Result FsError (Unit {0} × Tree)
made d t = elim (lookup d t) [
  | none ↦ ok (tt, insert d (folder []) t)
  | some e ↦ elim e [ folder f ↦ ok (tt, t) | plain b ↦ err not_dir ]
]

unfoldable pub mkdir_all : Text → M (Unit {0})
mkdir_all d = changing unchanged (made d)

-- Whether a file can be written at a path: something else may stand there.
abbrev pub writable : Option Item → Result FsError (Unit {0})
writable none = ok tt
writable (some (file b)) = ok tt
writable (some (link target)) = err io
writable (some subfolder) = err is_dir

abbrev pub written : Text → Text → List ℕ → Tree → Result FsError (Unit {0} × Tree)
written d n b t = elim (folder_of d t) [
  | err e ↦ err e
  | ok f ↦ elim (writable (item d n t)) [ err e ↦ err e | ok u ↦ ok (tt, put_item d n (file b) t) ]
]

-- os.OpenFile with O_CREATE, O_TRUNC and O_WRONLY, which leaves an empty file.
unfoldable pub create : Text → Text → M (Unit {0})
unfolding folder_of item put_item
create d n = changing unchanged (written d n [])

-- What a failed write has left: nothing changed, or some bytes in the file.
abbrev pub broken_write : Text → Text → List ℕ → Tree → Tree
broken_write d n junk t = elim (written d n junk t) [ err e ↦ t | ok r ↦ r.1 ]

unfoldable pub write_file : Text → Text → List ℕ → M (Unit {0})
unfolding folder_of item put_item
write_file d n b = changing (broken_write d n) (written d n b)

-- Write on an open file, which appends; the file is named by its path.
abbrev pub appended : Text → Text → List ℕ → Tree → Result FsError (Unit {0} × Tree)
appended d n b t = elim (item d n t) [
  | none ↦ err io
  | some i ↦ elim i [
    | file old ↦ ok (tt, put_item d n (file (old ++ b)) t)
    | link target ↦ err io
    | subfolder ↦ err io
  ]
]

abbrev keep_written : {A : Type 0} → Tree → Result FsError (A × Tree) → Tree
keep_written t (ok r) = r.1
keep_written t (err e) = t

-- The number of bytes written, and the error; a write that fails has written some bytes.
unfoldable pub append_file : Text → Text → List ℕ → World → (ℕ × Option FsError) × World
unfolding item put_item
append_file d n b w =
    let w' = record w { outcomes = later w.outcomes } in
    elim (next_outcome w.outcomes) [
      | fine ↦ elim (appended d n b w.tree) [
        | ok r ↦ ((length b, none), record w' { tree = r.1 })
        | err e ↦ ((0, some e), w')
      ]
      | failed junk ↦ (
        (length junk, some io),
        record w' { tree = keep_written w.tree (appended d n junk w.tree) },
      )
    ]

-- os.Rename of a file to a path that holds no directory.
abbrev pub renamed : Text → Text → Text → Text → Tree → Result FsError (Unit {0} × Tree)
renamed d n d' n' t = elim (item d n t) [
  | none ↦ err not_exist
  | some i ↦ elim (folder_of d' t) [
    | err e ↦ err e
    | ok f ↦ elim (item d' n' t) [
      | none ↦ ok (tt, put_item d' n' i (drop_item d n t))
      | some old ↦ elim old [
        | subfolder ↦ err is_dir
        | file b ↦ ok (tt, put_item d' n' i (drop_item d n t))
        | link target ↦ ok (tt, put_item d' n' i (drop_item d n t))
      ]
    ]
  ]
]

unfoldable pub rename : Text → Text → Text → Text → M (Unit {0})
unfolding folder_of item put_item drop_item
rename d n d' n' = changing unchanged (renamed d n d' n')

abbrev pub removed : Text → Text → Tree → Result FsError (Unit {0} × Tree)
removed d n t = elim (item d n t) [ none ↦ err not_exist | some i ↦ ok (tt, drop_item d n t) ]

unfoldable pub remove_file : Text → Text → M (Unit {0})
unfolding item drop_item
remove_file d n = changing unchanged (removed d n)

-- os.Remove of an entry of the root directory: a directory must be empty.
abbrev removed_entry : Text → Tree → Result FsError (Unit {0} × Tree)
removed_entry d t = elim (lookup d t) [
  | none ↦ err not_exist
  | some e ↦ elim e [
    | plain b ↦ ok (tt, remove d t)
    | folder f ↦ elim f [ [] ↦ ok (tt, remove d t) | i ∷ items ↦ err io ]
  ]
]

-- What os.Remove makes of a path below the root. The root itself is left: it holds the directories.
abbrev removed_below : Option (List Text) → Tree → Result FsError (Unit {0} × Tree)
removed_below none t = err io
removed_below (some []) t = err io
removed_below (some (d ∷ [])) t = removed_entry d t
removed_below (some (n ∷ d ∷ [])) t = removed d n t
removed_below (some (m ∷ n ∷ d ∷ more)) t = err not_dir

-- os.Remove of an absolute path; one that is not below the root changes nothing there.
unfoldable pub remove_path : List Text → List Text → M (Unit {0})
unfolding item drop_item below
remove_path root path = changing unchanged (removed_below (below root path))

pub remove_path-entry :
    (root : List Text) (d n : Text) → remove_path root (n ∷ d ∷ root) ≡ remove_file d n
unfolding remove_path remove_file
remove_path-entry root d n = rw (below-entry root d n) refl

abbrev pub linked : Text → Text → Text → Tree → Result FsError (Unit {0} × Tree)
linked target d n t = elim (folder_of d t) [
  | err e ↦ err e
  | ok f ↦ elim (item d n t) [ none ↦ ok (tt, put_item d n (link target) t) | some i ↦ err io ]
]

unfoldable pub symlink : Text → Text → Text → M (Unit {0})
unfolding folder_of item put_item
symlink target d n = changing unchanged (linked target d n)

-- os.Open and os.ReadFile: the bytes of a file, through one symbolic link at most.
abbrev pub bytes_of : Option Item → Result FsError (List ℕ)
bytes_of none = err not_exist
bytes_of (some (file b)) = ok b
bytes_of (some (link target)) = err io
bytes_of (some subfolder) = err is_dir

abbrev pub content : Text → Text → Tree → Result FsError (List ℕ)
content d n t = elim (item d n t) [
  | none ↦ err not_exist
  | some i ↦ elim i [
    | file b ↦ ok b
    | subfolder ↦ err is_dir
    | link target ↦ bytes_of (item d target t)
  ]
]

unfoldable pub read_file : Text → Text → M (List ℕ)
unfolding item
read_file d n = reading io (content d n)

-- os.Stat, the size of a file, and Info of a directory entry, its size or that of a link.
unfoldable pub stat_size : Text → Text → M ℕ
unfolding item
stat_size d n = reading io (λ t. elim (content d n t) [ ok b ↦ ok (length b) | err e ↦ err e ])

abbrev pub item_size : Item → ℕ
item_size (file b) = length b
item_size (link target) = length target
item_size subfolder = 0

unfoldable pub entry_info : ℕ → M ℕ
entry_info size = reading io (λ t. ok size)

-- os.ReadDir of a camera's directory and of the root directory, sorted by name.
abbrev pub by_name : {A : Type 0} → Text × A → Text × A → Bool
by_name a b = text_ltb a.0 b.0

abbrev pub listed : Text → Tree → Result FsError Folder
listed d t = elim (folder_of d t) [ err e ↦ err e | ok f ↦ ok (sort by_name f) ]

unfoldable pub read_dir : Text → M Folder
unfolding folder_of sort
read_dir d = reading io (listed d)

-- A root directory that is missing and one that is empty are the same tree.
unfoldable pub read_root : M Tree
unfolding sort
read_root = reading io (λ t. ok (sort by_name t))
