-- ===== src/Recorder/Storage/Changes.antt =====
-- What the calls on the disk change: the item at every path after a call.
use instachron.Base.{
  ◌≡◌, arith, Bool, true, false, ◌&&◌, none, some, [], lookup, insert, remove, lookup-insert,
  lookup-remove, if◌then◌else◌, Bool-cases, inl, inr, ◌⊎◌, Option-cases,
}
use instachron.Text.{Text, text_eq, text_eq_iff, text_instance}
use instachron.Recorder.Storage.Disk.{
  Item, Folder, folder, plain, Tree, World, item, put_item, drop_item,
}

-- The world in which no call fails but by the state of the disk.
abbrev pub at : Tree → World
at t = record { tree = t; outcomes = [] }

unfoldable pub has_folder : Text → Tree → Bool
has_folder d t = elim (lookup d t) [
  | none ↦ false
  | some e ↦ elim e [ folder f ↦ true | plain b ↦ false ]
]

abbrev pub same_path : Text → Text → Text → Text → Bool
same_path d n d' n' = text_eq d d' && text_eq n n'

-- The directory at a name, if there is one.
Folder-cases :
    (d : Text) (t : Tree)
    → ((f : Folder) × (lookup d t ≡ some (folder f)))
      ⊎ ((has_folder d t ≡ false)
          × ((n : Text) → item d n t ≡ none)
          × ((n : Text) → drop_item d n t ≡ t))
unfolding has_folder item drop_item
Folder-cases d t = elim (Option-cases (lookup d t)) [
  | inl e ↦ inr (rw (e, has_folder), λ n. rw (e, item), λ n. rw (e, drop_item))
  | inr (folder f, e) ↦ inl (f, e)
  | inr (plain b, e) ↦ inr (rw (e, has_folder), λ n. rw (e, item), λ n. rw (e, drop_item))
]

put_item_lem :
    (d n : Text) (i : Item) (t : Tree) (f : Folder)
    → lookup d t ≡ some (folder f)
    → put_item d n i t ≡ insert d (folder (insert n i f)) t
unfolding put_item
put_item_lem d n i t f e = rw (e, put_item)

drop_item_lem :
    (d n : Text) (t : Tree) (f : Folder)
    → lookup d t ≡ some (folder f)
    → drop_item d n t ≡ insert d (folder (remove n f)) t
unfolding drop_item
drop_item_lem d n t f e = rw (e, drop_item)

pub item-insert :
    (d d' n : Text) (f : Folder) (t : Tree)
    → item d' n (insert d (folder f) t) ≡ (if text_eq d d' then lookup n f else item d' n t)
unfolding item
item-insert d d' n f t = elim (Bool-cases (text_eq d d')) [
  | inl same ↦ rw (lookup-insert d d' (folder f) t, item) (rw same)
  | inr other ↦ rw (lookup-insert d d' (folder f) t, item) (rw other)
]

pub item_lem :
    (d n : Text) (t : Tree) (f : Folder) → lookup d t ≡ some (folder f) → item d n t ≡ lookup n f
unfolding item
item_lem d n t f e = rw (e, item)

pub item-put_item :
    (d n d' n' : Text) (i : Item) (t : Tree)
    → has_folder d t ≡ true
    → item d' n' (put_item d n i t) ≡ (if same_path d n d' n' then some i else item d' n' t)
item-put_item d n d' n' i t h = elim (Folder-cases d t) [
  | inr (not_there, _, _) ↦ cc
  | inl (f, e) ↦ rw (put_item_lem d n i t f e) (
      ground (
        arith,
        item-insert d d' n' (insert n i f) t,
        lookup-insert n n' i f,
        item_lem d n' t f e,
        text_eq_iff d d',
      ))
]

pub item-drop_item :
    (d n d' n' : Text) (t : Tree)
    → item d' n' (drop_item d n t) ≡ (if same_path d n d' n' then none else item d' n' t)
item-drop_item d n d' n' t = elim (Folder-cases d t) [
  | inr (_, empty, same) ↦ rw (same n) (ground (arith, empty n', text_eq_iff d d'))
  | inl (f, e) ↦ rw (drop_item_lem d n t f e) (
      ground (
        arith,
        item-insert d d' n' (remove n f) t,
        lookup-remove n n' f,
        item_lem d n' t f e,
        text_eq_iff d d',
      ))
]

pub has_folder-insert :
    (d d' : Text) (f : Folder) (t : Tree)
    → has_folder d' (insert d (folder f) t) ≡ (if text_eq d d' then true else has_folder d' t)
unfolding has_folder
has_folder-insert d d' f t = elim (Bool-cases (text_eq d d')) [
  | inl same ↦ rw (lookup-insert d d' (folder f) t, has_folder) (rw same)
  | inr other ↦ rw (lookup-insert d d' (folder f) t, has_folder) (rw other)
]

has_folder_lem :
    (d : Text) (t : Tree) (f : Folder) → lookup d t ≡ some (folder f) → has_folder d t ≡ true
unfolding has_folder
has_folder_lem d t f e = rw (e, has_folder)

pub has_folder-put_item :
    (d n d' : Text) (i : Item) (t : Tree)
    → has_folder d t ≡ true
    → has_folder d' (put_item d n i t) ≡ has_folder d' t
has_folder-put_item d n d' i t h = elim (Folder-cases d t) [
  | inr (not_there, _, _) ↦ cc
  | inl (f, e) ↦ rw (put_item_lem d n i t f e) (
      ground
        (arith, has_folder-insert d d' (insert n i f) t, has_folder_lem d t f e, text_eq_iff d d'))
]

pub has_folder-drop_item :
    (d n d' : Text) (t : Tree) → has_folder d' (drop_item d n t) ≡ has_folder d' t
has_folder-drop_item d n d' t = elim (Folder-cases d t) [
  | inr (_, _, same) ↦ rw (same n)
  | inl (f, e) ↦ rw (drop_item_lem d n t f e) (
      ground
        (arith, has_folder-insert d d' (remove n f) t, has_folder_lem d t f e, text_eq_iff d d'))
]
