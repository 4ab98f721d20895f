-- ===== src/Recorder/Storage/Disk/Outcomes.antt =====
-- A disk as a tree of directories, the outcomes of the calls to come, and the monad of the calls that
-- local.go makes: each may fail and may change the tree.
use instachron.Base.{ℕ, List, [], ◌∷◌, Result, ok, err, Map}
use instachron.Text.{Text, text_instance}

pub data FsError : Type 0 where
  cancelled : FsError
  not_exist : FsError
  not_dir : FsError
  is_dir : FsError
  invalid : FsError
  not_local : FsError
  io : FsError

pub data Item : Type 0 where
  file : List ℕ → Item
  link : Text → Item
  subfolder : Item

abbrev pub Folder : Type 0
Folder = Map Text Item

pub data Entry : Type 0 where
  folder : Folder → Entry
  plain : List ℕ → Entry

abbrev pub Tree : Type 0
Tree = Map Text Entry

pub data Outcome : Type 0 where
  fine : Outcome
  failed : List ℕ → Outcome

pub record World : Type 0 where
  pub tree : Tree
  pub outcomes : List Outcome

abbrev pub M : Type 0 → Type 0
M A = World → Result FsError A × World

abbrev pub and_then :
    {A B : Type 0} → (A → M B) → Result FsError A × World → Result FsError B × World
and_then f (ok a, w) = f a w
and_then f (err e, w) = (err e, w)

infixl 5 ◌>>=◌ ◌>>◌
abbrev pub ◌>>=◌ : {A B : Type 0} → M A → (A → M B) → M B
◌>>=◌ m f w = and_then f (m w)

abbrev pub ◌>>◌ : {B : Type 0} → M (Unit {0}) → M B → M B
m >> k = m >>= λ _. k

abbrev pub return : {A : Type 0} → A → M A
return a w = (ok a, w)

abbrev pub fail : {A : Type 0} → FsError → M A
fail e w = (err e, w)

-- `_ = call`: the error is dropped.
abbrev pub ignore : {A : Type 0} → M A → M (Unit {0})
ignore m w = (ok tt, (m w).1)

-- The error of a call as a value.
abbrev pub try : {A : Type 0} → M A → M (Result FsError A)
try m w = (ok (m w).0, (m w).1)

abbrev pub next_outcome : List Outcome → Outcome
next_outcome [] = fine
next_outcome (o ∷ os) = o

abbrev pub later : List Outcome → List Outcome
later [] = []
later (o ∷ os) = os

-- A call that reads the tree, and one that changes it; a change is given with its failure.
abbrev pub answer :
    {A : Type 0} → FsError → (Tree → Result FsError A) → Outcome → Tree → Result FsError A
answer e f fine t = f t
answer e f (failed junk) t = err e

abbrev pub reading : {A : Type 0} → FsError → (Tree → Result FsError A) → M A
reading e f w =
    (answer e f (next_outcome w.outcomes) w.tree, record w { outcomes = later w.outcomes })

abbrev pub settle :
    {A : Type 0} → Tree → List Outcome → Result FsError (A × Tree) → Result FsError A × World
settle t os (ok (a, t')) = (ok a, record { tree = t'; outcomes = os })
settle t os (err e) = (err e, record { tree = t; outcomes = os })

abbrev pub change :
    {A : Type 0}
    → (List ℕ → Tree → Tree)
    → (Tree → Result FsError (A × Tree))
    → Outcome
    → List Outcome
    → Tree
    → Result FsError A × World
change broken f fine os t = settle t os (f t)
change broken f (failed junk) os t = (err io, record { tree = broken junk t; outcomes = os })

abbrev pub changing :
    {A : Type 0} → (List ℕ → Tree → Tree) → (Tree → Result FsError (A × Tree)) → M A
changing broken f w = change broken f (next_outcome w.outcomes) (later w.outcomes) w.tree
