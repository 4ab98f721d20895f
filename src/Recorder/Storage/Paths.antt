-- ===== src/Recorder/Storage/Paths.antt =====
-- path/filepath: Join of a directory and a name, cleaned. An absolute path is its components from
-- the last to the first; so the path of a directory d of the root is d ∷ root.
use instachron.Base.{
  ℕ, ◌≡◌, ◌≢◌, refl, arith, Bool, true, false, ◌&&◌, ◌||◌, Option, none, some, List, [], ◌∷◌, ◌++◌,
  length, ◌==◌, if◌then◌else◌, Bool-cases, inl, inr,
}
use instachron.Text.{Text, codes, text_eq, text_eq_iff, contains}

cons_first : ℕ → List Text → List Text
cons_first c [] = (c ∷ []) ∷ []
cons_first c (part ∷ parts) = (c ∷ part) ∷ parts

-- The parts between the slashes.
unfoldable pub split_slash : Text → List Text
unfolding cons_first
split_slash [] = [] ∷ []
split_slash (c ∷ s) = let rest = split_slash s in if c == b'/' then [] ∷ rest else cons_first c rest

abbrev parent : List Text → List Text
parent [] = []
parent (part ∷ path) = path

-- A part of a path, behind the ones before it.
unfoldable pub resolve : Text → List Text → List Text
resolve part path =
    if text_eq part [] || text_eq part (codes ".")
    then path
    else if text_eq part (codes "..")
    then parent path
    else part ∷ path

unfoldable pub resolve_all : List Text → List Text → List Text
unfolding resolve
resolve_all [] path = path
resolve_all (part ∷ parts) path = resolve_all parts (resolve part path)

-- filepath.Join(path, name)
unfoldable pub join : List Text → Text → List Text
unfolding split_slash resolve_all
join path name = resolve_all (split_slash name) path

-- The text of a path with a suffix behind it.
unfoldable pub with_suffix : Text → List Text → List Text
with_suffix suffix [] = suffix ∷ []
with_suffix suffix (part ∷ path) = (part ++ suffix) ∷ path

unfoldable pub same : List Text → List Text → Bool
same [] [] = true
same [] (q ∷ qs) = false
same (p ∷ ps) [] = false
same (p ∷ ps) (q ∷ qs) = let rest = same ps qs in text_eq p q && rest

abbrev in_front : Text → Option (List Text) → Option (List Text)
in_front part none = none
in_front part (some path) = some (part ∷ path)

-- The part of a path below the root; none for a path elsewhere.
unfoldable pub below : List Text → List Text → Option (List Text)
unfolding same
below root [] = if same [] root then some [] else none
below root (part ∷ path) =
    let rest = below root path in if same (part ∷ path) root then some [] else in_front part rest

-- A name of an entry: it is no path through a directory.
pub record IsEntryName (name : Text) : Type 0 where
  pub full : name ≢ []
  pub slashes : contains name b'/' ≡ false
  pub here : name ≢ codes "."
  pub up : name ≢ codes ".."

split_slash-contains : (s : Text) → contains s b'/' ≡ false → split_slash s ≡ s ∷ []
unfolding contains split_slash cons_first
split_slash-contains [] h = refl
split_slash-contains (c ∷ s) h = ground (arith, split_slash-contains s)

text_eq-ne : (a b : Text) → a ≢ b → text_eq a b ≡ false
text_eq-ne a b h = elim (Bool-cases (text_eq a b)) [
  | inl e ↦ absurd (h ((text_eq_iff a b).0 e))
  | inr e ↦ e
]

pub join-IsEntryName :
    (path : List Text) (name : Text) → IsEntryName name → join path name ≡ name ∷ path
unfolding join resolve_all resolve
join-IsEntryName path name h = rw (split_slash-contains name h.slashes) (
    rw
      (
        text_eq-ne name [] h.full,
        text_eq-ne name (codes ".") h.here,
        text_eq-ne name (codes "..") h.up,
      )
      refl)

same_lem : (p q : List Text) → same p q ≡ true → length p ≡ length q
unfolding same
same_lem [] [] h = refl
same_lem [] (q ∷ qs) h = absurd (cc)
same_lem (p ∷ ps) [] h = absurd (cc)
same_lem (p ∷ ps) (q ∷ qs) h = ground (arith, same_lem ps qs)

same_self : (p : List Text) → same p p ≡ true
unfolding same
same_self [] = refl
same_self (p ∷ ps) = ground (arith, same_self ps, text_eq_iff p p)

below_root : (root : List Text) → below root root ≡ some []
unfolding below
below_root [] = refl
below_root (p ∷ ps) = rw (same_self (p ∷ ps)) refl

longer : (root more : List Text) → length root ≢ length more → same more root ≡ false
longer root more h = elim (Bool-cases (same more root)) [
  | inl e ↦ absurd (h (omega (arith, same_lem more root e)))
  | inr e ↦ e
]

pub below-entry : (root : List Text) (d n : Text) → below root (n ∷ d ∷ root) ≡ some (n ∷ d ∷ [])
unfolding below
below-entry root d n =
    rw
      (
        longer root (n ∷ d ∷ root) (λ e. omega (arith, e)),
        longer root (d ∷ root) (λ e. omega (arith, e)),
        below_root root,
      )
      refl
