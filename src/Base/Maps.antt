-- ===== src/Base/Maps.antt =====
-- Go maps as association lists with one entry for a key, and equality tests as an interface.
use Prim.Native.Nat.{ℕ}
use mathlib.Core.Path.{◌≡◌, refl}
use mathlib.Core.Logic.{◌↔◌}
use mathlib.Core.Bool.{Bool, true}
use mathlib.Core.Option.{Option, none, some}
use mathlib.Core.List.{List, [], ◌∷◌}
use native.Mathlib.Omega.{arith}
use instachron.Base.Tests.{if◌then◌else◌, ◌==◌, ==_iff}

pub record Eq {ℓ} (K : Type ℓ) : Type ℓ where
  pub beq : K → K → Bool
  pub beq_iff : (a b : K) → (beq a b ≡ true) ↔ (a ≡ b)

instance abbrev pub nat_instance : Eq ℕ
nat_instance = record { beq = λ a b. a == b; beq_iff = ==_iff }

abbrev pub Map : Type 0 → Type 0 → Type 0
Map K V = List (K × V)

module _ {K V : Type 0} ⦃e : Eq K⦄ where
  unfoldable pub lookup : K → Map K V → Option V
  lookup key [] = none
  lookup key ((first, value) ∷ more) =
      let rest = lookup key more in if e.beq first key then some value else rest

  -- m[k] = v; a new key goes to the end.
  unfoldable pub insert : K → V → Map K V → Map K V
  insert key value [] = (key, value) ∷ []
  insert key value ((first, old) ∷ more) =
      let rest = insert key value more in
      if e.beq first key then (first, value) ∷ more else (first, old) ∷ rest

  -- delete(m, k)
  unfoldable pub remove : K → Map K V → Map K V
  remove key [] = []
  remove key ((first, old) ∷ more) =
      let rest = remove key more in if e.beq first key then rest else (first, old) ∷ rest

  pub lookup-insert :
      (key other : K) (value : V) (pairs : Map K V)
      → lookup other (insert key value pairs)
        ≡ (if e.beq key other then some value else lookup other pairs)
  unfolding lookup insert
  lookup-insert key other value [] = refl
  lookup-insert key other value ((first, old) ∷ more) = ground (
    arith,
    lookup-insert key other value more,
    e.beq_iff key other,
    e.beq_iff first key,
    e.beq_iff first other,
  )

  pub lookup-remove :
      (key other : K) (pairs : Map K V)
      → lookup other (remove key pairs) ≡ (if e.beq key other then none else lookup other pairs)
  unfolding lookup remove
  lookup-remove key other [] = ground arith
  lookup-remove key other ((first, old) ∷ more) = ground (
    arith,
    lookup-remove key other more,
    e.beq_iff key other,
    e.beq_iff first key,
    e.beq_iff first other,
  )
