-- ===== src/Detector/Suppression/Greedy.antt =====
-- The suppression within a class: what is kept does not overlap, and covers the rest.
use instachron.Base.{
  ℕ, zero, suc, ◌≤◌, ◌≡◌, refl, arith, Bool, true, false, List, [], ◌∷◌, length, All, Bool-cases,
  inl, inr, ◌⊎◌,
}
use instachron.Sorting.{In}
use instachron.Detector.{Float, Detection}
use instachron.Detector.Suppression.{suppress, greedy, overlaps, more_confident}

module _ (R : Float) (threshold : R.Carrier) where
  abbrev pub over : Detection R → Detection R → Bool
  over = overlaps R threshold

  -- Nothing in the list overlaps with something before it.
  abbrev pub Apart : List (Detection R) → Type 0
  Apart [] = Unit {0}
  Apart (d ∷ ds) = All (λ e. over d e ≡ false) ds × Apart ds

  -- The detections without a flag.
  abbrev pub open_ones : List (Detection R × Bool) → List (Detection R)
  open_ones [] = []
  open_ones ((d, true) ∷ ds) = open_ones ds
  open_ones ((d, false) ∷ ds) = d ∷ open_ones ds

  length-suppress :
      (d : Detection R) (ds : List (Detection R × Bool))
      → length (suppress R threshold d ds) ≡ length ds
  unfolding suppress
  length-suppress d [] = refl
  length-suppress d (x ∷ ds) = omega (arith, length-suppress d ds)

  suppress-All :
      (P : Detection R → Type 0) (d : Detection R) (ds : List (Detection R × Bool))
      → All P (open_ones ds)
      → All P (open_ones (suppress R threshold d ds))
  unfolding suppress
  suppress-All P d [] h = tt
  suppress-All P d ((x, true) ∷ ds) h = suppress-All P d ds h
  suppress-All P d ((x, false) ∷ ds) h = elim (Bool-cases (over d x)) [
    | inl e ↦ rw e (suppress-All P d ds h.1)
    | inr e ↦ rw e (h.0, suppress-All P d ds h.1)
  ]

  suppress-apart :
      (d : Detection R) (ds : List (Detection R × Bool))
      → All (λ e. over d e ≡ false) (open_ones (suppress R threshold d ds))
  unfolding suppress
  suppress-apart d [] = tt
  suppress-apart d ((x, true) ∷ ds) = suppress-apart d ds
  suppress-apart d ((x, false) ∷ ds) = elim (Bool-cases (over d x)) [
    | inl e ↦ rw e (suppress-apart d ds)
    | inr e ↦ rw e (e, suppress-apart d ds)
  ]

  -- What holds of every detection without a flag holds of what is kept.
  greedy-All :
      (P : Detection R → Type 0) (n : ℕ) (ds : List (Detection R × Bool))
      → All P (open_ones ds)
      → All P (greedy R threshold n ds)
  unfolding greedy
  greedy-All P zero ds h = tt
  greedy-All P (suc n) [] h = tt
  greedy-All P (suc n) ((d, true) ∷ ds) h = greedy-All P n ds h
  greedy-All P (suc n) ((d, false) ∷ ds) h =
      (h.0, greedy-All P n (suppress R threshold d ds) (suppress-All P d ds h.1))

  pub greedy-Apart : (n : ℕ) (ds : List (Detection R × Bool)) → Apart (greedy R threshold n ds)
  unfolding greedy
  greedy-Apart zero ds = tt
  greedy-Apart (suc n) [] = tt
  greedy-Apart (suc n) ((d, true) ∷ ds) = greedy-Apart n ds
  greedy-Apart (suc n) ((d, false) ∷ ds) =
      let rest = suppress R threshold d ds in
      (greedy-All (λ e. over d e ≡ false) n rest (suppress-apart d ds), greedy-Apart n rest)

  -- A detection is kept, or something kept that is at least as confident overlaps with it.
  abbrev pub Covered : Detection R → List (Detection R) → Type 0
  Covered d kept =
      In d kept
      ⊎ ((k : Detection R) × In k kept × (over k d ≡ true) × (more_confident R d k ≡ false))

  suppress-In :
      (d e : Detection R) (ds : List (Detection R × Bool))
      → In e (open_ones ds)
      → (over d e ≡ true) ⊎ In e (open_ones (suppress R threshold d ds))
  unfolding suppress In
  suppress-In d e [] m = absurd m
  suppress-In d e ((x, true) ∷ ds) m = suppress-In d e ds m
  suppress-In d e ((x, false) ∷ ds) (inl same) = elim (Bool-cases (over d x)) [
    | inl o ↦ inl (rw same o)
    | inr o ↦ inr (rw o (inl same))
  ]
  suppress-In d e ((x, false) ∷ ds) (inr m) = elim (suppress-In d e ds m) [
    | inl o ↦ inl o
    | inr m' ↦ inr (elim (Bool-cases (over d x)) [ inl o ↦ rw o m' | inr o ↦ rw o (inr m') ])
  ]

  -- Each is at least as confident as what follows.
  abbrev pub Descending : List (Detection R × Bool) → Type 0
  Descending [] = Unit {0}
  Descending ((d, b) ∷ ds) = All (λ e. more_confident R e d ≡ false) (open_ones ds) × Descending ds

  suppress-Descending :
      (d : Detection R) (ds : List (Detection R × Bool))
      → Descending ds
      → Descending (suppress R threshold d ds)
  unfolding suppress
  suppress-Descending d [] h = tt
  suppress-Descending d ((x, b) ∷ ds) h =
      (suppress-All (λ e. more_confident R e x ≡ false) d ds h.0, suppress-Descending d ds h.1)

  In-All :
      (P : Detection R → Type 0) (d : Detection R) (ds : List (Detection R))
      → All P ds
      → In d ds
      → P d
  unfolding In
  In-All P d [] h m = absurd m
  In-All P d (x ∷ ds) h (inl same) = rw same h.0
  In-All P d (x ∷ ds) h (inr m) = In-All P d ds h.1 m

  later-Covered :
      (x d : Detection R) (kept : List (Detection R)) → Covered d kept → Covered d (x ∷ kept)
  unfolding In
  later-Covered x d kept (inl m) = inl (inr m)
  later-Covered x d kept (inr (k, m, o, c)) = inr (k, inr m, o, c)

  pub greedy-Covered :
      (n : ℕ) (ds : List (Detection R × Bool)) (d : Detection R)
      → length ds ≤ n
      → Descending ds
      → In d (open_ones ds)
      → Covered d (greedy R threshold n ds)
  unfolding greedy In
  greedy-Covered zero [] d h s m = absurd m
  greedy-Covered zero (x ∷ ds) d h s m = absurd (omega arith)
  greedy-Covered (suc n) [] d h s m = absurd m
  greedy-Covered (suc n) ((x, true) ∷ ds) d h s m = greedy-Covered n ds d (omega arith) s.1 m
  greedy-Covered (suc n) ((x, false) ∷ ds) d h s (inl same) = inl (inl same)
  greedy-Covered (suc n) ((x, false) ∷ ds) d h s (inr m) = elim (suppress-In x d ds m) [
    | inl o ↦
        inr (x, inl refl, o, In-All (λ e. more_confident R e x ≡ false) d (open_ones ds) s.0 m)
    | inr m' ↦ later-Covered x d (greedy R threshold n (suppress R threshold x ds)) (
        greedy-Covered n (suppress R threshold x ds) d (omega (arith, length-suppress x ds))
          (suppress-Descending x ds s.1) m')
  ]

  suppressed-In :
      (x d : Detection R) (ds : List (Detection R × Bool))
      → In d (open_ones (suppress R threshold x ds))
      → In d (open_ones ds)
  unfolding suppress In
  suppressed-In x d [] m = absurd m
  suppressed-In x d ((y, true) ∷ ds) m = suppressed-In x d ds m
  suppressed-In x d ((y, false) ∷ ds) m = elim (Bool-cases (over x y)) [
    | inl o ↦ inr (suppressed-In x d ds (rw o at m))
    | inr o ↦ first_or_later (suppressed-In x d ds) (rw o at m)
  ]
    where
      first_or_later :
          (In d (open_ones (suppress R threshold x ds)) → In d (open_ones ds))
          → (d ≡ y) ⊎ In d (open_ones (suppress R threshold x ds))
          → (d ≡ y) ⊎ In d (open_ones ds)
      first_or_later later (inl e) = inl e
      first_or_later later (inr m') = inr (later m')

  -- Only what has no flag is kept.
  pub greedy-In :
      (n : ℕ) (ds : List (Detection R × Bool)) (d : Detection R)
      → In d (greedy R threshold n ds)
      → In d (open_ones ds)
  unfolding greedy In
  greedy-In zero ds d m = absurd m
  greedy-In (suc n) [] d m = absurd m
  greedy-In (suc n) ((x, true) ∷ ds) d m = greedy-In n ds d m
  greedy-In (suc n) ((x, false) ∷ ds) d (inl same) = inl same
  greedy-In (suc n) ((x, false) ∷ ds) d (inr m) =
      inr (suppressed-In x d ds (greedy-In n (suppress R threshold x ds) d m))
