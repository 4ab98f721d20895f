-- ===== src/Detector/Suppression/Classes.antt =====
-- The suppression over all classes, in whatever order they are visited.
use instachron.Base.{
  ℕ, ◌≡◌, ◌≢◌, refl, sym, ◌∙◌, Bool, true, false, List, [], ◌∷◌, ◌++◌, All, Map, lookup, insert,
  lookup-insert, nat_instance, keep_if, ◌==◌, ==_iff, if◌then◌else◌, Bool-cases, inl, inr, ◌⊎◌, ap,
}
use mathlib.Core.List.{append_assoc, append-nil}
use instachron.Sorting.{In}
use instachron.Detector.{Float, IsOrdered, Detection}
use instachron.Detector.Suppression.{by_class, or_nil, visit, nms, suppress_class, more_confident}
use instachron.Detector.Suppression.Greedy.{Apart, Covered, over}
use instachron.Detector.Suppression.Within.{suppress_class_lem}

-- Each class once.
abbrev pub Distinct : List ℕ → Type 0
Distinct [] = Unit {0}
Distinct (k ∷ ks) = All (λ j. j ≢ k) ks × Distinct ks

All-In : (j : ℕ) (ks : List ℕ) → All (λ x. x ≢ j) ks → (k : ℕ) → In k ks → k ≢ j
unfolding In
All-In j [] h k m = absurd m
All-In j (x ∷ ks) h k (inl e) = λ same. h.0 (sym e ∙ same)
All-In j (x ∷ ks) h k (inr m) = All-In j ks h.1 k m

module _ (R : Float) where
  -- The detections of a class.
  abbrev pub group_of : ℕ → List (Detection R) → List (Detection R)
  group_of k ds = keep_if (λ d. d.class_id == k) ds

  grown :
      (k : ℕ) (d : Detection R) (groups : Map ℕ (List (Detection R)))
      → or_nil R
          (lookup k (insert d.class_id (or_nil R (lookup d.class_id groups) ++ (d ∷ [])) groups))
        ≡ or_nil R (lookup k groups) ++ (if d.class_id == k then d ∷ [] else [])
  grown k d groups = elim (Bool-cases (d.class_id == k)) [
    | inl e ↦
        rw
          (
            lookup-insert d.class_id k (or_nil R (lookup d.class_id groups) ++ (d ∷ [])) groups,
            e,
            (==_iff d.class_id k).0 e,
          )
          refl
    | inr e ↦
        rw (lookup-insert d.class_id k (or_nil R (lookup d.class_id groups) ++ (d ∷ [])) groups, e)
          (sym (append-nil (or_nil R (lookup k groups))))
  ]

  front_if :
      (b : Bool) (d : Detection R) (ds : List (Detection R))
      → (if b then d ∷ [] else []) ++ ds ≡ (if b then d ∷ ds else ds)
  front_if true d ds = refl
  front_if false d ds = refl

  lookup-by_class :
      (k : ℕ) (ds : List (Detection R)) (groups : Map ℕ (List (Detection R)))
      → or_nil R (lookup k (by_class R ds groups)) ≡ or_nil R (lookup k groups) ++ group_of k ds
  unfolding by_class
  lookup-by_class k [] groups = sym (append-nil (or_nil R (lookup k groups)))
  lookup-by_class k (d ∷ ds) groups =
      let old = or_nil R (lookup d.class_id groups) in
      let next = insert d.class_id (old ++ (d ∷ [])) groups in
      lookup-by_class k ds next
      ∙ ap (λ xs. xs ++ group_of k ds) (grown k d groups)
      ∙ append_assoc (or_nil R (lookup k groups)) (if d.class_id == k then d ∷ [] else [])
          (group_of k ds)
      ∙ ap (λ xs. or_nil R (lookup k groups) ++ xs) (front_if (d.class_id == k) d (group_of k ds))

  In-group_of :
      (k : ℕ) (ds : List (Detection R)) (d : Detection R)
      → In d (group_of k ds)
      → (d.class_id ≡ k) × In d ds
  unfolding In
  In-group_of k [] d m = absurd m
  In-group_of k (x ∷ ds) d m = elim (Bool-cases (x.class_id == k)) [
    | inl e ↦ first_or_later e (In-group_of k ds d) (rw e at m)
    | inr e ↦ let (same, m') = In-group_of k ds d (rw e at m) in (same, inr m')
  ]
    where
      first_or_later :
          (x.class_id == k) ≡ true
          → (In d (group_of k ds) → (d.class_id ≡ k) × In d ds)
          → (d ≡ x) ⊎ In d (group_of k ds)
          → (d.class_id ≡ k) × ((d ≡ x) ⊎ In d ds)
      first_or_later e later (inl same) = (rw same ((==_iff x.class_id k).0 e), inl same)
      first_or_later e later (inr m') = let (same, m2) = later m' in (same, inr m2)

  group_of-In :
      (k : ℕ) (ds : List (Detection R)) (d : Detection R)
      → In d ds
      → d.class_id ≡ k
      → In d (group_of k ds)
  unfolding In
  group_of-In k [] d m same = absurd m
  group_of-In k (x ∷ ds) d (inl e) same =
      rw ((==_iff x.class_id k).1 (ap (λ d. d.class_id) (sym e) ∙ same)) (inl e)
  group_of-In k (x ∷ ds) d (inr m) same = elim (Bool-cases (x.class_id == k)) [
    | inl e ↦ rw e (inr (group_of-In k ds d m same))
    | inr e ↦ rw e (group_of-In k ds d m same)
  ]

  In-append : (d : Detection R) (xs ys : List (Detection R)) → In d (xs ++ ys) → In d xs ⊎ In d ys
  unfolding In
  In-append d [] ys m = inr m
  In-append d (x ∷ xs) ys (inl e) = inl (inl e)
  In-append d (x ∷ xs) ys (inr m) = elim (In-append d xs ys m) [
    | inl m' ↦ inl (inr m')
    | inr m' ↦ inr m'
  ]

  append-In_left : (d : Detection R) (xs ys : List (Detection R)) → In d xs → In d (xs ++ ys)
  unfolding In
  append-In_left d [] ys m = absurd m
  append-In_left d (x ∷ xs) ys (inl e) = inl e
  append-In_left d (x ∷ xs) ys (inr m) = inr (append-In_left d xs ys m)

  append-In_right : (d : Detection R) (xs ys : List (Detection R)) → In d ys → In d (xs ++ ys)
  unfolding In
  append-In_right d [] ys m = m
  append-In_right d (x ∷ xs) ys m = inr (append-In_right d xs ys m)

  only_of :
      (k : ℕ) (xs : List (Detection R))
      → ((d : Detection R) → In d xs → d.class_id ≡ k)
      → group_of k xs ≡ xs
  unfolding In
  only_of k [] h = refl
  only_of k (x ∷ xs) h =
      rw ((==_iff x.class_id k).1 (h x (inl refl))) (ap (◌∷◌ x) (only_of k xs (λ d m. h d (inr m))))

  none_of :
      (k : ℕ) (xs : List (Detection R))
      → ((d : Detection R) → In d xs → d.class_id ≢ k)
      → group_of k xs ≡ []
  unfolding In
  none_of k [] h = refl
  none_of k (x ∷ xs) h = elim (Bool-cases (x.class_id == k)) [
    | inl e ↦ absurd (h x (inl refl) ((==_iff x.class_id k).0 e))
    | inr e ↦ rw e (none_of k xs (λ d m. h d (inr m)))
  ]

  group_of-append :
      (k : ℕ) (xs ys : List (Detection R)) → group_of k (xs ++ ys) ≡ group_of k xs ++ group_of k ys
  group_of-append k [] ys = refl
  group_of-append k (x ∷ xs) ys = elim (Bool-cases (x.class_id == k)) [
    | inl e ↦ rw e (ap (◌∷◌ x) (group_of-append k xs ys))
    | inr e ↦ rw e (group_of-append k xs ys)
  ]

  group-by_class :
      (k : ℕ) (ds : List (Detection R)) → or_nil R (lookup k (by_class R ds [])) ≡ group_of k ds
  unfolding lookup
  group-by_class k ds = lookup-by_class k ds []

  module _ (threshold : R.Carrier) (ordered : IsOrdered R) where
    -- A detection is kept, or something kept of its class that is at least as confident overlaps.
    abbrev pub Represented : Detection R → List (Detection R) → Type 0
    Represented d kept =
        In d kept
        ⊎ ((k : Detection R) × In k kept
            × (k.class_id ≡ d.class_id)
            × (over R threshold k d ≡ true)
            × (more_confident R d k ≡ false))

    kept_of_class :
        (k : ℕ) (ds : List (Detection R)) (d : Detection R)
        → In d (suppress_class R threshold (group_of k ds))
        → (d.class_id ≡ k) × In d ds
    kept_of_class k ds d m =
        In-group_of k ds d ((suppress_class_lem R threshold ordered (group_of k ds)).2 d m)

    visit-In :
        (ds : List (Detection R)) (order : List ℕ) (d : Detection R)
        → In d (visit R threshold (by_class R ds []) order)
        → In d.class_id order × In d ds
    unfolding visit In
    visit-In ds [] d m = absurd m
    visit-In ds (k ∷ order) d m =
        elim (In-append d (suppress_class R threshold (or_nil R (lookup k (by_class R ds []))))
          (visit R threshold (by_class R ds []) order) m) [
            | inl m' ↦
                let (same, m2) = kept_of_class k ds d (rw (group-by_class k ds) at m') in
                (inl same, m2)
            | inr m' ↦ let (mem, m2) = visit-In ds order d m' in (inr mem, m2)
          ]

    Apart-own :
        (k : ℕ) (mine rest : List (Detection R))
        → ((d : Detection R) → In d mine → d.class_id ≡ k)
        → ((d : Detection R) → In d rest → d.class_id ≢ k)
        → Apart R threshold mine
        → Apart R threshold (group_of k mine ++ group_of k rest)
    Apart-own k mine rest own others apart =
        rw (none_of k rest others, only_of k mine own, append-nil mine) apart

    Apart-other :
        (k : ℕ) (mine rest : List (Detection R))
        → ((d : Detection R) → In d mine → d.class_id ≢ k)
        → Apart R threshold (group_of k rest)
        → Apart R threshold (group_of k mine ++ group_of k rest)
    Apart-other k mine rest others apart = rw (none_of k mine others) apart

    visit-Apart :
        (ds : List (Detection R)) (order : List ℕ) (k : ℕ)
        → Distinct order
        → Apart R threshold (group_of k (visit R threshold (by_class R ds []) order))
    unfolding visit
    visit-Apart ds [] k h = tt
    visit-Apart ds (j ∷ order) k h =
        let mine = suppress_class R threshold (group_of j ds) in
        let rest = visit R threshold (by_class R ds []) order in
        rw (group-by_class j ds, group_of-append k mine rest)
          (elim (Bool-cases (j == k)) [
            | inl e ↦
                let same = (==_iff j k).0 e in
                Apart-own k mine rest (λ d m. (kept_of_class j ds d m).0 ∙ same)
                  (λ d m own.
                    All-In j order h.0 d.class_id (visit-In ds order d m).0 (own ∙ sym same))
                  (suppress_class_lem R threshold ordered (group_of j ds)).0
            | inr e ↦
                Apart-other k mine rest
                  (λ d m own.
                    absurd (cc (e, (==_iff j k).1 (sym (kept_of_class j ds d m).0 ∙ own))))
                  (visit-Apart ds order k h.1)
          ])

    visit-Represented :
        (ds : List (Detection R)) (order : List ℕ) (d : Detection R)
        → In d ds
        → In d.class_id order
        → Represented d (visit R threshold (by_class R ds []) order)
    unfolding visit In
    visit-Represented ds [] d m o = absurd o
    visit-Represented ds (k ∷ order) d m (inl same) =
        let mine = suppress_class R threshold (or_nil R (lookup k (by_class R ds []))) in
        let rest = visit R threshold (by_class R ds []) order in
        let listed : In d (group_of k ds) = group_of-In k ds d m same in
        let covered : Covered R threshold d mine =
          rw (group-by_class k ds)
            ((suppress_class_lem R threshold ordered (group_of k ds)).1 d listed) in
        elim covered [
          | inl kept ↦ inl (append-In_left d mine rest kept)
          | inr (c, kept, o, less) ↦
              let (class, m2) = kept_of_class k ds c (rw (group-by_class k ds) at kept) in
              inr (c, append-In_left c mine rest kept, class ∙ sym same, o, less)
        ]
    visit-Represented ds (k ∷ order) d m (inr later) =
        let mine = suppress_class R threshold (or_nil R (lookup k (by_class R ds []))) in
        let rest = visit R threshold (by_class R ds []) order in
        elim (visit-Represented ds order d m later) [
          | inl kept ↦ inl (append-In_right d mine rest kept)
          | inr (c, kept, class, o, less) ↦
              inr (c, append-In_right c mine rest kept, class, o, less)
        ]

    pub nms-In :
        (ds : List (Detection R)) (order : List ℕ) (d : Detection R)
        → In d (nms R threshold order ds)
        → In d ds
    unfolding nms
    nms-In ds order d m = (visit-In ds order d m).1

    -- For a strict order of the scores, and when each class is visited once: of the detections
    -- that nms keeps in a class, none overlaps by more than the threshold with one before it;
    -- every given detection is kept, or one of its class that is at least as confident is kept
    -- and overlaps with it by more than the threshold; and only given detections are kept.
    pub nms-Represented :
        (ds : List (Detection R)) (order : List ℕ)
        → Distinct order
        → ((d : Detection R) → In d ds → In d.class_id order)
        → ((k : ℕ) → Apart R threshold (group_of k (nms R threshold order ds)))
          × ((d : Detection R) → In d ds → Represented d (nms R threshold order ds))
          × ((d : Detection R) → In d (nms R threshold order ds) → In d ds)
    unfolding nms
    nms-Represented ds order distinct all = (
      λ k. visit-Apart ds order k distinct,
      λ d m. visit-Represented ds order d m (all d m),
      λ d m. (visit-In ds order d m).1,
    )
