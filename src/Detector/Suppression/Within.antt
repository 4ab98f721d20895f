-- ===== src/Detector/Suppression/Within.antt =====
-- The suppression within a class, from the order of the detections by confidence.
use instachron.Base.{suc, ◌≤◌, ◌≡◌, refl, arith, false, List, [], ◌∷◌, length, All, ap}
use instachron.Sorting.{sort, Ascending, sort-Ascending, length-sort, In, In-sort}
use instachron.Detector.{Float, IsOrdered, Detection}
use instachron.Detector.Suppression.{suppress_class, more_confident, unflagged}
use instachron.Detector.Suppression.Greedy.{
  Apart, Covered, Descending, open_ones, greedy-Apart, greedy-Covered, greedy-In,
}

module _ (R : Float) (threshold : R.Carrier) where
  open_ones-unflagged : (ds : List (Detection R)) → open_ones R threshold (unflagged R ds) ≡ ds
  open_ones-unflagged [] = refl
  open_ones-unflagged (d ∷ ds) = ap (◌∷◌ d) (open_ones-unflagged ds)

  length-unflagged : (ds : List (Detection R)) → length (unflagged R ds) ≡ length ds
  length-unflagged [] = refl
  length-unflagged (d ∷ ds) = ap suc (length-unflagged ds)

  module _ (ordered : IsOrdered R) where
    Ascending-head :
        (d : Detection R) (ds : List (Detection R))
        → Ascending (more_confident R) (d ∷ ds)
        → All (λ e. more_confident R e d ≡ false) ds
    Ascending-head d [] s = tt
    Ascending-head d (e ∷ ds) s = (s.0, further d e ds s.0 (Ascending-head e ds s.1))
      where
        further :
            (d e : Detection R) (ds : List (Detection R))
            → more_confident R e d ≡ false
            → All (λ x. more_confident R x e ≡ false) ds
            → All (λ x. more_confident R x d ≡ false) ds
        further d e [] first rest = tt
        further d e (x ∷ ds) first rest = (
          ordered.ge_trans d.confidence e.confidence x.confidence first rest.0,
          further d e ds first rest.1,
        )

    Ascending-Descending :
        (ds : List (Detection R))
        → Ascending (more_confident R) ds
        → Descending R threshold (unflagged R ds)
    Ascending-Descending [] s = tt
    Ascending-Descending (d ∷ []) s = (tt, tt)
    Ascending-Descending (d ∷ e ∷ ds) s = (
      rw (open_ones-unflagged ds) (Ascending-head d (e ∷ ds) s),
      Ascending-Descending (e ∷ ds) s.1,
    )

    -- What a class keeps of its detections.
    pub suppress_class_lem :
        (group : List (Detection R))
        → Apart R threshold (suppress_class R threshold group)
          × ((d : Detection R)
              → In d group
              → Covered R threshold d (suppress_class R threshold group))
          × ((d : Detection R) → In d (suppress_class R threshold group) → In d group)
    unfolding suppress_class
    suppress_class_lem group =
        let sorted = sort (more_confident R) group in
        let ds = unflagged R sorted in
        let n = length group in
        let enough : length ds ≤ n =
          omega (arith, length-unflagged sorted, length-sort (more_confident R) group) in
        let falling = Ascending-Descending sorted (
          sort-Ascending (more_confident R) (λ a b. ordered.asymmetric b.confidence a.confidence)
            group) in
        (
          greedy-Apart R threshold n ds,
          λ d m.
              greedy-Covered R threshold n ds d enough falling
                (rw (open_ones-unflagged sorted) ((In-sort (more_confident R) d group).1 m)),
          λ d m.
              (In-sort (more_confident R) d group).0
                (rw (open_ones-unflagged sorted) at (greedy-In R threshold n ds d m)),
        )
