-- ===== src/Detector/Suppression.antt =====
-- postprocess.go, nms: non-maximum suppression, class by class. Go visits the classes of a map in
-- any order, which is a parameter.
pub mod Greedy
pub mod Within
pub mod Classes
use instachron.Base.{
  ℕ, zero, suc, ◌+◌, ◌≡◌, Bool, true, false, ◌||◌, Option, none, some, List, [], ◌∷◌, ◌++◌, length,
  map, Map, lookup, insert, nat_instance, if◌then◌else◌,
}
use instachron.Sorting.{sort}
use instachron.Detector.{Float, Detection, box_iou}

module _ (R : Float) where
  -- byClass: each class with its detections, in their order.
  abbrev pub or_nil : Option (List (Detection R)) → List (Detection R)
  or_nil none = []
  or_nil (some ds) = ds

  unfoldable pub by_class :
      List (Detection R) → Map ℕ (List (Detection R)) → Map ℕ (List (Detection R))
  by_class [] groups = groups
  by_class (d ∷ ds) groups =
      by_class ds (insert d.class_id (or_nil (lookup d.class_id groups) ++ (d ∷ [])) groups)

  -- The less function of sort.Slice.
  abbrev pub more_confident : Detection R → Detection R → Bool
  more_confident a b = R.lt b.confidence a.confidence

  abbrev pub unflagged : List (Detection R) → List (Detection R × Bool)
  unflagged ds = map (λ d. (d, false)) ds

  module _ (threshold : R.Carrier) where
    abbrev pub overlaps : Detection R → Detection R → Bool
    overlaps a b = R.lt threshold (box_iou R a b)

    -- The inner loop: the later detections that overlap are suppressed.
    unfoldable pub suppress : Detection R → List (Detection R × Bool) → List (Detection R × Bool)
    suppress d [] = []
    suppress d ((other, suppressed) ∷ rest) =
        (other, suppressed || overlaps d other) ∷ suppress d rest

    -- The outer loop, with as many rounds as there are detections.
    unfoldable pub greedy : ℕ → List (Detection R × Bool) → List (Detection R)
    greedy zero ds = []
    greedy (suc n) [] = []
    greedy (suc n) ((d, true) ∷ ds) = greedy n ds
    greedy (suc n) ((d, false) ∷ ds) = d ∷ greedy n (suppress d ds)

    unfoldable pub suppress_class : List (Detection R) → List (Detection R)
    unfolding greedy suppress sort
    suppress_class group = greedy (length group) (unflagged (sort more_confident group))

    unfoldable pub visit : Map ℕ (List (Detection R)) → List ℕ → List (Detection R)
    visit groups [] = []
    visit groups (k ∷ order) = suppress_class (or_nil (lookup k groups)) ++ visit groups order

    unfoldable pub nms : List ℕ → List (Detection R) → List (Detection R)
    unfolding by_class visit suppress_class
    nms order dets = visit (by_class dets []) order
