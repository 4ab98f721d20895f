-- ===== src/Detector/Output/Valid.antt =====
-- What parse_output returns of an output of the right size.
use instachron.Base.{
  ℕ, zero, suc, ◌+◌, ◌-◌, ◌*◌, ◌≤◌, ◌<◌, ◌≡◌, refl, sym, arith, Bool, true, false, ◌||◌, Option,
  none, some, List, [], ◌∷◌, length, get_elem?, if◌then◌else◌, Bool-cases, inl, inr,
}
use native.Mathlib.Nat.{mul_comm}
use mathlib.Core.Path.{subst}
use instachron.Sorting.{In}
use instachron.Detector.{Float, IsOrdered, Detection, OutputLayout, clamp}
use instachron.Detector.Suppression.{nms}
use instachron.Detector.Suppression.Classes.{nms-In}
use instachron.Detector.Output.{
  ParseParams, to_original, at, best_class, class_name_of, candidate, parse_box, candidates,
  parse_output, add_found,
}

get_elem?_total :
    {A : Type 0} (xs : List A) (i : ℕ) → i < length xs → (x : A) × (get_elem? xs i ≡ some x)
get_elem?_total [] i h = absurd (omega arith)
get_elem?_total (x ∷ xs) zero h = (x, refl)
get_elem?_total (x ∷ xs) (suc i) h = get_elem?_total xs i (omega arith)

-- Row-major: the index of a place is below the size.
below : (i j n m : ℕ) → i < n → j < m → i * m + j < n * m
below i j zero m h k = absurd (omega arith)
below zero j (suc n) m h k = omega arith
below (suc i) j (suc n) m h k = omega (arith, below i j n m (omega arith) k)

or-false : (a b : Bool) → (a || b) ≡ false → (a ≡ false) × (b ≡ false)
or-false true b h = absurd (cc)
or-false false b h = (refl, h)

module _ (R : Float) where
  -- A detection with its class and name, a score that counts, and a box in the frame that is not
  -- empty.
  abbrev pub InFrame : ParseParams R → Detection R → Type 0
  InFrame p d =
      (d.class_id + 4 < p.layout.num_channels)
      × (d.class_name ≡ class_name_of d.class_id)
      × (R.lt d.confidence p.conf_threshold ≡ false)
      × (R.lt d.x1 (R.of_int 0) ≡ false)
      × (R.lt d.y1 (R.of_int 0) ≡ false)
      × (R.lt (R.of_int p.orig_w) d.x2 ≡ false)
      × (R.lt (R.of_int p.orig_h) d.y2 ≡ false)
      × (R.le d.x2 d.x1 ≡ false)
      × (R.le d.y2 d.y1 ≡ false)

  pub at_total :
      (layout : OutputLayout) (raw : List R.Carrier) (ch box : ℕ)
      → length raw ≡ layout.num_boxes * layout.num_channels
      → ch < layout.num_channels
      → box < layout.num_boxes
      → (v : R.Carrier) × (at R layout raw ch box ≡ some v)
  unfolding at
  at_total layout raw ch box size h k = elim (Bool-cases layout.transposed) [
    | inl e ↦ rw e (
        get_elem?_total raw (box * layout.num_channels + ch)
          (omega (arith, size, below box ch layout.num_boxes layout.num_channels k h)))
    | inr e ↦ rw e (
        get_elem?_total raw (ch * layout.num_boxes + box) (
          omega (
            arith,
            size,
            mul_comm layout.num_boxes layout.num_channels,
            below ch box layout.num_channels layout.num_boxes h k,
          )))
  ]

  module _ (read : ℕ → ℕ → Option R.Carrier) (channels : ℕ) where
    -- Every channel of a box can be read.
    abbrev pub Reads : ℕ → Type 0
    Reads i = (ch : ℕ) → ch < channels → (v : R.Carrier) × (read ch i ≡ some v)

    best_class_total :
        (i left c : ℕ) (best : R.Carrier × ℕ)
        → Reads i
        → c + left + 4 ≤ channels
        → best.1 + 4 < channels
        → (b : R.Carrier × ℕ) × (best_class R read i left c best ≡ some b) × (b.1 + 4 < channels)
    unfolding best_class
    best_class_total i zero c best h fits below = (best, refl, below)
    best_class_total i (suc left) c best h fits below =
        let (s, e) = h (4 + c) (omega arith) in
        rw e (
          best_class_total i left (suc c) (if R.lt best.0 s then (s, c) else best) h (omega arith)
            (elim (Bool-cases (R.lt best.0 s)) [ inl t ↦ rw t (omega arith) | inr t ↦ rw t below ]))

  module _ (ordered : IsOrdered R) where
    irreflexive : (a : R.Carrier) → R.lt a a ≡ false
    irreflexive a = elim (Bool-cases (R.lt a a)) [ inl e ↦ ordered.asymmetric a a e | inr e ↦ e ]

    clamp-le_low : (v lo hi : R.Carrier) → R.lt hi lo ≡ false → R.lt (clamp R v lo hi) lo ≡ false
    unfolding clamp
    clamp-le_low v lo hi h = elim (Bool-cases (R.lt v lo)) [
      | inl e ↦ rw e (irreflexive lo)
      | inr e ↦ elim (Bool-cases (R.lt hi v)) [ inl e2 ↦ rw (e, e2) h | inr e2 ↦ rw (e, e2) e ]
    ]

    clamp-le_high : (v lo hi : R.Carrier) → R.lt hi lo ≡ false → R.lt hi (clamp R v lo hi) ≡ false
    unfolding clamp
    clamp-le_high v lo hi h = elim (Bool-cases (R.lt v lo)) [
      | inl e ↦ rw e h
      | inr e ↦ elim (Bool-cases (R.lt hi v)) [
        | inl e2 ↦ rw (e, e2) (irreflexive hi)
        | inr e2 ↦ rw (e, e2) e2
      ]
    ]

    abbrev Found : ParseParams R → Option (Detection R) → Type 0
    Found p none = Unit {0}
    Found p (some d) = InFrame p d

    candidate-Found :
        (p : ParseParams R) (class : ℕ) (score : R.Carrier) (centre size : R.Carrier × R.Carrier)
        → class + 4 < p.layout.num_channels
        → R.lt score p.conf_threshold ≡ false
        → Found p (candidate R p class score centre size)
    unfolding candidate to_original
    candidate-Found p class score (cx, cy) (w, h) c s =
        let lb = p.letterbox in
        let zero = R.of_int 0 in
        let two = R.of_int 2 in
        let top =
          to_original R lb (R.sub cx (R.div w two)) (R.sub cy (R.div h two)) p.orig_w p.orig_h in
        let bottom =
          to_original R lb (R.add cx (R.div w two)) (R.add cy (R.div h two)) p.orig_w p.orig_h in
        let back = λ (v : R.Carrier). λ (pad : ℕ). R.div (R.sub v (R.of_int pad)) lb.scale in
        let wide = ordered.of_int_nonneg p.orig_w in
        let high = ordered.of_int_nonneg p.orig_h in
        elim (Bool-cases (R.le bottom.0 top.0 || R.le bottom.1 top.1)) [
          | inl e ↦ rw e tt
          | inr e ↦
              let (x, y) = or-false (R.le bottom.0 top.0) (R.le bottom.1 top.1) e in
              rw e (
                c,
                refl,
                s,
                clamp-le_low (back (R.sub cx (R.div w two)) lb.pad_left) zero (R.of_int p.orig_w)
                    wide,
                clamp-le_low (back (R.sub cy (R.div h two)) lb.pad_top) zero (R.of_int p.orig_h)
                    high,
                clamp-le_high (back (R.add cx (R.div w two)) lb.pad_left) zero (R.of_int p.orig_w)
                    wide,
                clamp-le_high (back (R.add cy (R.div h two)) lb.pad_top) zero (R.of_int p.orig_h)
                    high,
                x,
                y,
              )
        ]

    Found-add :
        (p : ParseParams R) (o : Option (Detection R)) (rest : List (Detection R))
        → Found p o
        → ((d : Detection R) → In d rest → InFrame p d)
        → (d : Detection R) → In d (add_found R o rest)
        → InFrame p d
    unfolding In
    Found-add p none rest found all d m = all d m
    Found-add p (some x) rest found all d (inl e) = subst (InFrame p) (sym e) found
    Found-add p (some x) rest found all d (inr m) = all d m

    parse_box_total :
        (read : ℕ → ℕ → Option R.Carrier) (p : ParseParams R) (i : ℕ)
        → 4 < p.layout.num_channels
        → Reads read p.layout.num_channels i
        → (o : Option (Detection R)) × (parse_box R read p i ≡ some o) × Found p o
    unfolding parse_box
    parse_box_total read p i classes h =
        let n = p.layout.num_channels in
        let (best, e, c) =
          best_class_total read n i (n - 4) 0 (R.of_int 0, 0) h (omega arith) (omega arith) in
        let (cx, e0) = h 0 (omega arith) in
        let (cy, e1) = h 1 (omega arith) in
        let (w, e2) = h 2 (omega arith) in
        let (high, e3) = h 3 (omega arith) in
        elim (Bool-cases (R.lt best.0 p.conf_threshold)) [
          | inl low ↦ (none, rw (e, low) refl, tt)
          | inr fine ↦
              let o = candidate R p best.1 best.0 (cx, cy) (w, high) in
              (
                o,
                rw (e, fine, e0, e1, e2, e3) refl,
                candidate-Found p best.1 best.0 (cx, cy) (w, high) c fine,
              )
        ]

    candidates_total :
        (read : ℕ → ℕ → Option R.Carrier) (p : ParseParams R) (left i : ℕ)
        → 4 < p.layout.num_channels
        → ((box : ℕ) → box < left + i → Reads read p.layout.num_channels box)
        → (ds : List (Detection R)) × (candidates R read p left i ≡ some ds)
          × ((d : Detection R) → In d ds → InFrame p d)
    unfolding candidates In
    candidates_total read p zero i classes h = ([], refl, λ d m. absurd m)
    candidates_total read p (suc left) i classes h =
        let (o, e, found) = parse_box_total read p i classes (h i (omega arith)) in
        let (rest, e2, all) =
          candidates_total read p left (suc i) classes (λ box b. h box (omega arith)) in
        (add_found R o rest, rw (e, e2) refl, Found-add p o rest found all)

    -- For an output of the size that its layout states, with at least one class, and an order of
    -- the scores: parseOutput returns without a read outside the output, and each detection has a
    -- class of the model with its name, a score not below the threshold, and a box within the
    -- frame that is not empty.
    pub parse_output_total :
        (order : List ℕ) (raw : List R.Carrier) (p : ParseParams R)
        → 4 < p.layout.num_channels
        → length raw ≡ p.layout.num_boxes * p.layout.num_channels
        → (ds : List (Detection R)) × (parse_output R order raw p ≡ some ds)
          × ((d : Detection R) → In d ds → InFrame p d)
    unfolding parse_output
    parse_output_total order raw p classes size =
        let (ds, e, all) =
          candidates_total (at R p.layout raw) p p.layout.num_boxes 0 classes
            (λ box b ch c. at_total p.layout raw ch box size c (omega arith)) in
        (
          nms R p.nms_threshold order ds,
          rw e refl,
          λ d m. all d (nms-In R p.nms_threshold ordered ds order d m),
        )
