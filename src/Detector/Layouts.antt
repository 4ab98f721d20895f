-- ===== src/Detector/Layouts.antt =====
-- postprocess.go: the two layouts of the output that parseOutput reads.
use instachron.Base.{
  ℕ, zero, suc, ◌+◌, ◌-◌, ◌*◌, ◌≤◌, ◌<◌, ◌≡◌, refl, ap, ◌∙◌, arith, Bool, true, false, Option, none,
  some, List, get_elem?, if◌then◌else◌,
}
use instachron.Detector.{Float}
use instachron.Detector.Suppression.{nms}
use instachron.Detector.Output.{
  ParseParams, at, best_class, parse_box, candidates, candidate, parse_output, ◌>>=◌,
}

bind-Same :
    {A B : Type 0} (o : Option A) {f g : A → Option B}
    → ((a : A) → f a ≡ g a)
    → (o >>= f) ≡ (o >>= g)
bind-Same none h = refl
bind-Same (some a) h = h a

module _ (R : Float) where
  module _ (read other : ℕ → ℕ → Option R.Carrier) (channels : ℕ) where
    -- The two give the same for every channel of a box.
    abbrev Same : ℕ → Type 0
    Same i = (ch : ℕ) → ch < channels → read ch i ≡ other ch i

    best_class-Same :
        (i left c : ℕ) (best : R.Carrier × ℕ)
        → Same i
        → c + left + 4 ≤ channels
        → best_class R read i left c best ≡ best_class R other i left c best
    unfolding best_class
    best_class-Same i zero c best h fits = refl
    best_class-Same i (suc left) c best h fits = rw (h (4 + c) (omega arith)) (
        bind-Same (other (4 + c) i) (λ s.
          best_class-Same i left (suc c) (if R.lt best.0 s then (s, c) else best) h (omega arith)))

    parse_box-Same :
        (p : ParseParams R) (i : ℕ)
        → 4 ≤ channels
        → p.layout.num_channels ≡ channels
        → Same i
        → parse_box R read p i ≡ parse_box R other p i
    unfolding parse_box
    parse_box-Same p i big e h =
        rw
          (
            best_class-Same i (p.layout.num_channels - 4) 0 (R.of_int 0, 0) h (omega (arith, e)),
            h 0 (omega arith),
            h 1 (omega arith),
            h 2 (omega arith),
            h 3 (omega arith),
          )
          refl

    candidates-Same :
        (p : ParseParams R) (left i : ℕ)
        → 4 ≤ channels
        → p.layout.num_channels ≡ channels
        → ((box : ℕ) → box < left + i → Same box)
        → candidates R read p left i ≡ candidates R other p left i
    unfolding candidates
    candidates-Same p zero i big e h = refl
    candidates-Same p (suc left) i big e h =
        rw
          (
            parse_box-Same p i big e (h i (omega arith)),
            candidates-Same p left (suc i) big e (λ box b. h box (omega arith)),
          )
          refl

  -- The same parameters with one layout or the other.
  abbrev pub with_layout : Bool → ParseParams R → ParseParams R
  with_layout transposed p = record {
    layout = record {
      num_boxes = p.layout.num_boxes;
      num_channels = p.layout.num_channels;
      transposed = transposed;
    };
    conf_threshold = p.conf_threshold;
    nms_threshold = p.nms_threshold;
    letterbox = p.letterbox;
    orig_w = p.orig_w;
    orig_h = p.orig_h;
  }

  candidates-with_layout :
      (read : ℕ → ℕ → Option R.Carrier) (p : ParseParams R) (left i : ℕ)
      → candidates R read (with_layout false p) left i
        ≡ candidates R read (with_layout true p) left i
  unfolding candidates parse_box candidate
  candidates-with_layout read p zero i = refl
  candidates-with_layout read p (suc left) i = rw (candidates-with_layout read p left (suc i)) refl

  -- Two outputs that hold the same numbers, one with the channels first and one with the boxes
  -- first, are parsed to the same detections, when there are at least four channels.
  pub parse_output-with_layout :
      (order : List ℕ) (raw other : List R.Carrier) (p : ParseParams R)
      → 4 ≤ p.layout.num_channels
      → ((ch box : ℕ)
          → ch < p.layout.num_channels
          → box < p.layout.num_boxes
          → get_elem? raw (ch * p.layout.num_boxes + box)
            ≡ get_elem? other (box * p.layout.num_channels + ch))
      → parse_output R order raw (with_layout false p)
        ≡ parse_output R order other (with_layout true p)
  unfolding parse_output at
  parse_output-with_layout order raw other p big same =
      let one = with_layout false p in
      let two = with_layout true p in
      ap (λ found. found >>= λ ds. some (nms R p.nms_threshold order ds))
        (candidates-Same (at R one.layout raw) (at R two.layout other) p.layout.num_channels one
            p.layout.num_boxes 0 big refl (λ box b ch c. same ch box c (omega arith))
          ∙ candidates-with_layout (at R two.layout other) p p.layout.num_boxes 0)
