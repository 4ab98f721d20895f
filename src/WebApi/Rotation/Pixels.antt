-- ===== src/WebApi/Rotation/Pixels.antt =====
-- Where the rotations put each pixel.
use instachron.Base.{
  ℕ, zero, suc, ◌-◌, ◌<◌, ◌≡◌, refl, sym, ◌∙◌, arith, false, ◌&&◌, ◌==◌, ==_iff, ◌⊎◌, inl, inr,
}
use instachron.WebApi.Rotation.{
  Image, for_range, set, new_rgba, copy_pixels, rotate90, rotate180, rotate270,
}
use native.Mathlib.Decide.{dec_lt}
use mathlib.Core.Path.{subst}

module _ {S : Type 0} where
  for_range-keeps :
      (J : S → Type 0) (n : ℕ) (body : ℕ → S → S) (s : S)
      → ((i : ℕ) (t : S) → i < n → J t → J (body i t))
      → J s
      → J (for_range n body s)
  unfolding for_range
  for_range-keeps J zero body s keeps start = start
  for_range-keeps J (suc n) body s keeps start =
      keeps n (for_range n body s) (omega arith)
        (for_range-keeps J n body s (λ i t lt. keeps i t (omega arith)) start)

  -- Round k makes J true from the invariant I, and no later round undoes it.
  for_range-makes :
      (I J : S → Type 0) (n k : ℕ) (body : ℕ → S → S) (s : S)
      → k < n
      → ((i : ℕ) (t : S) → I t → I (body i t))
      → ((t : S) → I t → J (body k t))
      → ((i : ℕ) (t : S) → i < n → k < i → J t → J (body i t))
      → I s
      → J (for_range n body s)
  unfolding for_range
  for_range-makes I J zero k body s lt step makes keeps start = absurd (omega arith)
  for_range-makes I J (suc n) k body s lt step makes keeps start =
      let t = for_range n body s in
      elim (dec_lt k n) [
        | yes earlier ↦ keeps n t (omega arith) earlier (
            for_range-makes I J n k body s earlier step makes (λ i u h. keeps i u (omega arith))
              start)
        | no last ↦
            let e : k ≡ n = omega arith in
            let inv : I t = for_range-keeps I n body s (λ i u _. step i u) start in
            subst (λ i. J (body i t)) e (makes t inv)
      ]

module _ {P : Type 0} where
  abbrev SameSize : ℕ → ℕ → Image P → Type 0
  SameSize w h img = (img.width ≡ w) × (img.height ≡ h)

  set_at :
      (x y : ℕ) (c : P) (img : Image P)
      → x < img.width
      → y < img.height
      → (set x y c img).pixel x y ≡ c
  unfolding set
  set_at x y c img inx iny = ground (arith, ==_iff x x, ==_iff y y)

  set_elsewhere :
      (x y i j : ℕ) (c : P) (img : Image P)
      → (i == x && j == y) ≡ false
      → (set x y c img).pixel i j ≡ img.pixel i j
  unfolding set
  set_elsewhere x y i j c img other = ground arith

  -- The loops of a rotation: every pixel goes to its place when two of them never share one.
  copy_pixels-pixel :
      (to_x to_y : ℕ → ℕ → ℕ) (src dst : Image P) (x y : ℕ)
      → x < src.width
      → y < src.height
      → to_x x y < dst.width
      → to_y x y < dst.height
      → ((i j : ℕ)
          → i < src.width
          → j < src.height
          → (x < i) ⊎ (y < j)
          → (to_x x y == to_x i j && to_y x y == to_y i j) ≡ false)
      → (copy_pixels to_x to_y src dst).pixel (to_x x y) (to_y x y) ≡ src.pixel x y
  unfolding copy_pixels
  copy_pixels-pixel to_x to_y src dst x y inx iny fitx fity apart =
      let w = dst.width in
      let h = dst.height in
      let put : ℕ → ℕ → Image P → Image P = λ j i d. set (to_x i j) (to_y i j) (src.pixel i j) d in
      let row : ℕ → Image P → Image P = λ j d. for_range src.width (put j) d in
      let Right : Image P → Type 0 = λ d. d.pixel (to_x x y) (to_y x y) ≡ src.pixel x y in
      for_range-makes (SameSize w h) Right src.height y row dst iny
        (λ j d size.
          for_range-keeps (SameSize w h) src.width (put j) d (λ i t _ e. unfold set in e) size)
        (λ d size.
          for_range-makes (SameSize w h) Right src.width x (put y) d inx (λ i t e. unfold set in e)
            (λ t e.
              set_at (to_x x y) (to_y x y) (src.pixel x y) t (omega (arith, e.0))
                (omega (arith, e.1)))
            (λ i t lt later right.
              set_elsewhere _ _ _ _ (src.pixel i y) t (apart i y lt iny (inl later)) ∙ right)
            size)
        (λ j d lt later right.
          for_range-keeps Right src.width (put j) d
            (λ i t inw r.
              set_elsewhere _ _ _ _ (src.pixel i j) t (apart i j inw lt (inr later)) ∙ r)
            right)
        (refl, refl)

  copy_pixels-size :
      (to_x to_y : ℕ → ℕ → ℕ) (src dst : Image P)
      → SameSize dst.width dst.height (copy_pixels to_x to_y src dst)
  unfolding copy_pixels
  copy_pixels-size to_x to_y src dst =
      for_range-keeps (SameSize dst.width dst.height) src.height _ dst
        (λ j d _ size.
          for_range-keeps (SameSize dst.width dst.height) src.width _ d (λ i t _ e. unfold set in e)
            size)
        (refl, refl)

  rotate90-size : (blank : P) (src : Image P) → SameSize src.height src.width (rotate90 blank src)
  unfolding rotate90 new_rgba
  rotate90-size blank src = copy_pixels-size _ _ src (new_rgba blank src.height src.width)

  rotate90-pixel :
      (blank : P) (src : Image P) (x y : ℕ)
      → x < src.width
      → y < src.height
      → (rotate90 blank src).pixel (src.height - 1 - y) x ≡ src.pixel x y
  unfolding rotate90 new_rgba
  rotate90-pixel blank src x y inx iny =
      copy_pixels-pixel (λ i j. src.height - 1 - j) (λ i j. i) src
        (new_rgba blank src.height src.width) x y inx iny (omega arith) inx
        (λ i j ini inj later. ground arith)

  rotate180-pixel :
      (blank : P) (src : Image P) (x y : ℕ)
      → x < src.width
      → y < src.height
      → (rotate180 blank src).pixel (src.width - 1 - x) (src.height - 1 - y) ≡ src.pixel x y
  unfolding rotate180 new_rgba
  rotate180-pixel blank src x y inx iny =
      copy_pixels-pixel (λ i j. src.width - 1 - i) (λ i j. src.height - 1 - j) src
        (new_rgba blank src.width src.height) x y inx iny (omega arith) (omega arith)
        (λ i j ini inj later. ground arith)

  rotate270-pixel :
      (blank : P) (src : Image P) (x y : ℕ)
      → x < src.width
      → y < src.height
      → (rotate270 blank src).pixel y (src.width - 1 - x) ≡ src.pixel x y
  unfolding rotate270 new_rgba
  rotate270-pixel blank src x y inx iny =
      copy_pixels-pixel (λ i j. j) (λ i j. src.width - 1 - i) src
        (new_rgba blank src.height src.width) x y inx iny iny (omega arith)
        (λ i j ini inj later. ground arith)

  -- A rotation by 90 degrees followed by one by 270 puts every pixel of the image back.
  pub rotate270-rotate90 :
      (blank : P) (src : Image P) (x y : ℕ)
      → x < src.width
      → y < src.height
      → (rotate270 blank (rotate90 blank src)).pixel x y ≡ src.pixel x y
  rotate270-rotate90 blank src x y inx iny =
      let turned = rotate90 blank src in
      let (w, h) = rotate90-size blank src in
      let k = src.height - 1 - y in
      let back : turned.width - 1 - k ≡ y = omega arith in
      rw back at (rotate270-pixel blank turned k x (omega arith) (omega arith))
      ∙ rotate90-pixel blank src x y inx iny

  -- Two rotations by 90 degrees put at every place of the image what one by 180 does.
  pub rotate90-rotate90 :
      (blank : P) (src : Image P) (x y : ℕ)
      → x < src.width
      → y < src.height
      → (rotate90 blank (rotate90 blank src)).pixel x y ≡ (rotate180 blank src).pixel x y
  rotate90-rotate90 blank src x y inx iny =
      let turned = rotate90 blank src in
      let (w, h) = rotate90-size blank src in
      let x0 = src.width - 1 - x in
      let y0 = src.height - 1 - y in
      let ex : turned.height - 1 - x0 ≡ x = omega arith in
      let ex' : src.width - 1 - x0 ≡ x = omega arith in
      let ey : src.height - 1 - y0 ≡ y = omega arith in
      let two = rotate90-pixel blank turned y x0 (omega arith) (omega arith) in
      let one = rotate90-pixel blank src x0 y0 (omega arith) (omega arith) in
      let half = rotate180-pixel blank src x0 y0 (omega arith) (omega arith) in
      (rw ex at two) ∙ (rw ey at one) ∙ sym (rw (ex', ey) at half)
