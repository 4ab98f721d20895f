-- ===== src/Streamer/Compose.antt =====
-- internal/compose/compose.go: the frames of all cameras on one canvas. The codec is a parameter, and
-- float64 is a type with the operations that the code uses. math.Sqrt and math.Ceil are exact for the
-- number of cameras.
pub mod Fit
pub mod Grid
use instachron.Base.{
  ℕ, zero, suc, ◌+◌, ◌-◌, ◌*◌, ◌/◌, ◌%◌, Bool, Option, none, some, List, [], ◌∷◌, length, Map, ltb,
  leb, ◌==◌, nat_instance, if◌then◌else◌,
}
use instachron.Base.{◌||◌, ◌&&◌}
use instachron.Base.Int.{ℤ, pos, sub_ℕ, ◌+ℤ◌}
use instachron.Sorting.{sort}
use instachron.Detector.{Float}
use instachron.WebApi.Rotation.{Image}

-- int(math.Ceil(math.Sqrt(float64(n))))
unfoldable pub ceil_sqrt : ℕ → ℕ
ceil_sqrt zero = 0
ceil_sqrt (suc n) = let c = ceil_sqrt n in if leb (suc n) (c * c) then c else suc c

unfoldable pub grid_layout : ℕ → ℕ × ℕ
unfolding ceil_sqrt
grid_layout n = let cols = ceil_sqrt n in if n == 0 then (0, 0) else (cols, (n + cols - 1) / cols)

-- Images with pixels of type P, and their codec; zero is the pixel of a new image.
pub record Images : Type 1 where
  pub P : Type 0
  pub zero_pixel : P
  pub decode : List ℕ → Option (Image P)
  -- The canvas of a size with images at their offsets, as JPEG.
  pub encode : ℕ × ℕ → List (Image P × ℤ × ℤ) → Option (List ℕ)

module _ (R : Float) where
  -- The size that an image is scaled to.
  unfoldable pub fit_size : ℕ × ℕ → ℕ × ℕ → ℕ × ℕ
  fit_size (src_w, src_h) (max_w, max_h) =
      let scale_x = R.div (R.of_int max_w) (R.of_int src_w) in
      let scale_y = R.div (R.of_int max_h) (R.of_int src_h) in
      let scale = if R.lt scale_y scale_x then scale_y else scale_x in
      (R.trunc (R.mul (R.of_int src_w) scale), R.trunc (R.mul (R.of_int src_h) scale))

  unfoldable pub fit_image : {P : Type 0} → P → Image P → ℕ → ℕ → Image P
  unfolding fit_size
  fit_image zero_pixel src max_w max_h =
      let (dst_w, dst_h) = fit_size (src.width, src.height) (max_w, max_h) in
      if src.width == 0 || src.height == 0
      then record { width = max_w; height = max_h; pixel = λ x y. zero_pixel }
      else if dst_w == src.width && dst_h == src.height
      then src
      else record {
        width = dst_w;
        height = dst_h;
        pixel = λ x y. src.pixel (x * src.width / dst_w) (y * src.height / dst_h);
      }

abbrev before : ℕ × List ℕ → ℕ × List ℕ → Bool
before a b = ltb a.0 b.0

-- (cell - size) / 2, which is rounded towards zero.
unfoldable pub margin : ℕ → ℕ → ℤ
margin cell size = if leb size cell then pos ((cell - size) / 2) else sub_ℕ 0 ((size - cell) / 2)

-- The offset of the image of cell i.
unfoldable pub offset : ℕ → ℕ → ℕ → ℕ → ℕ → ℕ → ℤ × ℤ
unfolding margin
offset cols cell_w cell_h i w h =
    (pos (i % cols * cell_w) +ℤ margin cell_w w, pos (i / cols * cell_h) +ℤ margin cell_h h)

-- What Canvas returns: nil without an error, an error, or a JPEG.
pub data Composed : Type 0 where
  nothing : Composed
  failed : Composed
  canvas : List ℕ → Composed

module _ (R : Float) (lib : Images) where
  abbrev add_cell : Option (Image lib.P) → List (Image lib.P) → List (Image lib.P)
  add_cell none imgs = imgs
  add_cell (some img) imgs = img ∷ imgs

  abbrev cells : List (ℕ × List ℕ) → List (Image lib.P)
  cells [] = []
  cells ((id, jpeg) ∷ frames) = add_cell (lib.decode jpeg) (cells frames)

  abbrev place_from : ℕ → ℕ → ℕ → ℕ → List (Image lib.P) → List (Image lib.P × ℤ × ℤ)
  unfolding offset fit_image
  place_from cols cell_w cell_h i [] = []
  place_from cols cell_w cell_h i (img ∷ imgs) =
      let scaled = fit_image R lib.zero_pixel img cell_w cell_h in
      let (x, y) = offset cols cell_w cell_h i scaled.width scaled.height in
      (scaled, x, y) ∷ place_from cols cell_w cell_h (suc i) imgs

  abbrev encoded : Option (List ℕ) → Composed
  encoded none = failed
  encoded (some jpeg) = canvas jpeg

  abbrev draw_cells : ℕ → ℕ → List (Image lib.P) → Composed
  unfolding grid_layout place_from
  draw_cells cell_w cell_h [] = nothing
  draw_cells cell_w cell_h (img ∷ imgs) =
      let (cols, rows) = grid_layout (length (img ∷ imgs)) in
      encoded
        (lib.encode (cols * cell_w, rows * cell_h) (place_from cols cell_w cell_h 0 (img ∷ imgs)))

  unfoldable pub compose : Map ℕ (List ℕ) → ℕ → ℕ → Composed
  unfolding draw_cells sort
  compose frames cell_w cell_h = draw_cells cell_w cell_h (cells (sort before frames))
