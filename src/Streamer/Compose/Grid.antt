-- ===== src/Streamer/Compose/Grid.antt =====
-- The grid of the merged canvas: it is as small as it can be, and an image stays in its cell.
use instachron.Base.Int.{pos, ◌+ℤ◌, ◌≤ℤ◌}
use instachron.Base.{◌^◌, true, refl, ◌≡◌, true, false}
use instachron.WebApi.Rotation.{Image}
use instachron.Detector.{Float}
use instachron.Streamer.Compose.{fit_image, margin}
use instachron.Base.{
  ℕ, zero, suc, ◌+◌, ◌-◌, ◌*◌, ◌/◌, ◌%◌, ◌≤◌, ◌<◌, ◌≡◌, ap, arith, false, leb, ◌==◌, nat_instance,
  Bool-cases, inl, inr, ◌⊎◌,
}
use native.Mathlib.Omega.{div_any}
use native.Mathlib.Nat.{mod-lt, mul_comm, mul-le-mul_left}
use native.Mathlib.Decide.{dec_lt}
use instachron.Streamer.Compose.Fit.{IsScaling, IsJpegSize, fit_image_le}
use instachron.Streamer.Compose.{ceil_sqrt, grid_layout, offset}

-- One more: the root stays while the square is large enough.
same_root :
    (n c : ℕ)
    → suc n ≤ c * c
    → (0 < n → (0 < c) × ((c - 1) * (c - 1) < n))
    → 0 < n
    → (0 < c) × ((c - 1) * (c - 1) < suc n)
same_root n c big h some_n = let (positive, least) = h some_n in (positive, omega arith)

next_root : (n c : ℕ) → n ≤ c * c → c * c < suc n → suc n ≤ suc c * suc c
next_root n c h k = omega arith

ceil_sqrt-square :
    (n : ℕ)
    → (n ≤ ceil_sqrt n * ceil_sqrt n)
      × (0 < n → (0 < ceil_sqrt n) × ((ceil_sqrt n - 1) * (ceil_sqrt n - 1) < n))
unfolding ceil_sqrt
ceil_sqrt-square zero = (omega arith, λ h. absurd (omega arith))
ceil_sqrt-square (suc zero) = (omega arith, λ h. (omega arith, omega arith))
ceil_sqrt-square (suc (suc n)) =
    let c = ceil_sqrt (suc n) in
    let (large, least) = ceil_sqrt-square (suc n) in
    elim (Bool-cases (leb (suc (suc n)) (c * c))) [
      | inl e ↦ rw e (ground arith, λ h. same_root (suc n) c (ground arith) least (omega arith))
      | inr e ↦ rw e (next_root (suc n) c large (ground arith), λ h. (omega arith, ground arith))
    ]

multiples_le : (i n m : ℕ) → i < n → i * m + m ≤ n * m
multiples_le i zero m h = absurd (omega arith)
multiples_le zero (suc n) m h = omega arith
multiples_le (suc i) (suc n) m h = omega (arith, multiples_le i n m (omega arith))

rows_fit : (n c r q : ℕ) → c * r + q ≡ n + c - 1 → q < c → 0 < n → (n ≤ r * c) × ((r - 1) * c < n)
rows_fit n c zero q e h some_n = absurd (omega arith)
rows_fit n c (suc r) q e h some_n =
    let pred : (suc r - 1) * c ≡ r * c = ap (λ k. k * c) (omega arith) in
    let all : c * suc r ≡ r * c + c = omega (arith, mul_comm c (suc r)) in
    (omega (arith, all), omega (arith, all, pred))

-- No row is left empty, and all fit.
pub grid_layout-fits :
    (n : ℕ)
    → 0 < n
    → let (cols, rows) = grid_layout n in
      (0 < cols)
      × (n ≤ rows * cols)
      × ((rows - 1) * cols < n)
      × (n ≤ cols * cols)
      × ((cols - 1) * (cols - 1) < n)
unfolding grid_layout
grid_layout-fits n some_n =
    let c = ceil_sqrt n in
    let some_items : (n == 0) ≡ false = ground arith in
    let (large, root) = ceil_sqrt-square n in
    let (positive, least) = root some_n in
    let (fit, last) =
      rows_fit n c ((n + c - 1) / c) ((n + c - 1) % c) (div_any (n + c - 1) c)
        (mod-lt (n + c - 1) positive) some_n in
    rw some_items (positive, fit, last, large, least)

-- The columns or the rows of two cells differ, and the later one is further.
later_cell : (c i j : ℕ) → i < j → (i / c < j / c) ⊎ (i % c < j % c)
later_cell c i j h = elim (dec_lt (i / c) (j / c)) [
  | yes r ↦ inl r
  | no r ↦ elim (dec_lt (i % c) (j % c)) [
    | yes q ↦ inr q
    | no q ↦ absurd (
        omega (
          arith,
          div_any i c,
          div_any j c,
          mul-le-mul_left {m = j / c} {n = i / c} c (omega arith),
        ))
  ]
]

row_below : (n c rows i : ℕ) → 0 < c → i < n → n ≤ rows * c → i / c < rows
row_below n c rows i some_c h fits = elim (dec_lt (i / c) rows) [
  | yes r ↦ r
  | no r ↦
      absurd (omega (arith, div_any i c, mul-le-mul_left {m = rows} {n = i / c} c (omega arith)))
]

margin_fitting : (cell size : ℕ) → size ≤ cell → margin cell size ≡ pos ((cell - size) / 2)
unfolding margin
margin_fitting cell size h = let fits : leb size cell ≡ true = ground arith in rw fits refl

pos_add : (a b : ℕ) → pos a +ℤ pos b ≡ pos (a + b)
pos_add a b = let above : leb 0 (a + b) ≡ true = ground arith in rw above (ap pos (omega arith))

offset_fitting :
    (cols cell_w cell_h i w h : ℕ)
    → w ≤ cell_w
    → h ≤ cell_h
    → offset cols cell_w cell_h i w h
      ≡ (pos (i % cols * cell_w + (cell_w - w) / 2), pos (i / cols * cell_h + (cell_h - h) / 2))
unfolding offset
offset_fitting cols cell_w cell_h i w h wide high =
    rw
      (
        margin_fitting cell_w w wide,
        margin_fitting cell_h h high,
        pos_add (i % cols * cell_w) ((cell_w - w) / 2),
        pos_add (i / cols * cell_h) ((cell_h - h) / 2),
      )
      refl

inside : (i n w cell : ℕ) → w ≤ cell → i < n → i * cell + (cell - w) / 2 + w ≤ n * cell
inside i n w cell h k = omega (arith, multiples_le i n cell k, div_any (cell - w) 2)

apart : (i j w cell m : ℕ) → w ≤ cell → i < j → i * cell + (cell - w) / 2 + w ≤ j * cell + m
apart i j w cell m h k = omega (arith, inside i j w cell h k)

sizes_apart :
    (n i j cell_w cell_h w h w' h' : ℕ)
    → i ≤ j
    → j < n
    → w ≤ cell_w
    → h ≤ cell_h
    → w' ≤ cell_w
    → h' ≤ cell_h
    → let (cols, rows) = grid_layout n in
      let (x, y) = offset cols cell_w cell_h i w h in
      let (x', y') = offset cols cell_w cell_h j w' h' in
      (pos 0 ≤ℤ x)
      × (pos 0 ≤ℤ y)
      × (x +ℤ pos w ≤ℤ pos (cols * cell_w))
      × (y +ℤ pos h ≤ℤ pos (rows * cell_h))
      × ((i ≡ j) ⊎ ((y +ℤ pos h ≤ℤ y') ⊎ (x +ℤ pos w ≤ℤ x')))
sizes_apart n i j cell_w cell_h w h w' h' later below wide high wide' high' =
    let (cols, rows) = grid_layout n in
    let (some_cols, fits, last, large, least) = grid_layout-fits n (omega arith) in
    rw
      (
        offset_fitting cols cell_w cell_h i w h wide high,
        offset_fitting cols cell_w cell_h j w' h' wide' high',
        pos_add (i % cols * cell_w + (cell_w - w) / 2) w,
        pos_add (i / cols * cell_h + (cell_h - h) / 2) h,
      )
      (
        omega arith,
        omega arith,
        omega (arith, inside (i % cols) cols w cell_w wide (mod-lt i some_cols)),
        omega (
          arith,
          inside (i / cols) rows h cell_h high
              (row_below n cols rows i some_cols (omega arith) fits),
        ),
        elim (dec_lt i j) [
          | no here ↦ inl (omega arith)
          | yes later ↦ inr (elim (later_cell cols i j later) [
            | inl r ↦
                inl (omega (arith, apart (i / cols) (j / cols) h cell_h ((cell_h - h') / 2) high r))
            | inr q ↦
                inr (omega (arith, apart (i % cols) (j % cols) w cell_w ((cell_w - w') / 2) wide q))
          ])
        ],
      )

module _ (R : Float) (scaling : IsScaling R) where
  -- On the merged canvas of n cameras, with cells and images smaller than 2 ^ 16 each way and
  -- float64 quotients that scale a size to no more than the cell: each image, scaled by fitImage
  -- and put at its offset, lies within the canvas, and above or left of the whole of every later
  -- one.
  pub offset-Apart :
      {P : Type 0} (zero_pixel : P) (n i j cell_w cell_h : ℕ) (img img' : Image P)
      → i ≤ j
      → j < n
      → cell_w < 2 ^ 16
      → cell_h < 2 ^ 16
      → IsJpegSize img
      → IsJpegSize img'
      → let (cols, rows) = grid_layout n in
        let scaled = fit_image R zero_pixel img cell_w cell_h in
        let scaled' = fit_image R zero_pixel img' cell_w cell_h in
        let (x, y) = offset cols cell_w cell_h i scaled.width scaled.height in
        let (x', y') = offset cols cell_w cell_h j scaled'.width scaled'.height in
        (pos 0 ≤ℤ x)
        × (pos 0 ≤ℤ y)
        × (x +ℤ pos scaled.width ≤ℤ pos (cols * cell_w))
        × (y +ℤ pos scaled.height ≤ℤ pos (rows * cell_h))
        × ((i ≡ j) ⊎ ((y +ℤ pos scaled.height ≤ℤ y') ⊎ (x +ℤ pos scaled.width ≤ℤ x')))
  offset-Apart zero_pixel n i j cell_w cell_h img img' later below narrow low size size' =
      let (wide, high) = fit_image_le R scaling zero_pixel img cell_w cell_h size narrow low in
      let (wide', high') = fit_image_le R scaling zero_pixel img' cell_w cell_h size' narrow low in
      sizes_apart n i j cell_w cell_h _ _ _ _ later below wide high wide' high'
