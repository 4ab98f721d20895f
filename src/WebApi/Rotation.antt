-- ===== src/WebApi/Rotation.antt =====
-- services/camera-web-api/internal/rotation/rotation.go: the angle of a camera and the rotation of
-- its frames. An image is its size and its pixels, seen from the corner of its bounds; decoding and
-- encoding a JPEG are parameters.
pub mod Angles
pub mod Pixels
use instachron.Base.{
  ℕ, zero, suc, ◌+◌, ◌-◌, ◌%◌, ◌≤◌, ◌<◌, Bool, true, false, ◌&&◌, ◌||◌, Option, none, some, List,
  [], ◌∷◌, length, Map, lookup, insert, ltb, leb, ◌==◌, if◌then◌else◌,
}
use instachron.Base.Int.{ℤ, pos, negsuc}
use instachron.Text.{Text, text_instance}

pub data Angle : Type 0 where
  angle0 angle90 angle180 angle270 : Angle

unfoldable pub degrees : Angle → ℕ
degrees angle0 = 0
degrees angle90 = 90
degrees angle180 = 180
degrees angle270 = 270

unfoldable pub is_zero : Angle → Bool
is_zero angle0 = true
is_zero _ = false

-- ((deg % 360) + 360) % 360, where % keeps the sign of deg.
unfoldable pub wrapped : ℤ → ℕ
wrapped (pos n) = (n % 360 + 360) % 360
wrapped (negsuc n) = (360 - suc n % 360) % 360

unfoldable pub normalize : ℤ → Angle
unfolding wrapped
normalize deg =
    let n = wrapped deg in
    if ltb n 45 || leb 315 n
    then angle0
    else if ltb n 135
    then angle90
    else if ltb n 225
    then angle180
    else angle270

abbrev pub Angles : Type 0
Angles = Map Text Angle

-- What os.ReadFile and json.Unmarshal make of the file.
pub data File : Type 0 where
  missing unreadable unparseable : File
  parsed : List (Text × ℤ) → File

pub data Reloaded : Type 0 where
  entries : ℕ → Reloaded
  read_failed parse_failed : Reloaded

unfoldable pub normalize_all : List (Text × ℤ) → Angles
normalize_all [] = []
normalize_all ((id, deg) ∷ raw) = insert id (normalize deg) (normalize_all raw)

unfoldable pub reload : File → Angles → Reloaded × Angles
unfolding normalize_all
reload missing angles = (entries 0, angles)
reload unreadable angles = (read_failed, angles)
reload unparseable angles = (parse_failed, angles)
reload (parsed raw) angles = let fresh = normalize_all raw in (entries (length fresh), fresh)

unfoldable pub get : Text → Angles → Angle
get id angles = elim (lookup id angles) [ none ↦ angle0 | some a ↦ a ]

pub record Image (P : Type 0) : Type 0 where
  pub width : ℕ
  pub height : ℕ
  pub pixel : ℕ → ℕ → P

-- for i := 0; i < n; i++
unfoldable pub for_range : {S : Type 0} → ℕ → (ℕ → S → S) → S → S
for_range zero body s = s
for_range (suc n) body s = body n (for_range n body s)

module _ {P : Type 0} where
  -- image.RGBA.Set, which ignores a place out of bounds.
  unfoldable pub set : ℕ → ℕ → P → Image P → Image P
  set x y c img = record img {
    pixel =
        λ i j. if i == x && j == y && ltb x img.width && ltb y img.height then c else img.pixel i j;
  }

  unfoldable pub new_rgba : P → ℕ → ℕ → Image P
  new_rgba blank w h = record { width = w; height = h; pixel = λ x y. blank }

  -- The loops of the three rotations: `to_x` and `to_y` are where a pixel goes.
  unfoldable pub copy_pixels : (ℕ → ℕ → ℕ) → (ℕ → ℕ → ℕ) → Image P → Image P → Image P
  unfolding for_range set
  copy_pixels to_x to_y src dst =
      for_range src.height
        (λ y d. for_range src.width (λ x d'. set (to_x x y) (to_y x y) (src.pixel x y) d') d) dst

  unfoldable pub rotate90 : P → Image P → Image P
  unfolding copy_pixels new_rgba
  rotate90 blank src =
      copy_pixels (λ x y. src.height - 1 - y) (λ x y. x) src (new_rgba blank src.height src.width)

  unfoldable pub rotate180 : P → Image P → Image P
  unfolding copy_pixels new_rgba
  rotate180 blank src =
      copy_pixels (λ x y. src.width - 1 - x) (λ x y. src.height - 1 - y) src
        (new_rgba blank src.width src.height)

  unfoldable pub rotate270 : P → Image P → Image P
  unfolding copy_pixels new_rgba
  rotate270 blank src =
      copy_pixels (λ x y. y) (λ x y. src.width - 1 - x) src (new_rgba blank src.height src.width)

-- The switch of Apply.
unfoldable pub rotate : {P : Type 0} → P → Angle → Image P → Image P
unfolding rotate90 rotate180 rotate270
rotate blank angle0 img = img
rotate blank angle90 img = rotate90 blank img
rotate blank angle180 img = rotate180 blank img
rotate blank angle270 img = rotate270 blank img

-- Apply, over jpeg.Decode and jpeg.Encode.
unfoldable pub apply :
    {P : Type 0}
    → P
    → (List ℕ → Option (Image P))
    → (Image P → Option (List ℕ))
    → Angle
    → List ℕ
    → List ℕ
unfolding rotate is_zero
apply blank decode encode a jpeg = if is_zero a then jpeg else elim (decode jpeg) [
  | none ↦ jpeg
  | some img ↦ elim (encode (rotate blank a img)) [ none ↦ jpeg | some out ↦ out ]
]
