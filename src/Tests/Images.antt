-- ===== src/Tests/Images.antt =====
-- An image of two by three pixels, two angles, and an upscaler that doubles every byte.
use instachron.Base.{ℕ, ◌+◌, ◌*◌, ◌≡◌, ◌≤◌, arith}
use instachron.Base.Int.{negsuc, pos_part, neg_part}
use instachron.Base.{List, [], ◌∷◌, Option, none, some, length, ◌-◌}
use instachron.DropChan.Window.{window}
use instachron.Upscaler.Passes.{steps_for, upscaled, steps_for-upscaled}
use instachron.Upscaler.Pool.{Job, new_pool, process_all, close, outputs, close-process_all}
use instachron.WebApi.Rotation.{Image, rotate90, rotate270, degrees, normalize}
use instachron.WebApi.Rotation.Angles.{normalize_nearest}
use instachron.WebApi.Rotation.Pixels.{rotate270-rotate90}

abbrev picture : Image ℕ
picture = record { width = 2; height = 3; pixel = λ x y. 10 * y + x }

rotate270-rotate90_example : (rotate270 0 (rotate90 0 picture)).pixel 1 2 ≡ picture.pixel 1 2
rotate270-rotate90_example = rotate270-rotate90 0 picture 1 2 (omega arith) (omega arith)

normalize_nearest_example :
    (up down : ℕ) × (degrees (normalize (negsuc 99)) + 360 * up + neg_part (negsuc 99)
      ≤ pos_part (negsuc 99) + 360 * down + 45)
    × (pos_part (negsuc 99) + 360 * down
        ≤ degrees (normalize (negsuc 99)) + 360 * up + neg_part (negsuc 99) + 45)
normalize_nearest_example = normalize_nearest (negsuc 99)

steps_for-upscaled_example : upscaled (steps_for 8) (640, 480) ≡ (640 * 8, 480 * 8)
steps_for-upscaled_example = steps_for-upscaled 8 640 480 (omega arith)

abbrev decode : List ℕ → Option (List ℕ)
decode [] = none
decode (b ∷ bs) = some (b ∷ bs)

abbrev double : List ℕ → List ℕ
double [] = []
double (b ∷ bs) = b ∷ b ∷ double bs

abbrev jobs : List Job
jobs = (1, 5 ∷ []) ∷ (2, []) ∷ (1, 6 ∷ []) ∷ []

close-process_all_example :
    let p = close decode double some (process_all 2 jobs new_pool) in
    (p.pushed ≡ outputs decode double some (window 2 jobs))
    × (p.frames ≡ length p.pushed)
    × (p.dropped ≡ length jobs - 2)
    × (p.queue ≡ [])
close-process_all_example = close-process_all decode double some 2 jobs (omega arith)
