-- ===== src/Tests/Viewing.antt =====
-- A viewer's stream with two frames, and a grid of five cameras.
use instachron.Base.{◌⊎◌, ◌*◌, ◌≤◌, ◌-◌, ◌/◌, max, min, ltb, leb}
use instachron.Base.Int.{pos, ◌+ℤ◌, ◌≤ℤ◌}
use instachron.Detector.{Float}
use instachron.WebApi.Rotation.{Image}
use instachron.Streamer.Compose.Fit.{IsScaling}
use native.Mathlib.Omega.{div_any}
use native.Mathlib.Nat.{mul-le-mul_left}
use instachron.Streamer.Compose.Grid.{offset-Apart}
use instachron.Streamer.Compose.{grid_layout, offset, fit_image}
use instachron.Base.{ℕ, ◌+◌, ◌≡◌, arith, List, [], ◌∷◌}
use instachron.Wire.Stream.{eof, sound_writer}
use instachron.LiveFeed.Mjpeg.Parts.{read_parts}
use instachron.LiveFeed.Http.{Event, cancelled, got, stream_loop}
use instachron.LiveFeed.Http.Streamed.{stream_loop-received}

abbrev viewed : List Event
viewed = got (1 ∷ 13 ∷ 10 ∷ []) ∷ got (45 ∷ 45 ∷ []) ∷ cancelled ∷ got (9 ∷ []) ∷ []

stream_loop-received_example :
    read_parts 3 (record { bytes = (stream_loop viewed (sound_writer [])).written; ending = eof })
    ≡ (1 ∷ 13 ∷ 10 ∷ []) ∷ (45 ∷ 45 ∷ []) ∷ []
stream_loop-received_example =
    stream_loop-received viewed 3 (omega arith, (omega arith, tt)) (omega arith)

abbrev numbers : Float
numbers = record {
  Carrier = ℕ;
  lt = ltb;
  le = leb;
  add = λ a b. a + b;
  sub = λ a b. a - b;
  mul = λ a b. a * b;
  div = λ a b. a / b;
  max = λ a b. max a b;
  min = λ a b. min a b;
  of_int = λ n. n;
  epsilon = 1;
  half = 0;
  trunc = λ n. n;
}

scaled_le : (src most scale : ℕ) → scale ≤ most / src → src * scale ≤ most
scaled_le src most scale h = omega (arith, div_any most src, mul-le-mul_left src h)

numbers-IsScaling : IsScaling numbers
numbers-IsScaling = record {
  scaled_le =
      λ src most src' most' p q r p' q' r' h. scaled_le src most (most' / src') (ground arith);
  asymmetric = λ a b h. ground arith;
}

abbrev blank : ℕ → ℕ → Image ℕ
blank w h = record { width = w; height = h; pixel = λ x y. 0 }

offset-Apart_example :
    let (cols, rows) = grid_layout 5 in
    let scaled = fit_image numbers 0 (blank 20 20) 100 50 in
    let scaled' = fit_image numbers 0 (blank 40 10) 100 50 in
    let (x, y) = offset cols 100 50 1 scaled.width scaled.height in
    let (x', y') = offset cols 100 50 3 scaled'.width scaled'.height in
    (pos 0 ≤ℤ x)
    × (pos 0 ≤ℤ y)
    × (x +ℤ pos scaled.width ≤ℤ pos (cols * 100))
    × (y +ℤ pos scaled.height ≤ℤ pos (rows * 50))
    × ((◌≡◌ {A = ℕ} 1 3) ⊎ ((y +ℤ pos scaled.height ≤ℤ y') ⊎ (x +ℤ pos scaled.width ≤ℤ x')))
offset-Apart_example =
    offset-Apart numbers numbers-IsScaling 0 5 1 3 100 50 (blank 20 20) (blank 40 10) (omega arith)
      (omega arith) (omega arith) (omega arith) (omega arith, omega arith)
      (omega arith, omega arith)
