-- ===== src/LiveFeed/Mjpeg/Parts.antt =====
-- A client of an MJPEG stream, which finds the frames by their Content-Length, and what it makes of
-- the frames that WriteFrame writes.
use instachron.Base.{
  ℕ, zero, suc, ◌-◌, ◌^◌, ◌<◌, ◌≡◌, refl, ◌∙◌, ap, arith, Bool, true, ◌&&◌, List, [], ◌∷◌, ◌++◌,
  length, All, Result, ok, err, ◌>>=◌, map_err, leb, if◌then◌else◌,
}
use mathlib.Core.List.{append_assoc}
use instachron.Text.{Text, text_eq, text_eq_iff}
use instachron.Strconv.{
  NumError, format_uint, parse_uint, parse_uint-format_uint, format_uint-DigitCode, DigitCode,
}
use instachron.Wire.Stream.{IoError, Reader, read_full, read_full-append, read_full_empty}
use instachron.LiveFeed.Mjpeg.{crlf, part_start, part_head}

pub data PartError : Type 0 where
  cut_off : IoError → PartError
  malformed : PartError

expect : Text → Reader → Result PartError Reader
expect t r = map_err cut_off (read_full (length t) r) >>= λ (b, s).
    if text_eq b t then ok s else err malformed

abbrev digit : ℕ → Bool
digit c = leb b'0' c && leb c b'9'

span_digits : Text → Text × Text
span_digits [] = ([], [])
span_digits (c ∷ cs) =
    let (ds, rest) = span_digits cs in if digit c then (c ∷ ds, rest) else ([], c ∷ cs)

abbrev bad_number : NumError → PartError
bad_number e = malformed

unfoldable pub read_part : Reader → Result PartError (List ℕ × Reader)
unfolding expect span_digits
read_part r = do
  r1 ← expect part_start r
  let (ds, rest) = span_digits r1.bytes
  n ← map_err bad_number (parse_uint (2 ^ 64 - 1) ds)
  r2 ← expect (crlf ++ crlf) (record r1 { bytes = rest })
  (jpeg, r3) ← map_err cut_off (read_full n r2)
  r4 ← expect crlf r3
  ok (jpeg, r4)

-- The frames of the parts that can be read, in as many rounds as the fuel says.
unfoldable pub read_parts : ℕ → Reader → List (List ℕ)
read_parts zero r = []
read_parts (suc fuel) r = elim (read_part r) [
  | err e ↦ []
  | ok (jpeg, s) ↦ jpeg ∷ read_parts fuel s
]

-- What WriteFrame writes.
abbrev pub part : List ℕ → List ℕ
part jpeg = part_head (length jpeg) ++ (jpeg ++ crlf)

expect-append :
    (t ys : Text) (e : IoError)
    → expect t (record { bytes = t ++ ys; ending = e }) ≡ ok (record { bytes = ys; ending = e })
unfolding expect
expect-append t ys e = rw (read_full-append (length t) t ys e refl, (text_eq_iff t t).1 refl) refl

span_digits-append :
    (ds rest : Text) → All DigitCode ds → span_digits (ds ++ (13 ∷ rest)) ≡ (ds, 13 ∷ rest)
unfolding span_digits
span_digits-append [] rest h = refl
span_digits-append (c ∷ ds) rest h =
    let is_digit : digit c ≡ true = ground arith in
    rw (span_digits-append ds rest h.1, is_digit) refl

part-append :
    (jpeg ys : List ℕ)
    → part jpeg ++ ys
      ≡ part_start ++ (format_uint (length jpeg) ++ (13 ∷ 10 ∷ 13 ∷ 10 ∷ (jpeg ++ (13 ∷ 10 ∷ ys))))
part-append jpeg ys =
    let n = format_uint (length jpeg) in
    append_assoc (part_head (length jpeg)) (jpeg ++ crlf) ys
    ∙ append_assoc part_start (n ++ (crlf ++ crlf)) ((jpeg ++ crlf) ++ ys)
    ∙ ap (λ xs. part_start ++ xs)
        (append_assoc n (crlf ++ crlf) ((jpeg ++ crlf) ++ ys)
          ∙ ap (λ xs. n ++ (13 ∷ 10 ∷ 13 ∷ 10 ∷ xs)) (append_assoc jpeg crlf ys))

pub read_part-part :
    (jpeg ys : List ℕ) (e : IoError)
    → length jpeg < 2 ^ 64
    → read_part (record { bytes = part jpeg ++ ys; ending = e })
      ≡ ok (jpeg, record { bytes = ys; ending = e })
unfolding read_part
read_part-part jpeg ys e h =
    let digits = format_uint (length jpeg) in
    let tail = jpeg ++ (13 ∷ 10 ∷ ys) in
    rw
      (
        part-append jpeg ys,
        expect-append part_start (digits ++ (13 ∷ 10 ∷ 13 ∷ 10 ∷ tail)) e,
        span_digits-append digits (10 ∷ 13 ∷ 10 ∷ tail) (format_uint-DigitCode (length jpeg)),
        parse_uint-format_uint (2 ^ 64 - 1) (length jpeg) h (omega arith),
        expect-append (crlf ++ crlf) tail e,
        read_full-append (length jpeg) jpeg (13 ∷ 10 ∷ ys) e refl,
        expect-append crlf ys e,
      )
      refl

pub read_part_end : (e : IoError) → read_part (record { bytes = []; ending = e }) ≡ err (cut_off e)
unfolding read_part expect part_start
read_part_end e = rw (read_full_empty (length part_start) e (omega arith)) refl
