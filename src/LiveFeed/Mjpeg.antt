-- ===== src/LiveFeed/Mjpeg.antt =====
-- shared/mjpeg/mjpeg.go: a frame of an MJPEG stream.
pub mod Parts
use instachron.Base.{ℕ, Bool, true, false, List, [], ◌∷◌, ◌++◌, length, if◌then◌else◌}
use instachron.Text.{Text, codes}
use instachron.Strconv.{format_uint}
use instachron.Wire.Stream.{Writer, write}

abbrev pub boundary : Text
boundary = codes "instachron"

abbrev pub crlf : Text
crlf = 13 ∷ 10 ∷ []

-- The head of a part up to the length of its frame.
unfoldable pub part_start : Text
part_start =
    codes "--"
    ++ (boundary
        ++ (crlf ++ (codes "Content-Type: image/jpeg" ++ (crlf ++ codes "Content-Length: "))))

abbrev pub part_head : ℕ → Text
part_head n = part_start ++ (format_uint n ++ (crlf ++ crlf))

-- Whether all three writes succeed; one that fails is the last.
unfoldable pub write_frame : List ℕ → Writer → Bool × Writer
write_frame jpeg w =
    let (sent, w1) = write (part_head (length jpeg)) w in
    let (sent2, w2) = write jpeg w1 in
    let (sent3, w3) = write crlf w2 in
    if sent then (if sent2 then (sent3, w3) else (false, w2)) else (false, w1)
