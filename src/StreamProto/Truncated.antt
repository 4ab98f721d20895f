-- ===== src/StreamProto/Truncated.antt =====
-- A connection that ends inside a frame.
use instachron.Base.{ℕ, zero, suc, ◌-◌, ◌<◌, ◌≡◌, ◌∙◌, arith, inl, inr}
use instachron.Base.{
  List, [], ◌∷◌, ◌++◌, length, take, take-append_ge, length-take, length-append, Bool-cases, ltb,
  ltb→lt, ltb→ge, if◌then◌else◌,
}
use instachron.Base.{err}
use instachron.Wire.Stream.{IoError, read_full, read_full_short, read_full_empty}
use instachron.Wire.Stream.{read_full-append, eof, unexpected_eof}
use instachron.StreamProto.{Frame, header, read_frame, read_payload, io, header_size}
use instachron.StreamProto.Header.{IsSendable, length-header, header_magic, header_version}
use instachron.StreamProto.Header.{header_payload_len}
use instachron.StreamProto.RoundTrip.{read_frame_ok, read_frame_err}

-- ReadFull at the end of its input: nothing read is EOF, a part read is ErrUnexpectedEOF.
abbrev pub cut_error : ℕ → IoError
cut_error zero = eof
cut_error (suc k) = unexpected_eof

read_full_cut :
    (n k : ℕ) (bs : List ℕ)
    → length bs ≡ k
    → k < n
    → read_full n (record { bytes = bs; ending = eof }) ≡ err (cut_error k)
read_full_cut n zero [] h lt = read_full_empty n eof lt
read_full_cut n (suc k) [] h lt = absurd (omega arith)
read_full_cut n zero (b ∷ bs) h lt = absurd (omega arith)
read_full_cut n (suc k) (b ∷ bs) h lt = read_full_short n (b ∷ bs) (omega arith) (omega arith)

read_payload_cut :
    (f : Frame) (k : ℕ) (bs : List ℕ)
    → IsSendable f
    → length bs ≡ k
    → k < length f.payload
    → read_payload (header f) (record { bytes = bs; ending = eof }) ≡ err (io (cut_error k))
unfolding read_payload
read_payload_cut f k bs v h lt = ground (
  arith,
  header_magic f,
  header_version f,
  header_payload_len f v.payload_fits,
  read_full_cut (length f.payload) k bs h lt,
)

-- The error of a frame cut after `k` bytes: EOF before the first byte and, by the two ReadFull
-- calls, also right behind the header.
pub cut_frame_error : ℕ → IoError
cut_frame_error k = if ltb k header_size then cut_error k else cut_error (k - header_size)

-- When a connection ends inside a frame, or before one, ReadFrame gives no frame: the error is
-- EOF before the first byte and right behind the header, and ErrUnexpectedEOF everywhere else.
pub read_frame_cut :
    (f : Frame) (k : ℕ)
    → IsSendable f
    → k < length (header f ++ f.payload)
    → read_frame (record { bytes = take k (header f ++ f.payload); ending = eof })
      ≡ err (io (cut_frame_error k))
unfolding cut_frame_error
read_frame_cut f k v h =
    let whole = header f ++ f.payload in
    let len = length-append (header f) f.payload in
    let h32 = length-header f in
    elim (Bool-cases (ltb k 32)) [
      | inl small ↦
          read_frame_err _ _ (
            read_full_cut 32 k (take k whole) (omega (arith, length-take k whole))
              (ltb→lt k 32 small))
          ∙ rw small
      | inr big ↦
          let ge = ltb→ge k 32 big in
          let rest = take (k - 32) f.payload in
          rw (take-append_ge k (header f) f.payload (omega arith), h32)
            (read_frame_ok _ _ (header f) (read_full-append 32 (header f) rest eof h32)
              ∙ read_payload_cut f (k - 32) rest v (omega (arith, length-take (k - 32) f.payload))
                  (omega arith)
              ∙ rw big)
    ]
