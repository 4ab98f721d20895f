-- ===== src/Wire/Stream.antt =====
-- io.Reader and io.Writer as values. A reader is what a connection still delivers and how it ends;
-- a writer is what has been written and what its next Write calls do.
use instachron.Base.{ℕ, ◌<◌, ◌≡◌, ap, arith, Bool, true, false}
use instachron.Base.{Result, ok, err, leb, if◌then◌else◌}
use instachron.Base.{List, [], ◌∷◌, ◌++◌, length, take, drop, length-append}
use instachron.Base.{
  take-append_length, drop-append_length, length-take, take-append-drop, Option, none, some,
}

-- io.EOF, io.ErrUnexpectedEOF, and any other error of the connection (a timeout, a close).
pub data IoError : Type 0 where
  eof unexpected_eof failed : IoError

pub record Reader : Type 0 where
  pub bytes : List ℕ
  pub ending : IoError

-- io.ReadFull: an end of input between messages is `eof`, one inside a message is
-- `unexpected_eof`, and any other error comes back as it is.
short_read : List ℕ → IoError → IoError
short_read (b ∷ bs) eof = unexpected_eof
short_read _ e = e

unfoldable pub read_full : ℕ → Reader → Result IoError (List ℕ × Reader)
unfolding short_read
read_full n r =
    if leb n (length r.bytes)
    then ok (take n r.bytes, record r { bytes = drop n r.bytes })
    else err (short_read r.bytes r.ending)

pub read_full-append :
    (n : ℕ) (xs ys : List ℕ) (e : IoError)
    → length xs ≡ n
    → read_full n (record { bytes = xs ++ ys; ending = e })
      ≡ ok (xs, record { bytes = ys; ending = e })
unfolding read_full
read_full-append n xs ys e h = ground (
  arith,
  length-append xs ys,
  ap (λ k. take k (xs ++ ys)) h,
  ap (λ k. drop k (xs ++ ys)) h,
  take-append_length xs ys,
  drop-append_length xs ys,
)

-- A read that succeeds takes exactly `n` bytes off the front.
pub read_full_takes :
    (n : ℕ) (r s : Reader) (bs : List ℕ)
    → read_full n r ≡ ok (bs, s)
    → (r.bytes ≡ bs ++ s.bytes) × (length bs ≡ n) × (s.ending ≡ r.ending)
unfolding read_full
read_full_takes n r s bs h = ground (arith, length-take n r.bytes, take-append-drop n r.bytes)

pub read_full_short :
    (n : ℕ) (bs : List ℕ)
    → 0 < length bs
    → length bs < n
    → read_full n (record { bytes = bs; ending = eof }) ≡ err unexpected_eof
unfolding read_full
read_full_short n [] h lt = absurd (omega arith)
read_full_short n (b ∷ bs) h lt = ground arith

pub read_full_empty :
    (n : ℕ) (e : IoError) → 0 < n → read_full n (record { bytes = []; ending = e }) ≡ err e
unfolding read_full
read_full_empty n eof h = ground arith
read_full_empty n unexpected_eof h = ground arith
read_full_empty n failed h = ground arith

-- `faults` says what the coming Write calls do: `none` takes everything, `some k` fails after `k`
-- bytes. Calls beyond its end succeed.
pub record Writer : Type 0 where
  pub written : List ℕ
  pub faults : List (Option ℕ)

write_with : List (Option ℕ) → List ℕ → List ℕ → Bool × Writer
write_with [] out bs = (true, record { written = out ++ bs; faults = [] })
write_with (none ∷ fs) out bs = (true, record { written = out ++ bs; faults = fs })
write_with (some k ∷ fs) out bs = (false, record { written = out ++ take k bs; faults = fs })

-- The first part says that the call returned no error.
unfoldable pub write : List ℕ → Writer → Bool × Writer
unfolding write_with
write bs w = write_with w.faults w.written bs

-- A writer that takes everything.
abbrev pub sound_writer : List ℕ → Writer
sound_writer out = record { written = out; faults = [] }
