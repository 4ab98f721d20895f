-- ===== src/Wire/Messages.antt =====
-- The loop that every consumer of a wire format runs: read one message after the other until a
-- read fails (TCPUpstream.connect, frameipc's Client.connect, Server.handleConnection).
use instachron.Base.{ℕ, zero, suc, ◌<◌, ◌≡◌, inl, inr, ap, ◌∙◌, arith}
use instachron.Base.{
  Result-cases, Result, ok, err, Option, none, some, List, [], ◌∷◌, ◌++◌, length, All,
}
use instachron.Wire.Stream.{Reader, IoError}

-- What the loop needs of a format: its reader, and an encoding that the reader understands.
pub record Codec (A E : Type 0) : Type 1 where
  pub read : Reader → Result E (A × Reader)
  pub encode : A → List ℕ
  pub Valid : A → Type 0
  pub io_error : IoError → E
  pub read-encode :
      (a : A) (rest : List ℕ) (e : IoError)
      → Valid a
      → read (record { bytes = encode a ++ rest; ending = e })
        ≡ ok (a, record { bytes = rest; ending = e })
  pub read_takes : (r s : Reader) (a : A) → read r ≡ ok (a, s) → length s.bytes < length r.bytes
  pub read_end : (e : IoError) → read (record { bytes = []; ending = e }) ≡ err (io_error e)

abbrev pub add_message : {A E : Type 0} → A → Option (List A × E) → Option (List A × E)
add_message a none = none
add_message a (some (found, e)) = some (a ∷ found, e)

module _ {A E : Type 0} (read : Reader → Result E (A × Reader)) where
  -- The messages that were read, in order, and the error that ended the loop. `none` means that
  -- the fuel ran out.
  unfoldable pub drain : ℕ → Reader → Option (List A × E)
  drain zero r = none
  drain (suc fuel) r = elim (read r) [
    | err e ↦ some ([], e)
    | ok (a, s) ↦ add_message a (drain fuel s)
  ]

  pub drain_ok :
      (fuel : ℕ) (r s : Reader) (a : A)
      → read r ≡ ok (a, s)
      → drain (suc fuel) r ≡ add_message a (drain fuel s)
  unfolding drain
  drain_ok fuel r s a h = rw (h, drain)

  pub drain_err :
      (fuel : ℕ) (r : Reader) (e : E) → read r ≡ err e → drain (suc fuel) r ≡ some ([], e)
  unfolding drain
  drain_err fuel r e h = rw (h, drain)

module _ {A E S : Type 0} (read : Reader → Result E (A × Reader)) (handle : A → S → S) where
  -- The loop with a callback for each message, and the state that the callbacks share.
  unfoldable pub consume : ℕ → Reader → S → Option (S × E)
  consume zero r s = none
  consume (suc fuel) r s = elim (read r) [
    | err e ↦ some (s, e)
    | ok (a, r') ↦ consume fuel r' (handle a s)
  ]

abbrev pub handle_all : {A S : Type 0} → (A → S → S) → List A → S → S
handle_all handle [] s = s
handle_all handle (a ∷ rest) s = handle_all handle rest (handle a s)

abbrev pub encode_all : {A : Type 0} → (A → List ℕ) → List A → List ℕ
encode_all encode [] = []
encode_all encode (a ∷ rest) = encode a ++ encode_all encode rest

module _ {A E : Type 0} (c : Codec A E) where
  -- Every read takes a byte at least, so a fuel above the number of bytes is enough.
  pub drain_total :
      (fuel : ℕ) (r : Reader)
      → length r.bytes < fuel
      → (found : List A) × (e : E) × (drain c.read fuel r ≡ some (found, e))
  drain_total zero r h = absurd (omega arith)
  drain_total (suc fuel) r h = elim (Result-cases (c.read r)) [
    | inl ((a, s), e) ↦
        let (found, x, p) = drain_total fuel s (omega (arith, c.read_takes r s a e)) in
        (a ∷ found, x, drain_ok c.read fuel r s a e ∙ ap (add_message a) p)
    | inr (x, e) ↦ ([], x, drain_err c.read fuel r x e)
  ]

  -- What was encoded comes back message by message, and then the end of the connection.
  pub drain-encode_all :
      (sent : List A) (fuel : ℕ) (e : IoError)
      → All c.Valid sent
      → length sent < fuel
      → drain c.read fuel (record { bytes = encode_all c.encode sent; ending = e })
        ≡ some (sent, c.io_error e)
  drain-encode_all sent zero e v h = absurd (omega arith)
  drain-encode_all [] (suc fuel) e v h = drain_err c.read fuel _ _ (c.read_end e)
  drain-encode_all (a ∷ sent) (suc fuel) e v h =
      drain_ok c.read fuel _ _ a (c.read-encode a (encode_all c.encode sent) e v.0)
      ∙ ap (add_message a) (drain-encode_all sent fuel e v.1 (omega arith))

module _ {A E S : Type 0} (c : Codec A E) (handle : A → S → S) where
  consume_ok :
      (fuel : ℕ) (r r' : Reader) (a : A) (s : S)
      → c.read r ≡ ok (a, r')
      → consume c.read handle (suc fuel) r s ≡ consume c.read handle fuel r' (handle a s)
  unfolding consume
  consume_ok fuel r r' a s h = rw (h, consume)

  consume_err :
      (fuel : ℕ) (r : Reader) (e : E) (s : S)
      → c.read r ≡ err e
      → consume c.read handle (suc fuel) r s ≡ some (s, e)
  unfolding consume
  consume_err fuel r e s h = rw (h, consume)

  -- The callbacks see what was sent, in order, whatever they do to the state.
  pub consume-encode_all :
      (sent : List A) (fuel : ℕ) (e : IoError) (s : S)
      → All c.Valid sent
      → length sent < fuel
      → consume c.read handle fuel (record { bytes = encode_all c.encode sent; ending = e }) s
        ≡ some (handle_all handle sent s, c.io_error e)
  consume-encode_all sent zero e s v h = absurd (omega arith)
  consume-encode_all [] (suc fuel) e s v h = consume_err fuel _ _ s (c.read_end e)
  consume-encode_all (a ∷ sent) (suc fuel) e s v h =
      consume_ok fuel _ _ a s (c.read-encode a (encode_all c.encode sent) e v.0)
      ∙ consume-encode_all sent fuel e (handle a s) v.1 (omega arith)

  pub consume_total :
      (fuel : ℕ) (r : Reader) (s : S)
      → length r.bytes < fuel
      → (t : S) × (e : E) × (consume c.read handle fuel r s ≡ some (t, e))
  consume_total zero r s h = absurd (omega arith)
  consume_total (suc fuel) r s h = elim (Result-cases (c.read r)) [
    | inl ((a, r'), e) ↦
        let (t, x, p) = consume_total fuel r' (handle a s) (omega (arith, c.read_takes r r' a e)) in
        (t, x, consume_ok fuel r r' a s e ∙ p)
    | inr (x, e) ↦ (s, x, consume_err fuel r x s e)
  ]
