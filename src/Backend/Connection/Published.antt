-- ===== src/Backend/Connection/Published.antt =====
-- What the consumers of the Unix socket get to see of one camera connection.
use instachron.Wire.Stream.{eof}
use instachron.Base.{
  ℕ, zero, suc, ◌+◌, ◌≤◌, ◌<◌, ◌≡◌, refl, sym, ◌∙◌, ap, arith, Bool, true, false, some,
}
use instachron.Base.{
  List, [], ◌∷◌, ◌++◌, map, length, length-append, All, keep_if, count_if, ◌==◌, if◌then◌else◌, err,
}
use instachron.Wire.Stream.{Reader, IoError, read_full_empty}
use instachron.Wire.Messages.{encode_all}
use instachron.Backend.Protocol.{
  Captured, read_header_failed, read_frame, read_header, looks_like_jpeg,
}
use instachron.Backend.Wire.{Sent, wire, captured, IsSendable, read_frame-wire}
use instachron.Backend.Bounds.{read_frame_bounds}
use instachron.Backend.Connection.{
  Session, Report, new_session, mem_id, handle_frame, handle_loop, handle_connection,
  handle_all_frames, handle_loop_step, handle_loop_stop, handle_connection_ends, report_of,
}
use mathlib.Core.List.{append_assoc, append-nil, map-append}

abbrev pub is_jpeg : Captured → Bool
is_jpeg c = looks_like_jpeg c.payload

abbrev pub tagged : Captured → ℕ × List ℕ
tagged c = (c.header.camera_id, c.payload)

handle_all_frames_published :
    (cs : List Captured) (s : Session)
    → (handle_all_frames cs s).published ≡ s.published ++ map tagged (keep_if is_jpeg cs)
unfolding handle_all_frames handle_frame
handle_all_frames_published [] s = sym (append-nil s.published)
handle_all_frames_published (c ∷ cs) s = ground (
  arith,
  handle_all_frames_published cs (handle_frame c s),
  append_assoc s.published (tagged c ∷ []) (map tagged (keep_if is_jpeg cs)),
)

abbrev pub once_if : Bool → ℕ
once_if b = if b then 1 else 0

-- Each camera of the published frames is in the set of seen cameras once, and no other camera.
record Seen (s : Session) : Type 0 where
  counted : (id : ℕ) → count_if (λ x. x == id) s.seen ≡ once_if (mem_id id s.recorded)
  same : s.recorded ≡ map (λ f. f.0) s.published

count_if-append :
    (id x : ℕ) (xs : List ℕ)
    → count_if (λ y. y == id) (xs ++ (x ∷ [])) ≡ count_if (λ y. y == id) xs + once_if (x == id)
count_if-append id x [] = ground arith
count_if-append id x (y ∷ xs) = ground (arith, count_if-append id x xs)

mem_id-append :
    (id x : ℕ) (xs : List ℕ) → mem_id id (xs ++ (x ∷ [])) ≡ (if x == id then true else mem_id id xs)
unfolding mem_id
mem_id-append id x [] = refl
mem_id-append id x (y ∷ xs) = ground (arith, mem_id-append id x xs)

mem_id-count : (id : ℕ) (xs : List ℕ) → mem_id id xs ≡ false → count_if (λ y. y == id) xs ≡ 0
unfolding mem_id
mem_id-count id [] h = refl
mem_id-count id (x ∷ xs) h = ground (arith, mem_id-count id xs)

count-mem_id : (id : ℕ) (xs : List ℕ) → mem_id id xs ≡ true → 0 < count_if (λ y. y == id) xs
unfolding mem_id
count-mem_id id [] h = cc
count-mem_id id (x ∷ xs) h = ground (arith, count-mem_id id xs)

handle_frame-Seen : (c : Captured) (s : Session) → Seen s → Seen (handle_frame c s)
unfolding handle_frame
handle_frame-Seen c s v = record {
  counted = λ k.
      let id = c.header.camera_id in
      ground (
        arith,
        v.counted k,
        v.counted id,
        count_if-append k id s.seen,
        mem_id-append k id s.recorded,
        mem_id-count id s.seen,
        count-mem_id id s.seen,
      );
  same = ground (arith, v.same, map-append (λ (f : ℕ × List ℕ). f.0) s.published (tagged c ∷ []));
}

handle_all_frames-Seen : (cs : List Captured) (s : Session) → Seen s → Seen (handle_all_frames cs s)
unfolding handle_all_frames
handle_all_frames-Seen [] s v = v
handle_all_frames-Seen (c ∷ cs) s v =
    handle_all_frames-Seen cs (handle_frame c s) (handle_frame-Seen c s v)

read_frame_end :
    (m : ℕ) (e : IoError)
    → read_frame m (record { bytes = []; ending = e }) ≡ err (read_header_failed e)
unfolding read_frame read_header
read_frame_end m e = rw (read_full_empty 16 e (omega arith))

handle_loop-wire :
    (m : ℕ) (sent : List Sent) (fuel : ℕ) (e : IoError) (s : Session)
    → All (IsSendable m) sent
    → length sent < fuel
    → handle_loop m fuel (record { bytes = encode_all wire sent; ending = e }) s
      ≡ some (handle_all_frames (map captured sent) s, read_header_failed e)
handle_loop-wire m sent zero e s v h = absurd (omega arith)
handle_loop-wire m [] (suc fuel) e s v h =
    unfold handle_all_frames in handle_loop_stop m fuel _ _ s (read_frame_end m e)
handle_loop-wire m (x ∷ sent) (suc fuel) e s v h =
    handle_loop_step m fuel _ _ (captured x) s (read_frame-wire m x (encode_all wire sent) e v.0)
    ∙ handle_loop-wire m sent fuel e (handle_frame (captured x) s) v.1 (omega arith)
    ∙ (unfold handle_all_frames in refl)

-- Every frame takes a byte at least, so the connection's fuel is enough for the frames on it.
sent-le-bytes :
    (m : ℕ) (sent : List Sent)
    → All (IsSendable m) sent
    → length sent ≤ length (encode_all wire sent)
sent-le-bytes m [] v = omega arith
sent-le-bytes m (x ∷ sent) v = omega (
  arith,
  length-append (wire x) (encode_all wire sent),
  read_frame_bounds m _ _ _ (read_frame-wire m x [] eof v.0),
  ap length (append-nil (wire x)),
  sent-le-bytes m sent v.1,
)

-- For any frames of the current and the legacy protocol whose fields fit, the handler of the
-- connection that carries them returns. It has published exactly the JPEG payloads among them
-- under their camera ids, in order; it has counted each of them; it has sent one offline notice
-- for each camera of a published frame and none for another; and it has ended with the error of
-- the connection.
pub handle_connection-wire :
    (m : ℕ) (sent : List Sent) (e : IoError)
    → All (IsSendable m) sent
    → (report : Report) × (handle_connection m (record { bytes = encode_all wire sent; ending = e })
        ≡ some report)
      × (report.frames ≡ map tagged (keep_if is_jpeg (map captured sent)))
      × (report.recorded ≡ map (λ f. f.0) report.frames)
      × ((id : ℕ) → count_if (λ x. x == id) report.offline ≡ once_if (mem_id id report.recorded))
      × (report.failure ≡ read_header_failed e)
handle_connection-wire m sent e v =
    let r : Reader = record { bytes = encode_all wire sent; ending = e } in
    let cs = map captured sent in
    let t = handle_all_frames cs new_session in
    let start : Seen new_session =
      unfold new_session mem_id in record { counted = λ id. refl; same = refl } in
    let seen = handle_all_frames-Seen cs new_session start in
    let ends =
      handle_loop-wire m sent (suc (length r.bytes)) e new_session v
        (omega (arith, sent-le-bytes m sent v)) in
    (
      report_of t (read_header_failed e),
      handle_connection_ends m r t _ ends,
      (unfold new_session in handle_all_frames_published cs new_session),
      seen.same,
      seen.counted,
      refl,
    )
