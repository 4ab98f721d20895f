-- ===== src/Backend/Connection.antt =====
-- internal/server/server.go, handleConnection: what one camera connection publishes. The offline
-- notices go out in the order of a Go map, which is no order: `offline` stands for the set.
pub mod Published
use instachron.Backend.Bounds.{read_frame_bounds}
use instachron.Base.{zero}
use instachron.Base.{
  ℕ, suc, ◌+◌, ◌≤◌, ◌<◌, ◌≡◌, refl, ◌∙◌, ap, arith, Bool, true, false, Option, none, some,
}
use instachron.Base.{
  List, [], ◌∷◌, ◌++◌, length, All, Result, Result-cases, ok, err, ◌⊎◌, inl, inr, ◌==◌,
  if◌then◌else◌,
}
use instachron.Wire.Stream.{Reader, IoError}
use instachron.Wire.Messages.{encode_all}
use instachron.Backend.Protocol.{Captured, Error, read_frame, looks_like_jpeg}
use instachron.Backend.Wire.{Sent, wire, captured, IsSendable, read_frame-wire}

-- The frames published in order, the cameras seen, and the frames counted for each camera.
pub record Session : Type 0 where
  pub published : List (ℕ × List ℕ)
  pub seen : List ℕ
  pub recorded : List ℕ

pub new_session : Session
new_session = record { published = []; seen = []; recorded = [] }

unfoldable pub mem_id : ℕ → List ℕ → Bool
mem_id id [] = false
mem_id id (x ∷ xs) = let rest = mem_id id xs in if x == id then true else rest

-- seenCameraIDs[id] = struct{}{}
see : ℕ → List ℕ → List ℕ
unfolding mem_id
see id seen = if mem_id id seen then seen else seen ++ (id ∷ [])

-- One frame of the loop: what is no JPEG is dropped, and the connection goes on.
pub handle_frame : Captured → Session → Session
unfolding see
handle_frame c s =
    let id = c.header.camera_id in
    if looks_like_jpeg c.payload
    then record {
      published = s.published ++ ((id, c.payload) ∷ []);
      seen = see id s.seen;
      recorded = s.recorded ++ (id ∷ []);
    }
    else s

-- The loop until a read fails. `none` is out of fuel.
pub handle_loop : ℕ → ℕ → Reader → Session → Option (Session × Error)
handle_loop max_frame_bytes zero r s = none
handle_loop max_frame_bytes (suc fuel) r s = elim (read_frame max_frame_bytes r) [
  | err e ↦ some (s, e)
  | ok (c, r') ↦ handle_loop max_frame_bytes fuel r' (handle_frame c s)
]

pub record Report : Type 0 where
  pub frames : List (ℕ × List ℕ)
  pub offline : List ℕ
  pub recorded : List ℕ
  pub failure : Error

abbrev pub report_of : Session → Error → Report
report_of s e = record {
  frames = s.published;
  offline = s.seen;
  recorded = s.recorded;
  failure = e;
}

-- The deferred calls publish one offline notice for each camera that was seen.
pub handle_connection : ℕ → Reader → Option Report
unfolding handle_loop
handle_connection max_frame_bytes r =
    elim (handle_loop max_frame_bytes (suc (length r.bytes)) r new_session) [
      | none ↦ none
      | some (s, e) ↦
          some
            (record { frames = s.published; offline = s.seen; recorded = s.recorded; failure = e })
    ]

handle_all_frames : List Captured → Session → Session
handle_all_frames [] s = s
handle_all_frames (c ∷ cs) s = handle_all_frames cs (handle_frame c s)

handle_loop_step :
    (m fuel : ℕ) (r r' : Reader) (c : Captured) (s : Session)
    → read_frame m r ≡ ok (c, r')
    → handle_loop m (suc fuel) r s ≡ handle_loop m fuel r' (handle_frame c s)
unfolding handle_loop
handle_loop_step m fuel r r' c s e = rw (e, handle_loop)

handle_loop_stop :
    (m fuel : ℕ) (r : Reader) (x : Error) (s : Session)
    → read_frame m r ≡ err x
    → handle_loop m (suc fuel) r s ≡ some (s, x)
unfolding handle_loop
handle_loop_stop m fuel r x s e = rw (e, handle_loop)

handle_loop_total :
    (m fuel : ℕ) (r : Reader) (s : Session)
    → length r.bytes < fuel
    → (t : Session) × (x : Error) × (handle_loop m fuel r s ≡ some (t, x))
handle_loop_total m zero r s h = absurd (omega arith)
handle_loop_total m (suc fuel) r s h = elim (Result-cases (read_frame m r)) [
  | inl ((c, r'), e) ↦
      let (t, x, p) =
        handle_loop_total m fuel r' (handle_frame c s)
          (omega (arith, read_frame_bounds m r r' c e)) in
      (t, x, handle_loop_step m fuel r r' c s e ∙ p)
  | inr (x, e) ↦ (s, x, handle_loop_stop m fuel r x s e)
]

handle_connection_ends :
    (m : ℕ) (r : Reader) (t : Session) (x : Error)
    → handle_loop m (suc (length r.bytes)) r new_session ≡ some (t, x)
    → handle_connection m r ≡ some (report_of t x)
unfolding handle_connection
handle_connection_ends m r t x p = rw (p, handle_connection)

-- The handler of a camera connection returns on every input, however malformed.
pub handle_connection_total :
    (m : ℕ) (r : Reader) → (report : Report) × (handle_connection m r ≡ some report)
handle_connection_total m r =
    let (t, x, p) = handle_loop_total m (suc (length r.bytes)) r new_session (omega arith) in
    (report_of t x, handle_connection_ends m r t x p)
