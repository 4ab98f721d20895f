-- ===== src/Streamer/Cache.antt =====
-- internal/ipcclient/reader.go: the latest JPEG of each camera, and a version that counts changes.
use instachron.Base.{◌∙◌, ap}
use instachron.Wire.Messages.{handle_all}
use instachron.Base.{ℕ, ◌+◌, ◌%◌, ◌^◌, ◌≡◌, refl, arith, Option, none, some}
use instachron.Base.{
  List, [], ◌∷◌, ◌==◌, if◌then◌else◌, Map, lookup, insert, remove, nat_instance, lookup-insert,
  lookup-remove,
}
use instachron.FrameIpc.{Frame}
use instachron.FrameIpc.Client.{Handler, dispatch}

pub record Cache : Type 0 where
  pub frames : Map ℕ (List ℕ)
  pub version : ℕ

pub new_cache : Cache
new_cache = record { frames = []; version = 0 }

-- atomic.Uint64.Add(1)
bump : ℕ → ℕ
bump v = (v + 1) % 2 ^ 64

pub store_frame : ℕ → List ℕ → Cache → Cache
unfolding bump
store_frame id jpeg c = record { frames = insert id jpeg c.frames; version = bump c.version }

pub drop_frame : ℕ → Cache → Cache
unfolding bump
drop_frame id c = record { frames = remove id c.frames; version = bump c.version }

pub drop_all_frames : Cache → Cache
unfolding bump
drop_all_frames c = record { frames = []; version = bump c.version }

pub handler : Handler Cache
handler = record {
  on_frame = some store_frame;
  on_offline = some drop_frame;
  on_disconnect = some drop_all_frames;
}

-- Latest; a camera without a frame has none.
pub latest : ℕ → Cache → Option (List ℕ)
latest id c = lookup id c.frames

-- What the last message about a camera says of it.
abbrev pub last_word : ℕ → List Frame → Option (List ℕ) → Option (List ℕ)
last_word id [] known = known
last_word id (m ∷ ms) known = last_word id ms (
    if m.camera_id == id
    then (if m.kind == 1 then some m.payload else if m.kind == 2 then none else known)
    else known)

dispatch_latest :
    (id : ℕ) (m : Frame) (c : Cache)
    → latest id (dispatch handler m c) ≡ last_word id (m ∷ []) (latest id c)
unfolding dispatch handler latest store_frame drop_frame
dispatch_latest id m c =
    ground (
      arith,
      lookup-insert m.camera_id id m.payload c.frames,
      lookup-remove m.camera_id id c.frames,
    )

-- After any messages, the latest frame of a camera is what the last message about that camera
-- says: its payload, or none after it went offline; other kinds of message count for nothing.
pub latest-handle_all :
    (id : ℕ) (ms : List Frame) (c : Cache)
    → latest id (handle_all (dispatch handler) ms c) ≡ last_word id ms (latest id c)
latest-handle_all id [] c = refl
latest-handle_all id (m ∷ ms) c =
    latest-handle_all id ms (dispatch handler m c) ∙ ap (last_word id ms) (dispatch_latest id m c)
