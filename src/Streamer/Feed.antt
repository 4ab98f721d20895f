-- ===== src/Streamer/Feed.antt =====
-- internal/app/feed.go: what the ticks of the clock write into ffmpeg, and the merged canvas that is
-- composed again when the cache has changed.
pub mod Ticks
use instachron.Base.{
  ℕ, Bool, true, false, Option, none, some, List, [], ◌∷◌, length, ◌==◌, nat_instance,
  if◌then◌else◌, not,
}
use instachron.Wire.Stream.{Writer, write}
use instachron.Detector.{Float}
use instachron.Streamer.Cache.{Cache}
use instachron.Streamer.Compose.{Images, Composed, nothing, failed, canvas, compose}

-- A tick with an empty payload writes nothing; a write that fails ends the loop.
unfoldable pub pump : List (List ℕ) → Writer → Bool × Writer
pump [] w = (true, w)
pump (payload ∷ ticks) w =
    let empty = length payload == 0 in
    let (sent, w') = if empty then (true, w) else write payload w in
    let rest = pump ticks w' in if sent then rest else (false, w')

-- The variables of mergedCanvasSource.
pub record Source : Type 0 where
  pub current : List ℕ
  pub last_version : ℕ

unfoldable pub new_source : Source
new_source = record { current = []; last_version = 0 }

abbrev pub refreshed : Source → ℕ → Composed → Source
refreshed s version nothing = s
refreshed s version failed = s
refreshed s version (canvas jpeg) = record { current = jpeg; last_version = version }

module _ (R : Float) (lib : Images) (cell_w cell_h : ℕ) where
  -- One call of the source, with the cache as it is then: the canvas is in current.
  unfoldable pub next_canvas : Cache → Source → Source
  unfolding compose
  next_canvas c s =
      if c.version == s.last_version
      then s
      else refreshed s c.version (compose R lib c.frames cell_w cell_h)
