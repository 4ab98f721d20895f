-- ===== src/LiveFeed/Http.antt =====
-- shared/livefeed/httpapi.go: the camera API. A viewer's stream is the sequence of what its select
-- receives.
pub mod Streamed
use instachron.Base.{
  ℕ, Bool, true, false, Option, none, some, List, [], ◌∷◌, Map, lookup, if◌then◌else◌,
}
use instachron.Text.{Text, codes, text_eq, text_instance}
use instachron.Wire.Stream.{Writer}
use instachron.LiveFeed.Hub.{Hub, Jpeg, Info, latest_frame, subscribe, unsubscribe}
use instachron.LiveFeed.Registry.{Registry, get_or_create, known_cameras, update}
use instachron.LiveFeed.Mjpeg.{write_frame}

pub record ApiOptions : Type 0 where
  pub rotation : Option (Text → ℕ)
  pub create_on_subscribe : Bool

pub data Response : Type 0 where
  index_page : Response
  camera_list : List Info → Response
  jpeg_image : Jpeg → Response
  not_found : Response
  no_frame_yet : Response
  streaming_unsupported : Response

unfoldable pub handle_index : Text → Response
handle_index path = if text_eq path (codes "/") then index_page else not_found

unfoldable pub handle_cameras : ApiOptions → Registry → Response
unfolding known_cameras
handle_cameras opts reg = camera_list (known_cameras opts.rotation reg)

abbrev image_of : Option Jpeg → Response
image_of none = no_frame_yet
image_of (some f) = jpeg_image f

abbrev snapshot_of : Option Hub → Response
unfolding latest_frame
snapshot_of none = not_found
snapshot_of (some h) = image_of (latest_frame h)

unfoldable pub handle_snapshot : Text → Registry → Response
unfolding snapshot_of
handle_snapshot id reg = snapshot_of (lookup id reg.hubs)

unfoldable pub hub_for_stream : ApiOptions → Text → Registry → Option Hub × Registry
unfolding get_or_create
hub_for_stream opts id reg =
    let (h, made) = get_or_create id reg in
    if opts.create_on_subscribe then (some h, made) else (lookup id reg.hubs, reg)

-- What a stream starts with: a response that ends it, or the new subscriber ch of the hub.
abbrev attached : ℕ → Text → Option Hub × Registry → Option Response × Registry
unfolding subscribe update
attached ch id (none, reg) = (some not_found, reg)
attached ch id (some h, reg) = (none, update id (subscribe ch h) reg)

unfoldable pub start_stream : ApiOptions → Bool → ℕ → Text → Registry → Option Response × Registry
unfolding attached hub_for_stream
start_stream opts flusher ch id reg =
    let begun = attached ch id (hub_for_stream opts id reg) in
    if flusher then begun else (some streaming_unsupported, reg)

-- The deferred Unsubscribe.
unfoldable pub end_stream : ℕ → Text → Registry → Registry
unfolding unsubscribe update
end_stream ch id reg = elim (lookup id reg.hubs) [
  | none ↦ reg
  | some h ↦ update id (unsubscribe ch h) reg
]

-- What a round of the select receives.
pub data Event : Type 0 where
  cancelled : Event
  channel_closed : Event
  got : Jpeg → Event

unfoldable pub stream_loop : List Event → Writer → Writer
unfolding write_frame
stream_loop [] w = w
stream_loop (cancelled ∷ events) w = w
stream_loop (channel_closed ∷ events) w = w
stream_loop (got f ∷ events) w =
    let (sent, w') = write_frame f w in
    let rest = stream_loop events w' in if sent then rest else w'
