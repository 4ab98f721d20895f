-- ===== src/LiveFeed/Broadcaster.antt =====
-- shared/livefeed/broadcaster.go: every subscriber gets the frames of all cameras over a channel of
-- two, from which Publish throws the oldest away. A channel is named by a number and held in `subs`.
use instachron.DropChan.Window.{window-append, length-window, window_fits}
use mathlib.Core.List.{append_assoc, append-nil}
use instachron.Base.{ℕ, ◌≤◌, ◌≡◌, ◌∙◌, ap, arith, false, Option, none, some}
use instachron.Base.{
  List, [], ◌∷◌, ◌++◌, length, Map, lookup, insert, remove, nat_instance, lookup-insert,
  lookup-remove, ◌==◌,
}
use instachron.DropChan.{send}
use instachron.DropChan.Window.{window, send-window}
use instachron.DropChan.Offer.{offer}
use instachron.StreamProto.{Frame}

abbrev pub sub_capacity : ℕ
sub_capacity = 2

pub record Broadcaster : Type 0 where
  pub subs : Map ℕ (List Frame)
  pub latest : Option Frame

unfoldable pub new_broadcaster : Broadcaster
new_broadcaster = record { subs = []; latest = none }

-- The loop over the subscribers, whose order does not matter.
unfoldable pub send_each : Frame → Map ℕ (List Frame) → Map ℕ (List Frame)
send_each f [] = []
send_each f ((ch, queue) ∷ subs) = (ch, (send sub_capacity f queue).1) ∷ send_each f subs

unfoldable pub publish : Frame → Broadcaster → Broadcaster
unfolding send_each
publish f b = record { subs = send_each f b.subs; latest = some f }

first_frame : Option Frame → List Frame
first_frame none = []
first_frame (some f) = offer sub_capacity f []

unfoldable pub subscribe : ℕ → Broadcaster → Broadcaster
unfolding first_frame
subscribe ch b = record b { subs = insert ch (first_frame b.latest) b.subs }

-- The function that Subscribe returns.
unfoldable pub unsubscribe : ℕ → Broadcaster → Broadcaster
unsubscribe ch b = record b { subs = remove ch b.subs }

-- What another goroutine does between two frames that reach a subscriber: it publishes, or another
-- client comes or goes.
pub data Event : Type 0 where
  published : Frame → Event
  subscribed unsubscribed : ℕ → Event

unfoldable pub event : Event → Broadcaster → Broadcaster
event (published f) b = publish f b
event (subscribed ch) b = subscribe ch b
event (unsubscribed ch) b = unsubscribe ch b

pub events : List Event → Broadcaster → Broadcaster
events [] b = b
events (e ∷ es) b = events es (event e b)

unfoldable pub frames_of : List Event → List Frame
frames_of [] = []
frames_of (published f ∷ es) = f ∷ frames_of es
frames_of (subscribed _ ∷ es) = frames_of es
frames_of (unsubscribed _ ∷ es) = frames_of es

-- Nobody else uses this channel.
abbrev pub Others : ℕ → List Event → Type 0
Others ch [] = Unit {0}
Others ch (published _ ∷ es) = Others ch es
Others ch (subscribed c ∷ es) = ((c == ch) ≡ false) × Others ch es
Others ch (unsubscribed c ∷ es) = ((c == ch) ≡ false) × Others ch es

lookup-send_each :
    (ch : ℕ) (f : Frame) (subs : Map ℕ (List Frame)) (queue : List Frame)
    → lookup ch subs ≡ some queue
    → length queue ≤ sub_capacity
    → lookup ch (send_each f subs) ≡ some (window sub_capacity (queue ++ (f ∷ [])))
unfolding lookup send_each
lookup-send_each ch f [] queue h fits = cc
lookup-send_each ch f ((c, q) ∷ subs) queue h fits =
    ground
      (arith, send-window sub_capacity f queue (omega arith) fits, lookup-send_each ch f subs queue)

lookup-event :
    (ch : ℕ) (e : Event) (b : Broadcaster) (queue : List Frame)
    → Others ch (e ∷ [])
    → lookup ch b.subs ≡ some queue
    → length queue ≤ sub_capacity
    → lookup ch (event e b).subs ≡ some (window sub_capacity (queue ++ frames_of (e ∷ [])))
unfolding event frames_of publish subscribe unsubscribe
lookup-event ch (published f) b queue others h fits = lookup-send_each ch f b.subs queue h fits
lookup-event ch (subscribed c) b queue others h fits =
    lookup-insert c ch (first_frame b.latest) b.subs
    ∙ rw (others.0, append-nil queue, window_fits sub_capacity queue fits) h
lookup-event ch (unsubscribed c) b queue others h fits =
    lookup-remove c ch b.subs
    ∙ rw (others.0, append-nil queue, window_fits sub_capacity queue fits) h

-- A subscriber of the broadcaster that does not read, and whose channel nobody else adds or
-- removes, holds the last two of the frames that it held and that have been published since,
-- oldest first, whoever else comes and goes.
pub events-window :
    (ch : ℕ) (es : List Event) (b : Broadcaster) (queue : List Frame)
    → Others ch es
    → lookup ch b.subs ≡ some queue
    → length queue ≤ sub_capacity
    → lookup ch (events es b).subs ≡ some (window sub_capacity (queue ++ frames_of es))
unfolding events frames_of
events-window ch [] b queue others h fits =
    rw (append-nil queue, window_fits sub_capacity queue fits) h
events-window ch (published f ∷ es) b queue others h fits =
    let next = window sub_capacity (queue ++ (f ∷ [])) in
    events-window ch es (event (published f) b) next others
      (lookup-event ch (published f) b queue tt h fits)
      (length-window sub_capacity (queue ++ (f ∷ [])))
    ∙ ap some (
        window-append sub_capacity (queue ++ (f ∷ [])) (frames_of es)
        ∙ ap (window sub_capacity) (append_assoc queue (f ∷ []) (frames_of es)))
events-window ch (subscribed c ∷ es) b queue others h fits =
    events-window ch es (event (subscribed c) b) queue others.1
      (lookup-event ch (subscribed c) b queue (others.0, tt) h fits
        ∙ ap some (rw (append-nil queue) (window_fits sub_capacity queue fits)))
      fits
events-window ch (unsubscribed c ∷ es) b queue others h fits =
    events-window ch es (event (unsubscribed c) b) queue others.1
      (lookup-event ch (unsubscribed c) b queue (others.0, tt) h fits
        ∙ ap some (rw (append-nil queue) (window_fits sub_capacity queue fits)))
      fits

-- A client that subscribes after a frame was published gets that frame first, or fresher ones.
pub greeted-window :
    (ch : ℕ) (es : List Event) (f : Frame) (b : Broadcaster)
    → Others ch es
    → lookup ch (events es (subscribe ch (publish f b))).subs
      ≡ some (window sub_capacity (f ∷ frames_of es))
greeted-window ch es f b others =
    events-window ch es (subscribe ch (publish f b)) (f ∷ []) others
      (unfold subscribe publish first_frame offer in
        ground (arith, lookup-insert ch ch (f ∷ []) (send_each f b.subs)))
      (omega arith)
