-- ===== src/Backend/Publisher.antt =====
-- services/tcp-camera-backend/internal/publisher/publisher.go: the fan-out of camera messages to
-- the services on the Unix socket, each over a channel of 64. A connection is named by a number.
-- The writer loop of a consumer is FrameIpc.Client.serve_consumer, fed by what `take` gives.
use instachron.Base.{All, Bool-cases}
use instachron.Base.{ℕ, ◌≤◌, ◌≡◌, ◌∙◌, arith, false, none, some}
use instachron.Base.{
  List, [], ◌∷◌, ◌++◌, length, Map, lookup, insert, remove, nat_instance, lookup-insert,
  lookup-remove, ◌==◌, ==_iff, if◌then◌else◌, Option-cases, inl, inr,
}
use instachron.DropChan.Offer.{offer, length-offer, offer-Sublist}
use instachron.FrameIpc.{Frame, kind_frame, kind_offline}
use mathlib.Core.List.{Sublist, append_assoc, append-nil}
use mathlib.Core.List.Sublist

abbrev pub ipc_channel_size : ℕ
ipc_channel_size = 64

abbrev pub Consumers : Type 0
Consumers = Map ℕ (List Frame)

unfoldable pub fan_out : Frame → Consumers → Consumers
fan_out msg [] = []
fan_out msg ((c, queue) ∷ rest) = (c, offer ipc_channel_size msg queue) ∷ fan_out msg rest

unfoldable pub publish : ℕ → List ℕ → Consumers → Consumers
publish id jpeg cs = fan_out (record { kind = kind_frame; camera_id = id; payload = jpeg }) cs

unfoldable pub publish_offline : ℕ → Consumers → Consumers
publish_offline id cs = fan_out (record { kind = kind_offline; camera_id = id; payload = [] }) cs

-- Listen, on a new connection.
unfoldable pub add_consumer : ℕ → Consumers → Consumers
add_consumer c cs = insert c [] cs

-- serveConsumer, when it returns.
unfoldable pub drop_consumer : ℕ → Consumers → Consumers
drop_consumer c cs = remove c cs

-- `msg, ok := <-c.ch` in serveConsumer: the oldest message, when there is one.
unfoldable pub take_message : ℕ → Consumers → List Frame × Consumers
take_message c cs = elim (lookup c cs) [
  | none ↦ ([], cs)
  | some [] ↦ ([], cs)
  | some (msg ∷ queue) ↦ (msg ∷ [], insert c queue cs)
]

pub data Event : Type 0 where
  frame : ℕ → List ℕ → Event
  offline : ℕ → Event
  joined left taken : ℕ → Event

-- The messages that one event takes out for consumer `c`, and the state after it.
unfoldable pub event : ℕ → Event → Consumers → List Frame × Consumers
event c (frame id jpeg) cs = ([], publish id jpeg cs)
event c (offline id) cs = ([], publish_offline id cs)
event c (joined d) cs = ([], add_consumer d cs)
event c (left d) cs = ([], drop_consumer d cs)
event c (taken d) cs = let (out, rest) = take_message d cs in ((if d == c then out else []), rest)

unfoldable pub events : ℕ → List Event → Consumers → List Frame × Consumers
events c [] cs = ([], cs)
events c (e ∷ es) cs =
    let (out, cs') = event c e cs in let (outs, last) = events c es cs' in (out ++ outs, last)

-- What is published by an event, and by a sequence of them.
unfoldable pub message : Event → List Frame
message (frame id jpeg) = record { kind = kind_frame; camera_id = id; payload = jpeg } ∷ []
message (offline id) = record { kind = kind_offline; camera_id = id; payload = [] } ∷ []
message _ = []

unfoldable pub messages : List Event → List Frame
messages [] = []
messages (e ∷ es) = message e ++ messages es

-- While consumer `c` stays connected.
abbrev pub Stays : ℕ → Event → Type 0
Stays c (joined d) = (d == c) ≡ false
Stays c (left d) = (d == c) ≡ false
Stays c _ = Unit {0}

lookup-fan_out :
    (c : ℕ) (msg : Frame) (cs : Consumers) (queue : List Frame)
    → lookup c cs ≡ some queue
    → lookup c (fan_out msg cs) ≡ some (offer ipc_channel_size msg queue)
unfolding lookup fan_out
lookup-fan_out c msg [] queue h = cc
lookup-fan_out c msg ((d, q) ∷ cs) queue h = ground (arith, lookup-fan_out c msg cs queue)

-- One event: what it takes out and what it leaves are, in order, what was held and published.
abbrev pub Kept : ℕ → List Frame × Consumers → List Frame → Type 0
Kept c (out, cs) available =
    (queue : List Frame) × (lookup c cs ≡ some queue)
    × (length queue ≤ ipc_channel_size)
    × Sublist (out ++ queue) available

fan_out-Kept :
    (c : ℕ) (msg : Frame) (cs : Consumers) (queue : List Frame)
    → lookup c cs ≡ some queue
    → length queue ≤ ipc_channel_size
    → Kept c ([], fan_out msg cs) (queue ++ (msg ∷ []))
fan_out-Kept c msg cs queue h fits = (
  offer ipc_channel_size msg queue,
  lookup-fan_out c msg cs queue h,
  length-offer ipc_channel_size msg queue fits,
  offer-Sublist ipc_channel_size msg queue,
)

-- A consumer keeps its queue when nothing of its own is taken, sent or closed.
idle-Kept :
    (c : ℕ) (cs : Consumers) (queue : List Frame)
    → lookup c cs ≡ some queue
    → length queue ≤ ipc_channel_size
    → Kept c ([], cs) (queue ++ [])
idle-Kept c cs queue h fits = (queue, h, fits, rw (append-nil queue) (Sublist.refl queue))

take_message_other :
    (c d : ℕ) (cs : Consumers) (queue : List Frame)
    → (d == c) ≡ false
    → lookup c cs ≡ some queue
    → lookup c (take_message d cs).1 ≡ some queue
unfolding take_message
take_message_other c d cs queue other h = elim (Option-cases (lookup d cs)) [
  | inl gone ↦ rw (gone, take_message) h
  | inr ([], e) ↦ rw (e, take_message) h
  | inr (msg ∷ q, e) ↦ rw (e, take_message) (lookup-insert d c q cs ∙ rw other h)
]

take_message-Kept :
    (c : ℕ) (cs : Consumers) (queue : List Frame)
    → lookup c cs ≡ some queue
    → length queue ≤ ipc_channel_size
    → Kept c (take_message c cs) (queue ++ [])
unfolding take_message
take_message-Kept c cs [] h fits = rw (h, take_message) (idle-Kept c cs [] h fits)
take_message-Kept c cs (msg ∷ queue) h fits =
    rw (h, take_message)
      (
        queue,
        ground (arith, ==_iff c c, lookup-insert c c queue cs),
        omega arith,
        rw (append-nil queue) (Sublist.refl (msg ∷ queue)),
      )

event-Kept :
    (c : ℕ) (e : Event) (cs : Consumers) (queue : List Frame)
    → Stays c e
    → lookup c cs ≡ some queue
    → length queue ≤ ipc_channel_size
    → Kept c (event c e cs) (queue ++ message e)
unfolding event message publish publish_offline add_consumer drop_consumer
event-Kept c (frame id jpeg) cs queue stays h fits = fan_out-Kept c _ cs queue h fits
event-Kept c (offline id) cs queue stays h fits = fan_out-Kept c _ cs queue h fits
event-Kept c (joined d) cs queue stays h fits =
    idle-Kept c (insert d [] cs) queue (lookup-insert d c [] cs ∙ rw stays h) fits
event-Kept c (left d) cs queue stays h fits =
    idle-Kept c (remove d cs) queue (lookup-remove d c cs ∙ rw stays h) fits
event-Kept c (taken d) cs queue stays h fits = elim (Bool-cases (d == c)) [
  | inl same ↦
      let e : d ≡ c = (==_iff d c).0 same in rw (same, e) (take_message-Kept c cs queue h fits)
  | inr other ↦
      rw other
        (idle-Kept c (take_message d cs).1 queue (take_message_other c d cs queue other h) fits)
]

-- Whatever happens on the publisher while a consumer stays connected, what is taken for that
-- consumer and what waits for it are, in this order, a part of what it held and of what was
-- published since, with nothing twice; and at most 64 messages wait.
pub events-Kept :
    (c : ℕ) (es : List Event) (cs : Consumers) (queue : List Frame)
    → All (Stays c) es
    → lookup c cs ≡ some queue
    → length queue ≤ ipc_channel_size
    → Kept c (events c es cs) (queue ++ messages es)
unfolding events messages
events-Kept c [] cs queue stays h fits = idle-Kept c cs queue h fits
events-Kept c (e ∷ es) cs queue stays h fits =
    let (queue', h', fits', kept) = event-Kept c e cs queue stays.0 h fits in
    let (out, cs') = event c e cs in
    let (last, h'', fits'', rest) = events-Kept c es cs' queue' stays.1 h' fits' in
    let outs = (events c es cs').0 in
    let first : Sublist (out ++ (outs ++ last)) (out ++ (queue' ++ messages es)) =
      Sublist.append (Sublist.refl out) rest in
    let second : Sublist ((out ++ queue') ++ messages es) ((queue ++ message e) ++ messages es) =
      Sublist.append kept (Sublist.refl (messages es)) in
    (
      last,
      h'',
      fits'',
      rw (append_assoc out outs last, ← append_assoc queue (message e) (messages es))
          (Sublist.trans first (rw (append_assoc out queue' (messages es)) at second)),
    )
