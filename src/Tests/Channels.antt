-- ===== src/Tests/Channels.antt =====
-- Channels of two values, the viewers of a camera and the consumers of the publisher.
use instachron.Base.{
  ℕ, ◌-◌, ◌≤◌, ◌≡◌, ◌≢◌, refl, arith, some, List, [], ◌∷◌, ◌++◌, length, take, drop, lookup,
  nat_instance,
}
use instachron.DropChan.{dropped, try_send, send_among}
use instachron.DropChan.Window.{window, send_all, send_all-window}
use instachron.DropChan.Concurrent.{
  State, start, sends, Reach, here, next, send_ok, Inv, reachable-Inv, send_among-ne-dropped,
}
use instachron.LiveFeed.Hub.{new_hub, push, subscribe, sub_buf_size}
use instachron.LiveFeed.Hub.Viewers.{push_all, frames_of, viewer_queue}
use instachron.LiveFeed.Broadcaster.{sub_capacity}
use instachron.LiveFeed.Broadcaster
use instachron.Backend.Publisher
use instachron.StreamProto.{Frame}
use instachron.Base.{insert}
use instachron.Text.{codes}

abbrev values : List ℕ
values = 1 ∷ 2 ∷ 3 ∷ 4 ∷ []

send_all-window_example : send_all 2 values (0, []) ≡ (length values - 2, window 2 values)
send_all-window_example = send_all-window 2 values (omega arith)

abbrev one_sent : State ℕ
one_sent = sends start (1 ∷ [])

one_sent-Reach : Reach 2 start one_sent
unfolding start try_send
one_sent-Reach = next here (send_ok 1 (1 ∷ []) refl)

reachable-Inv_example : Inv 2 one_sent
reachable-Inv_example = reachable-Inv 2 one_sent one_sent-Reach

abbrev full_queue : List ℕ
full_queue = 1 ∷ 2 ∷ []

send_among-ne-dropped_example :
    ((send_among (drop 1) (drop 0) 2 3 full_queue).0 ≢ dropped)
    × (length (send_among (drop 1) (drop 0) 2 3 full_queue).1 ≤ 2)
send_among-ne-dropped_example = send_among-ne-dropped 2 3 full_queue 1 0 (omega arith) (omega arith)

abbrev jpeg : List ℕ
jpeg = 0xff ∷ 0xd8 ∷ 0xff ∷ 0xd9 ∷ []

abbrev pushes : List (List ℕ × ℕ)
pushes = (jpeg, 20) ∷ (jpeg, 30) ∷ []

viewer_queue_example :
    lookup 5 (push_all pushes (subscribe 5 (push jpeg 10 (new_hub (codes "1"))))).subs
    ≡ some (take sub_buf_size (jpeg ∷ frames_of pushes))
viewer_queue_example = viewer_queue 5 (new_hub (codes "1")) jpeg 10 pushes

abbrev frame_of : ℕ → Frame
frame_of n = record { timestamp = n; sequence = n; camera_id = 1; payload = jpeg }

abbrev one_viewer : Broadcaster.Broadcaster
one_viewer = Broadcaster.subscribe 5 Broadcaster.new_broadcaster

abbrev viewer_events : List Broadcaster.Event
viewer_events =
    Broadcaster.published (frame_of 1)
    ∷ Broadcaster.subscribed 6
    ∷ Broadcaster.published (frame_of 2)
    ∷ Broadcaster.unsubscribed 6
    ∷ Broadcaster.published (frame_of 3)
    ∷ []

one_viewer-queue : lookup 5 one_viewer.subs ≡ some []
unfolding Broadcaster.subscribe Broadcaster.new_broadcaster lookup insert
one_viewer-queue = refl

events-window_example :
    lookup 5 (Broadcaster.events viewer_events one_viewer).subs
    ≡ some (window sub_capacity ([] ++ Broadcaster.frames_of viewer_events))
events-window_example =
    Broadcaster.events-window 5 viewer_events one_viewer [] (refl, (refl, tt)) one_viewer-queue
      (omega arith)

abbrev one_consumer : Publisher.Consumers
one_consumer = (5, []) ∷ []

abbrev consumer_events : List Publisher.Event
consumer_events =
    Publisher.frame 1 jpeg ∷ Publisher.joined 6 ∷ Publisher.taken 5 ∷ Publisher.offline 1 ∷ []

one_consumer-queue : lookup 5 one_consumer ≡ some []
unfolding lookup
one_consumer-queue = refl

events-Kept_example :
    Publisher.Kept 5
      (Publisher.events 5 consumer_events one_consumer)
      ([] ++ Publisher.messages consumer_events)
events-Kept_example =
    Publisher.events-Kept 5 consumer_events one_consumer [] (tt, (refl, (tt, (tt, tt))))
      one_consumer-queue (omega arith)
