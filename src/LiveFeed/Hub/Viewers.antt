-- ===== src/LiveFeed/Hub/Viewers.antt =====
-- What a stream subscriber receives, and when a camera counts as live.
use instachron.Base.{ℕ, ◌+◌, ◌<◌, ◌≡◌, ◌∙◌, ap, arith, not, some}
use instachron.Base.{
  List, [], ◌∷◌, take, Map, lookup, nat_instance, lookup-insert, ltb, if◌then◌else◌,
}
use instachron.DropChan.Offer.{offer, offer_all, offer_all-take}
use instachron.LiveFeed.Hub.{
  Hub, Jpeg, sub_buf_size, offline_threshold, fan_out, push, subscribe, greeting, is_stale,
  mark_offline,
}

pub push_all : List (Jpeg × ℕ) → Hub → Hub
push_all [] h = h
push_all ((jpeg, now) ∷ rest) h = push_all rest (push jpeg now h)

abbrev pub frames_of : List (Jpeg × ℕ) → List Jpeg
frames_of [] = []
frames_of ((jpeg, now) ∷ rest) = jpeg ∷ frames_of rest

lookup-fan_out :
    (ch : ℕ) (jpeg : Jpeg) (subs : Map ℕ (List Jpeg)) (queue : List Jpeg)
    → lookup ch subs ≡ some queue
    → lookup ch (fan_out jpeg subs) ≡ some (offer sub_buf_size jpeg queue)
unfolding lookup fan_out
lookup-fan_out ch jpeg [] queue h = cc
lookup-fan_out ch jpeg ((c, q) ∷ subs) queue h = ground (arith, lookup-fan_out ch jpeg subs queue)

lookup-push_all :
    (ch : ℕ) (pushes : List (Jpeg × ℕ)) (h : Hub) (queue : List Jpeg)
    → lookup ch h.subs ≡ some queue
    → lookup ch (push_all pushes h).subs ≡ some (offer_all sub_buf_size (frames_of pushes) queue)
unfolding push_all offer_all
lookup-push_all ch [] h queue e = e
lookup-push_all ch ((jpeg, now) ∷ rest) h queue e =
    lookup-push_all ch rest (push jpeg now h) (offer sub_buf_size jpeg queue)
      (unfold push in lookup-fan_out ch jpeg h.subs queue e)

-- A viewer that subscribes right after a frame was pushed and has not read yet holds that frame
-- and the first ones pushed since, eight in all: the frames after that are lost to this viewer.
pub viewer_queue :
    (ch : ℕ) (h : Hub) (jpeg : Jpeg) (now : ℕ) (pushes : List (Jpeg × ℕ))
    → lookup ch (push_all pushes (subscribe ch (push jpeg now h))).subs
      ≡ some (take sub_buf_size (jpeg ∷ frames_of pushes))
viewer_queue ch h jpeg now pushes =
    lookup-push_all ch pushes (subscribe ch (push jpeg now h)) (jpeg ∷ []) (
      unfold subscribe push greeting offer in
      ground (arith, lookup-insert ch ch (jpeg ∷ []) (fan_out jpeg h.subs)))
    ∙ ap some (offer_all-take sub_buf_size (frames_of pushes) (jpeg ∷ []) (omega arith))

-- CheckLiveness on one hub.
unfoldable pub check : ℕ → Hub → Hub
check now h = if is_stale now h then mark_offline h else h

-- After a frame at a time that is not the zero time, a liveness check leaves the camera online
-- exactly while no more than five seconds have passed.
pub check-push :
    (h : Hub) (jpeg : Jpeg) (seen now : ℕ)
    → 0 < seen
    → (check now (push jpeg seen h)).online ≡ not (ltb (seen + offline_threshold) now)
unfolding check is_stale mark_offline push
check-push h jpeg seen now h0 = ground arith
