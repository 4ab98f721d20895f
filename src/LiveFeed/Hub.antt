-- ===== src/LiveFeed/Hub.antt =====
-- shared/livefeed/hub.go and camerainfo.go: one camera's latest frame, its liveness and its stream
-- subscribers. A channel is named by a number; its buffer is what the subscriber has not read.
pub mod Viewers
use instachron.Base.{
  ℕ, zero, suc, ◌+◌, ◌*◌, ◌≤◌, ◌<◌, ◌≡◌, refl, ap, arith, Bool, true, false, not, ◌&&◌, Option,
  none, some,
}
use instachron.Base.{
  List, [], ◌∷◌, ◌++◌, map, length, take, Map, lookup, insert, remove, nat_instance, lookup-insert,
  ltb, ◌==◌, if◌then◌else◌,
}
use instachron.Text.{Text}
use instachron.DropChan.Offer.{offer}

abbrev pub offline_threshold : ℕ
offline_threshold = 5 * 1_000_000_000

abbrev pub sub_buf_size : ℕ
sub_buf_size = 8

abbrev pub Jpeg : Type 0
Jpeg = List ℕ

pub record Hub : Type 0 where
  pub id : Text
  pub latest : Option Jpeg
  pub last_seen : ℕ
  pub online : Bool
  pub subs : Map ℕ (List Jpeg)

pub record Info : Type 0 where
  pub id : Text
  pub index : ℕ
  pub online : Bool
  pub rotation : ℕ

unfoldable pub new_hub : Text → Hub
new_hub id = record { id = id; latest = none; last_seen = 0; online = false; subs = [] }

unfoldable pub greeting : Option Jpeg → List Jpeg
greeting none = []
greeting (some jpeg) = offer sub_buf_size jpeg []

unfoldable pub subscribe : ℕ → Hub → Hub
unfolding greeting
subscribe ch h = record h { subs = insert ch (greeting h.latest) h.subs }

unfoldable pub unsubscribe : ℕ → Hub → Hub
unsubscribe ch h = record h { subs = remove ch h.subs }

unfoldable pub fan_out : Jpeg → Map ℕ (List Jpeg) → Map ℕ (List Jpeg)
fan_out jpeg [] = []
fan_out jpeg ((ch, queue) ∷ subs) = (ch, offer sub_buf_size jpeg queue) ∷ fan_out jpeg subs

unfoldable pub push : Jpeg → ℕ → Hub → Hub
unfolding fan_out
push jpeg now h = record h {
  latest = some jpeg;
  last_seen = now;
  online = true;
  subs = fan_out jpeg h.subs;
}

unfoldable pub mark_offline : Hub → Hub
mark_offline h = record h { online = false }

-- time.Since compares with the threshold; a frame that was never seen is not stale.
unfoldable pub is_stale : ℕ → Hub → Bool
is_stale now h =
    if not h.online
    then false
    else not (h.last_seen == 0) && ltb (h.last_seen + offline_threshold) now

unfoldable pub info : ℕ → ℕ → Hub → Info
info index rotation h = record { id = h.id; index = index; online = h.online; rotation = rotation }

unfoldable pub latest_frame : Hub → Option Jpeg
latest_frame h = h.latest
