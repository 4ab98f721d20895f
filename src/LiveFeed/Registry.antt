-- ===== src/LiveFeed/Registry.antt =====
-- shared/livefeed/registry.go: the hubs of all cameras, by the text of their id. A hub is held in
-- the map alone, so a pointer to it is its key.
pub mod Known
pub mod Once
pub mod Listed
use instachron.Base.{ℕ, zero, suc, ◌+◌, ◌≡◌, refl, arith, Bool, true, false, Option, none, some}
use instachron.Base.{List, [], ◌∷◌, ◌++◌, map, Map, lookup, insert, if◌then◌else◌}
use instachron.Text.{Text, text_instance, text_ltb}
use instachron.Sorting.{sort}
use instachron.LiveFeed.Hub.{Hub, Info, Jpeg, new_hub, push, mark_offline, info}
use instachron.LiveFeed.Hub.Viewers.{check}

pub record Registry : Type 0 where
  pub hubs : Map Text Hub
  pub ordered : List Text

unfoldable pub new_registry : Registry
new_registry = record { hubs = []; ordered = [] }

-- getOrCreate returns the hub and registers it when it is new.
unfoldable pub get_or_create : Text → Registry → Hub × Registry
get_or_create id r = elim (lookup id r.hubs) [
  | some h ↦ (h, r)
  | none ↦ (
    new_hub id,
    record { hubs = insert id (new_hub id) r.hubs; ordered = r.ordered ++ (id ∷ []) },
  )
]

-- A change to the hub that a pointer leads to.
unfoldable pub update : Text → Hub → Registry → Registry
update id h r = record r { hubs = insert id h r.hubs }

unfoldable pub registry_push : Text → Jpeg → ℕ → Registry → Registry
registry_push id jpeg now r = let (h, r') = get_or_create id r in update id (push jpeg now h) r'

unfoldable pub registry_mark_offline : Text → Registry → Registry
registry_mark_offline id r = elim (lookup id r.hubs) [
  | none ↦ r
  | some h ↦ update id (mark_offline h) r
]

-- The loops over snapshotHubs, whose order does not matter: each hub is changed once.
unfoldable pub each_hub : (Hub → Hub) → Map Text Hub → Map Text Hub
each_hub f [] = []
each_hub f ((id, h) ∷ hubs) = (id, f h) ∷ each_hub f hubs

unfoldable pub mark_all_offline : Registry → Registry
mark_all_offline r = record r { hubs = each_hub mark_offline r.hubs }

unfoldable pub check_liveness : ℕ → Registry → Registry
check_liveness now r = record r { hubs = each_hub (check now) r.hubs }

pub record CameraEntry : Type 0 where
  pub id : Text
  pub hub : Hub

-- r.hubs[id], where an id of `ordered` always has a hub; a nil hub would panic in `info`.
unfoldable pub hub_of : Option Hub → Text → Hub
hub_of none id = new_hub id
hub_of (some h) id = h

unfoldable pub entries : List Text → Map Text Hub → List CameraEntry
entries [] hubs = []
entries (id ∷ ids) hubs = record { id = id; hub = hub_of (lookup id hubs) id } ∷ entries ids hubs

unfoldable pub entry_ltb : CameraEntry → CameraEntry → Bool
entry_ltb a b = text_ltb a.id b.id

unfoldable pub angle : Option (Text → ℕ) → Text → ℕ
angle none id = 0
angle (some rotation) id = rotation id

unfoldable pub infos : Option (Text → ℕ) → ℕ → List CameraEntry → List Info
infos rotation i [] = []
infos rotation i (e ∷ rest) = info i (angle rotation e.id) e.hub ∷ infos rotation (i + 1) rest

unfoldable pub known_cameras : Option (Text → ℕ) → Registry → List Info
unfolding entries entry_ltb infos angle hub_of
known_cameras rotation r = infos rotation 0 (sort entry_ltb (entries r.ordered r.hubs))
