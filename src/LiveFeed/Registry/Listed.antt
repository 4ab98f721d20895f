-- ===== src/LiveFeed/Registry/Listed.antt =====
-- KnownCameras: which cameras the registry lists, and in which order.
use instachron.LiveFeed.Registry.{new_registry}
use instachron.Base.{All}
use instachron.Base.{inl, inr}
use instachron.Base.{ℕ, ◌+◌, ◌≡◌, refl, ◌∙◌, ap, arith, Option, none, some}
use instachron.Base.{List, [], ◌∷◌, Map, lookup, Bool-cases}
use instachron.Text.{Text, text_instance, text_ltb, text_ltb_asymmetric}
use instachron.Sorting.{sort, place, Ascending, sort-Ascending}
use instachron.LiveFeed.Hub.{Hub, Info, new_hub, push, mark_offline, info}
use instachron.LiveFeed.Hub.Viewers.{check}
use instachron.LiveFeed.Registry.{CameraEntry, hub_of, entries, entry_ltb, infos, known_cameras}
use instachron.LiveFeed.Registry.Known.{
  Call, hub, frame, lost_camera, lost_all, tick, calls, history, seen_by, lookup-calls,
}
use instachron.LiveFeed.Registry.Once.{
  count_id, count_id-sort, once_if_known, calls-Listed, new_registry-Listed,
}

-- The cameras in the order of the answer.
ids_of : List CameraEntry → List Text
ids_of [] = []
ids_of (e ∷ es) = e.id ∷ ids_of es

pub info_ids : List Info → List Text
info_ids [] = []
info_ids (i ∷ is) = i.id ∷ info_ids is

ids_of-entries : (ids : List Text) (hubs : Map Text Hub) → ids_of (entries ids hubs) ≡ ids
unfolding ids_of entries
ids_of-entries [] hubs = refl
ids_of-entries (id ∷ ids) hubs = ap (◌∷◌ id) (ids_of-entries ids hubs)

ids_of-place :
    (e : CameraEntry) (es : List CameraEntry)
    → ids_of (place entry_ltb e es) ≡ place text_ltb e.id (ids_of es)
unfolding ids_of place entry_ltb
ids_of-place e [] = refl
ids_of-place e (x ∷ es) = ground (arith, ids_of-place e es)

ids_of-sort : (es : List CameraEntry) → ids_of (sort entry_ltb es) ≡ sort text_ltb (ids_of es)
unfolding ids_of sort
ids_of-sort [] = refl
ids_of-sort (e ∷ es) =
    ids_of-place e (sort entry_ltb es) ∙ ap (place text_ltb e.id) (ids_of-sort es)

abbrev Named : CameraEntry → Type 0
Named e = e.hub.id ≡ e.id

place-Named :
    (e : CameraEntry) (es : List CameraEntry)
    → Named e
    → All Named es
    → All Named (place entry_ltb e es)
unfolding place
place-Named e [] n ns = (n, tt)
place-Named e (x ∷ es) n ns = elim (Bool-cases (entry_ltb e x)) [
  | inl before ↦ rw before (n, ns)
  | inr after ↦ rw after (ns.0, place-Named e es n ns.1)
]

sort-Named : (es : List CameraEntry) → All Named es → All Named (sort entry_ltb es)
unfolding sort
sort-Named [] ns = tt
sort-Named (e ∷ es) ns = place-Named e (sort entry_ltb es) ns.0 (sort-Named es ns.1)

info_ids-infos :
    (rotation : Option (Text → ℕ)) (i : ℕ) (es : List CameraEntry)
    → All Named es
    → info_ids (infos rotation i es) ≡ ids_of es
unfolding infos info info_ids ids_of
info_ids-infos rotation i [] ns = refl
info_ids-infos rotation i (e ∷ es) ns = cc (ns.0, info_ids-infos rotation (i + 1) es ns.1)

-- A hub's own id is the one it is registered by.
abbrev pub OwnIds : Map Text Hub → Type 0
OwnIds hubs = (j : Text) → (hub_of (lookup j hubs) j).id ≡ j

entries-Named : (ids : List Text) (hubs : Map Text Hub) → OwnIds hubs → All Named (entries ids hubs)
unfolding entries
entries-Named [] hubs own = tt
entries-Named (id ∷ ids) hubs own = (own id, entries-Named ids hubs own)

seen_by-id :
    (j : Text) (c : Call) (o : Option Hub) → (hub_of o j).id ≡ j → (hub_of (seen_by j c o) j).id ≡ j
unfolding seen_by hub_of new_hub push mark_offline check
seen_by-id j (hub id) none own = ground arith
seen_by-id j (hub id) (some h) own = ground arith
seen_by-id j (frame id jpeg now) none own = ground arith
seen_by-id j (frame id jpeg now) (some h) own = ground arith
seen_by-id j (lost_camera id) none own = ground arith
seen_by-id j (lost_camera id) (some h) own = ground arith
seen_by-id j lost_all none own = own
seen_by-id j lost_all (some h) own = own
seen_by-id j (tick now) none own = own
seen_by-id j (tick now) (some h) own = ground arith

history-id :
    (j : Text) (cs : List Call) (o : Option Hub)
    → (hub_of o j).id ≡ j
    → (hub_of (history j cs o) j).id ≡ j
unfolding history
history-id j [] o own = own
history-id j (c ∷ cs) o own = history-id j cs (seen_by j c o) (seen_by-id j c o own)

calls-OwnIds : (cs : List Call) → OwnIds (calls cs new_registry).hubs
calls-OwnIds cs j =
    let start : (hub_of (lookup j new_registry.hubs) j).id ≡ j =
      unfold new_registry lookup hub_of new_hub in refl in
    rw lookup-calls (history-id j cs (lookup j new_registry.hubs) start)

known_cameras_sorted :
    (rotation : Option (Text → ℕ)) (cs : List Call)
    → let r = calls cs new_registry in info_ids (known_cameras rotation r) ≡ sort text_ltb r.ordered
unfolding known_cameras
known_cameras_sorted rotation cs =
    let r = calls cs new_registry in
    let es = entries r.ordered r.hubs in
    info_ids-infos rotation 0 (sort entry_ltb es)
      (sort-Named es (entries-Named r.ordered r.hubs (calls-OwnIds cs)))
    ∙ ids_of-sort es
    ∙ ap (sort text_ltb) (ids_of-entries r.ordered r.hubs)

-- After any calls on a new registry, KnownCameras lists each camera that has a hub exactly once
-- and no other camera, in ascending order of the ids.
pub known_cameras-Ascending :
    (rotation : Option (Text → ℕ)) (cs : List Call)
    → let r = calls cs new_registry in
      let ids = info_ids (known_cameras rotation r) in
      Ascending text_ltb ids × ((j : Text) → count_id j ids ≡ once_if_known (lookup j r.hubs))
known_cameras-Ascending rotation cs =
    let r = calls cs new_registry in
    (
      rw (known_cameras_sorted rotation cs) (sort-Ascending text_ltb text_ltb_asymmetric r.ordered),
      λ j.
          rw (known_cameras_sorted rotation cs)
            (count_id-sort j r.ordered ∙ calls-Listed cs new_registry new_registry-Listed j),
    )
