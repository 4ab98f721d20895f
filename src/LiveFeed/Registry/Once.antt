-- ===== src/LiveFeed/Registry/Once.antt =====
-- Every camera that has a hub is registered exactly once.
use instachron.LiveFeed.Registry.{new_registry}
use instachron.Base.{Option-cases, inl, inr}
use instachron.Base.{ℕ, ◌+◌, ◌≡◌, refl, sym, ◌∙◌, arith, Option, none, some}
use instachron.Base.{List, [], ◌∷◌, ◌++◌, Map, lookup, lookup-insert, if◌then◌else◌}
use instachron.Text.{Text, text_instance, text_ltb, text_eq, text_eq_iff}
use instachron.Sorting.{sort, place}
use instachron.LiveFeed.Hub.{Hub, Jpeg, new_hub, push, mark_offline}
use instachron.LiveFeed.Hub.Viewers.{check}
use instachron.LiveFeed.Registry.{
  Registry, get_or_create, update, registry_push, registry_mark_offline, each_hub, mark_all_offline,
  check_liveness,
}
use instachron.LiveFeed.Registry.Known.{
  Call, hub, frame, lost_camera, lost_all, tick, call, calls, get_or_create_new,
  get_or_create_known,
}

-- How often an id is registered.
unfoldable pub count_id : Text → List Text → ℕ
count_id j [] = 0
count_id j (i ∷ ids) = (if text_eq i j then 1 else 0) + count_id j ids

count_id-append :
    (j : Text) (xs ys : List Text) → count_id j (xs ++ ys) ≡ count_id j xs + count_id j ys
unfolding count_id
count_id-append j [] ys = omega arith
count_id-append j (x ∷ xs) ys = omega (arith, count_id-append j xs ys)

unfoldable pub once_if_known : Option Hub → ℕ
once_if_known none = 0
once_if_known (some _) = 1

abbrev pub Listed : Registry → Type 0
Listed r = (j : Text) → count_id j r.ordered ≡ once_if_known (lookup j r.hubs)

count_id-singleton : (j id : Text) → count_id j (id ∷ []) ≡ (if text_eq id j then 1 else 0)
unfolding count_id
count_id-singleton j id = omega arith

get_or_create-Listed : (id : Text) (r : Registry) → Listed r → Listed (get_or_create id r).1
get_or_create-Listed id r listed j = elim (Option-cases (lookup id r.hubs)) [
  | inl fresh ↦ rw (get_or_create_new id r fresh) (
      unfold once_if_known in
      ground (
        arith,
        listed j,
        listed id,
        text_eq_iff id j,
        count_id-append j r.ordered (id ∷ []),
        count_id-singleton j id,
        lookup-insert id j (new_hub id) r.hubs,
      ))
  | inr (h, known) ↦ rw (get_or_create_known id r h known) (listed j)
]

update-Listed :
    (id : Text) (old new : Hub) (r : Registry)
    → lookup id r.hubs ≡ some old
    → Listed r
    → Listed (update id new r)
unfolding update once_if_known
update-Listed id old new r known listed j =
    ground (arith, listed j, text_eq_iff id j, lookup-insert id j new r.hubs)

get_or_create-known :
    (id : Text) (r : Registry) → let (h, r') = get_or_create id r in lookup id r'.hubs ≡ some h
get_or_create-known id r = elim (Option-cases (lookup id r.hubs)) [
  | inl fresh ↦
      rw (get_or_create_new id r fresh)
        (ground (arith, text_eq_iff id id, lookup-insert id id (new_hub id) r.hubs))
  | inr (h, known) ↦ rw (get_or_create_known id r h known) known
]

registry_push-Listed :
    (id : Text) (jpeg : Jpeg) (now : ℕ) (r : Registry)
    → Listed r
    → Listed (registry_push id jpeg now r)
unfolding registry_push
registry_push-Listed id jpeg now r listed =
    let (h, r') = get_or_create id r in
    update-Listed id h (push jpeg now h) r' (get_or_create-known id r)
      (get_or_create-Listed id r listed)

each_hub-known :
    (f : Hub → Hub) (j : Text) (hubs : Map Text Hub)
    → once_if_known (lookup j (each_hub f hubs)) ≡ once_if_known (lookup j hubs)
unfolding each_hub lookup once_if_known
each_hub-known f j [] = refl
each_hub-known f j ((i, h) ∷ hubs) = ground (arith, each_hub-known f j hubs)

call-Listed : (c : Call) (r : Registry) → Listed r → Listed (call c r)
unfolding call registry_mark_offline
call-Listed (hub id) r listed j = get_or_create-Listed id r listed j
call-Listed (frame id jpeg now) r listed j = registry_push-Listed id jpeg now r listed j
call-Listed (lost_camera id) r listed j = elim (Option-cases (lookup id r.hubs)) [
  | inl fresh ↦ rw (fresh, registry_mark_offline) (listed j)
  | inr (h, known) ↦
      rw (known, registry_mark_offline) (update-Listed id h (mark_offline h) r known listed j)
]
call-Listed lost_all r listed j =
    unfold mark_all_offline in listed j ∙ sym (each_hub-known mark_offline j r.hubs)
call-Listed (tick now) r listed j =
    unfold check_liveness in listed j ∙ sym (each_hub-known (check now) j r.hubs)

pub calls-Listed : (cs : List Call) (r : Registry) → Listed r → Listed (calls cs r)
unfolding calls
calls-Listed [] r listed = listed
calls-Listed (c ∷ cs) r listed = calls-Listed cs (call c r) (call-Listed c r listed)

count_id-place :
    (j x : Text) (xs : List Text) → count_id j (place text_ltb x xs) ≡ count_id j (x ∷ xs)
unfolding count_id place
count_id-place j x [] = refl
count_id-place j x (y ∷ ys) = ground (arith, count_id-place j x ys)

pub count_id-sort : (j : Text) (xs : List Text) → count_id j (sort text_ltb xs) ≡ count_id j xs
unfolding sort count_id
count_id-sort j [] = refl
count_id-sort j (x ∷ xs) = count_id-place j x (sort text_ltb xs) ∙ omega (arith, count_id-sort j xs)

pub new_registry-Listed : Listed new_registry
unfolding new_registry count_id lookup once_if_known
new_registry-Listed j = refl
