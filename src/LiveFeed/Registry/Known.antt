-- ===== src/LiveFeed/Registry/Known.antt =====
-- What the registry knows of each camera after any calls, in any order.
use instachron.Base.{Option-cases, inl, inr}
use instachron.Base.{ℕ, ◌≡◌, refl, ◌∙◌, ap, arith, Option, none, some}
use instachron.Base.{
  List, [], ◌∷◌, ◌++◌, Map, lookup, insert, lookup-insert, if◌then◌else◌, Bool-cases,
}
use instachron.Text.{Text, text_instance, text_eq, text_eq_iff}
use instachron.LiveFeed.Hub.{Hub, Jpeg, new_hub, push, mark_offline}
use instachron.LiveFeed.Hub.Viewers.{check}
use instachron.LiveFeed.Registry.{
  Registry, get_or_create, update, registry_push, registry_mark_offline, each_hub, mark_all_offline,
  check_liveness, hub_of,
}
use mathlib.Core.Option

-- The calls that change the registry, with the clock's value where they read it.
pub data Call : Type 0 where
  hub : Text → Call
  frame : Text → Jpeg → ℕ → Call
  lost_camera : Text → Call
  lost_all : Call
  tick : ℕ → Call

unfoldable pub call : Call → Registry → Registry
call (hub id) r = (get_or_create id r).1
call (frame id jpeg now) r = registry_push id jpeg now r
call (lost_camera id) r = registry_mark_offline id r
call lost_all r = mark_all_offline r
call (tick now) r = check_liveness now r

unfoldable pub calls : List Call → Registry → Registry
calls [] r = r
calls (c ∷ cs) r = calls cs (call c r)

-- The same calls as one camera sees them: nothing that names another camera matters to it.
unfoldable pub seen_by : Text → Call → Option Hub → Option Hub
unfolding hub_of
seen_by j (hub id) o = if text_eq id j then some (hub_of o j) else o
seen_by j (frame id jpeg now) o = if text_eq id j then some (push jpeg now (hub_of o j)) else o
seen_by j (lost_camera id) o = if text_eq id j then Option.map mark_offline o else o
seen_by j lost_all o = Option.map mark_offline o
seen_by j (tick now) o = Option.map (check now) o

unfoldable pub history : Text → List Call → Option Hub → Option Hub
history j [] o = o
history j (c ∷ cs) o = history j cs (seen_by j c o)

lookup-each_hub :
    (f : Hub → Hub) (j : Text) (m : Map Text Hub)
    → lookup j (each_hub f m) ≡ Option.map f (lookup j m)
unfolding lookup each_hub
lookup-each_hub f j [] = refl
lookup-each_hub f j ((i, h) ∷ m) = ground (arith, lookup-each_hub f j m)

pub get_or_create_new :
    (id : Text) (r : Registry)
    → lookup id r.hubs ≡ none
    → get_or_create id r ≡ (
      new_hub id,
      record { hubs = insert id (new_hub id) r.hubs; ordered = r.ordered ++ (id ∷ []) },
    )
unfolding get_or_create
get_or_create_new id r e = rw (e, get_or_create) refl

pub get_or_create_known :
    (id : Text) (r : Registry) (h : Hub) → lookup id r.hubs ≡ some h → get_or_create id r ≡ (h, r)
unfolding get_or_create
get_or_create_known id r h e = rw (e, get_or_create) refl

lookup-frame :
    (j id : Text) (jpeg : Jpeg) (now : ℕ) (r : Registry)
    → lookup j (registry_push id jpeg now r).hubs ≡ (
        if text_eq id j then some (push jpeg now (hub_of (lookup j r.hubs) j)) else lookup j r.hubs)
unfolding registry_push lookup text_eq
lookup-frame j id jpeg now r = elim (Option-cases (lookup id r.hubs)) [
  | inl fresh ↦
      rw (get_or_create_new id r fresh, registry_push)
        (unfold update hub_of in
          ground (
            arith,
            text_eq_iff id j,
            lookup-insert id j (push jpeg now (new_hub id)) (insert id (new_hub id) r.hubs),
            lookup-insert id j (new_hub id) r.hubs,
          ))
  | inr (h, known) ↦
      rw (get_or_create_known id r h known, registry_push)
        (unfold update hub_of in
          ground (arith, text_eq_iff id j, lookup-insert id j (push jpeg now h) r.hubs))
]

lookup-lost_camera :
    (j id : Text) (r : Registry)
    → lookup j (registry_mark_offline id r).hubs
      ≡ (if text_eq id j then Option.map mark_offline (lookup j r.hubs) else lookup j r.hubs)
unfolding registry_mark_offline lookup text_eq
lookup-lost_camera j id r = elim (Option-cases (lookup id r.hubs)) [
  | inl fresh ↦ rw (fresh, registry_mark_offline) (ground (arith, text_eq_iff id j))
  | inr (h, known) ↦
      rw (known, registry_mark_offline)
        (unfold update in
          ground (arith, text_eq_iff id j, lookup-insert id j (mark_offline h) r.hubs))
]

pub lookup-call :
    (j : Text) (c : Call) (r : Registry) → lookup j (call c r).hubs ≡ seen_by j c (lookup j r.hubs)
unfolding call seen_by get_or_create mark_all_offline check_liveness hub_of
lookup-call j (hub id) r = ground (arith, text_eq_iff id j, lookup-insert id j (new_hub id) r.hubs)
lookup-call j (frame id jpeg now) r = lookup-frame j id jpeg now r
lookup-call j (lost_camera id) r = lookup-lost_camera j id r
lookup-call j lost_all r = lookup-each_hub mark_offline j r.hubs
lookup-call j (tick now) r = lookup-each_hub (check now) j r.hubs

-- After any calls on the registry, each camera's hub is what the same calls make of that camera
-- alone: calls that name another camera leave it as it is.
pub lookup-calls :
    (j : Text) (cs : List Call) (r : Registry)
    → lookup j (calls cs r).hubs ≡ history j cs (lookup j r.hubs)
unfolding calls history
lookup-calls j [] r = refl
lookup-calls j (c ∷ cs) r = lookup-calls j cs (call c r) ∙ ap (history j cs) (lookup-call j c r)

seen_by-some : (j : Text) (c : Call) (h : Hub) → (h' : Hub) × (seen_by j c (some h) ≡ some h')
unfolding seen_by
seen_by-some j (hub id) h = (h, unfold hub_of in ground arith)
seen_by-some j (frame id jpeg now) h = elim (Bool-cases (text_eq id j)) [
  | inl same ↦ (push jpeg now h, unfold hub_of in rw same refl)
  | inr other ↦ (h, rw other refl)
]
seen_by-some j (lost_camera id) h = elim (Bool-cases (text_eq id j)) [
  | inl same ↦ (mark_offline h, rw same refl)
  | inr other ↦ (h, rw other refl)
]
seen_by-some j lost_all h = (mark_offline h, refl)
seen_by-some j (tick now) h = (check now h, refl)

history-some :
    (j : Text) (cs : List Call) (h : Hub) → (h' : Hub) × (history j cs (some h) ≡ some h')
unfolding history
history-some j [] h = (h, refl)
history-some j (c ∷ cs) h =
    let (next, e) = seen_by-some j c h in
    let (last, e') = history-some j cs next in (last, ap (history j cs) e ∙ e')

-- A camera that is known stays known, whatever is called.
pub calls-known :
    (j : Text) (cs : List Call) (r : Registry) (h : Hub)
    → lookup j r.hubs ≡ some h
    → (h' : Hub) × (lookup j (calls cs r).hubs ≡ some h')
calls-known j cs r h e =
    let (last, e') = history-some j cs h in (last, lookup-calls j cs r ∙ ap (history j cs) e ∙ e')
