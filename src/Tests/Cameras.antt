-- ===== src/Tests/Cameras.antt =====
-- One camera's connection, the accept loop, the frame counters and the registry.
use instachron.Base.{zero, suc}
use instachron.Backend.Accept.{step, accept_failed}
use instachron.Base.{
  ℕ, ◌≡◌, refl, arith, none, some, List, [], ◌∷◌, map, All, keep_if, count_if, ◌==◌, lookup,
  nat_instance,
}
use instachron.Wire.Stream.{Reader, eof}
use instachron.Wire.Messages.{encode_all}
use instachron.Backend.Protocol.{read_header_failed}
use instachron.Backend.Wire.{Sent, device, legacy, wire, captured, IsSendable}
use instachron.Backend.Connection.{Report, handle_connection, handle_connection_total, mem_id}
use instachron.Backend.Connection.Published.{handle_connection-wire, tagged, is_jpeg, once_if}
use instachron.Backend.Accept.{
  Event, fails, Loop, start, running, gave_up, run, run_gave_up, max_consecutive_accept_failures,
}
use instachron.LiveFeed.Registry.{new_registry, known_cameras}
use instachron.LiveFeed.Registry.Known.{
  Call, frame, hub, tick, lost_camera, calls, history, lookup-calls,
}
use instachron.LiveFeed.Registry.Listed.{info_ids, known_cameras-Ascending}
use instachron.LiveFeed.Registry.Once.{count_id, once_if_known}
use instachron.Sorting.{Ascending}
use instachron.Text.{Text, codes, text_instance, text_ltb}

abbrev jpeg : List ℕ
jpeg = 0xff ∷ 0xd8 ∷ 0xff ∷ 0xd9 ∷ []

abbrev sent : List Sent
sent = device 7 0 100 jpeg ∷ legacy 1 200 (1 ∷ 2 ∷ []) ∷ []

abbrev max_frame_bytes : ℕ
max_frame_bytes = 1_000

sent-IsSendable : All (IsSendable max_frame_bytes) sent
sent-IsSendable = (
  (omega arith, (omega arith, omega arith, omega arith, omega arith, omega arith)),
  ((tt, (omega arith, omega arith, omega arith, omega arith, omega arith)), tt),
)

abbrev sent_bytes : Reader
sent_bytes = record { bytes = encode_all wire sent; ending = eof }

handle_connection-wire_example :
    (report : Report) × (handle_connection max_frame_bytes sent_bytes ≡ some report)
    × (report.frames ≡ map tagged (keep_if is_jpeg (map captured sent)))
    × (report.recorded ≡ map (λ f. f.0) report.frames)
    × ((id : ℕ) → count_if (λ x. x == id) report.offline ≡ once_if (mem_id id report.recorded))
    × (report.failure ≡ read_header_failed eof)
handle_connection-wire_example = handle_connection-wire max_frame_bytes sent eof sent-IsSendable

handle_connection_total_example :
    (report : Report) × (handle_connection max_frame_bytes (record { bytes = jpeg; ending = eof })
      ≡ some report)
handle_connection_total_example =
    handle_connection_total max_frame_bytes (record { bytes = jpeg; ending = eof })

abbrev failures : ℕ → List Event
failures zero = []
failures (suc n) = fails ∷ failures n

abbrev after_all : Loop
after_all = record { backoff = 1_000_000_000; failures = 64; conns = []; waited = 56_275_000_000 }

failures-gave_up : run (failures 64) (running start) ≡ gave_up 64 after_all
unfolding run start step accept_failed
failures-gave_up = refl

run_gave_up_example : (64 ≡ max_consecutive_accept_failures) × (after_all.waited ≡ 56_275_000_000)
run_gave_up_example = run_gave_up (failures 64) 64 after_all failures-gave_up

abbrev registry_calls : List Call
registry_calls =
    frame (codes "2") jpeg 10 ∷ hub (codes "10") ∷ tick 9_000_000_000 ∷ lost_camera (codes "3") ∷ []

lookup-calls_example :
    lookup (codes "2") (calls registry_calls new_registry).hubs
    ≡ history (codes "2") registry_calls (lookup (codes "2") new_registry.hubs)
lookup-calls_example = lookup-calls (codes "2") registry_calls new_registry

known_cameras-Ascending_example :
    let r = calls registry_calls new_registry in
    let ids = info_ids (known_cameras none r) in
    Ascending text_ltb ids × ((j : Text) → count_id j ids ≡ once_if_known (lookup j r.hubs))
known_cameras-Ascending_example = known_cameras-Ascending none registry_calls
