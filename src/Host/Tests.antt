-- ===== src/Host/Tests.antt =====
-- The hub at concrete inputs: client 1 is ready, client 2's channel is closed.
use infinity_wasm_bridge.Prelude.{
  ℕ, ◌<◌, String, ◌≡◌, refl, true, false, none, some, List, [], ◌∷◌, ok, err, arith, is_some,
  is_empty, if◌then◌else◌, ◌==◌, ◌&&◌, nat_eq, string_eq, contains,
}
use infinity_wasm_bridge.Prelude.HashMap
use infinity_wasm_bridge.Prelude.HashMap.{IsUnique}
use infinity_wasm_bridge.Wire.Error.{transport_error, no_clients_error}
use infinity_wasm_bridge.Wire.Msg.{event, new_event}
use infinity_wasm_bridge.Wire.Decode.{from_json}
use infinity_wasm_bridge.Wire.Sample.{Printed, nil, broken, trees}
use infinity_wasm_bridge.Host.Hub.{
  Client, Hub, new, register_client, reap_dead_clients, connection_status, is_connected,
  fresh_client, dead_ids, remove_all, is_ready,
}
use infinity_wasm_bridge.Host.Send.{emit, broadcast}
use infinity_wasm_bridge.Host.Command.{deliver}
use infinity_wasm_bridge.Host.Steps.{Op, registers, reaps, readies, begins, step, run}
use infinity_wasm_bridge.Host.Frame.{SameClients, step-SameClients}
use infinity_wasm_bridge.Host.Status.{connection_status-run}
use infinity_wasm_bridge.Host.Ids.{HasIds, get-register_client, register_client-lt}
use infinity_wasm_bridge.Host.Reap.{is_silent, survivor, reap_dead_clients_lem}
use infinity_wasm_bridge.Host.Broadcasting.{any_open, emit-result, queue-emit, queue-broadcast}
use infinity_wasm_bridge.Host.Delivery.{deliver-result, queue-deliver, pending-deliver}
use infinity_wasm_bridge.Host.Sample.{no_events, pipes, no_traffic, no_slots}

abbrev pub gauge : Client trees pipes
gauge = record { tx = 3; greeting = none; last_seen = 100; ready = true }

abbrev gone : Client trees pipes
gone = record { tx = 9; greeting = none; last_seen = 40; ready = false }

abbrev pub hub : Hub trees pipes
hub = record {
  next_id = 3;
  clients = (1, gauge) ∷ (2, gone) ∷ [];
  pending = [];
  event_tx = no_events;
  connection = true;
  connect_notify = 2;
  net = no_traffic;
  acks = no_slots;
}

abbrev pub history : List (Op trees pipes)
history = registers 3 100 ∷ registers 9 40 ∷ readies 1 true ∷ reaps 30 100 ∷ []

pub hub-HasIds : HasIds trees pipes hub
unfolding HashMap.get
hub-HasIds = record { unique = (refl, (refl, tt)); below = (omega arith, (omega arith, tt)) }

pub gauge_found : HashMap.get 1 hub.clients ≡ some gauge
unfolding HashMap.get
gauge_found = refl

begins_leaves_clients : SameClients trees pipes hub (step trees pipes hub (begins "abc-123"))
begins_leaves_clients = step-SameClients trees pipes hub (begins "abc-123") tt

connection_status-run_example :
    connection_status trees pipes (run trees pipes (new trees pipes 16 no_traffic no_slots) history)
    ≡ is_connected trees pipes (run trees pipes (new trees pipes 16 no_traffic no_slots) history)
connection_status-run_example = connection_status-run trees pipes 16 no_traffic no_slots history

get-register_client_example :
    let h = run trees pipes (new trees pipes 16 no_traffic no_slots) history in
    let (id, h') = register_client trees pipes 5 120 h in
    (HashMap.get id h.clients ≡ none)
    × (HashMap.get 1 h'.clients ≡ (
        if ◌==◌ {K = ℕ} id 1
        then some (fresh_client trees pipes 5 120)
        else HashMap.get 1 h.clients))
get-register_client_example =
    get-register_client trees pipes 16 no_traffic no_slots history 5 120 1 (omega arith)

register_client-lt_example :
    let (id, h') = register_client trees pipes 5 120 hub in
    id < (register_client trees pipes 6 130 (run trees pipes h' history)).0
register_client-lt_example =
    register_client-lt trees pipes hub history 5 6 120 130 hub-HasIds (omega arith)

reap_dead_clients_lem_example :
    let (dead, h') = reap_dead_clients trees pipes 30 100 hub in
    (contains dead 2 ≡ is_silent trees pipes 30 100 (HashMap.get 2 hub.clients))
    × (HashMap.get 2 h'.clients ≡ survivor trees pipes 30 100 (HashMap.get 2 hub.clients))
reap_dead_clients_lem_example = reap_dead_clients_lem trees pipes 30 100 hub 2 hub-HasIds.unique

-- A silent client is reaped and named.
reaped :
    reap_dead_clients trees pipes 30 100 hub ≡ (2 ∷ [], record hub { clients = (1, gauge) ∷ [] })
unfolding reap_dead_clients dead_ids remove_all HashMap.remove
reaped = refl

emit-result_example : (emit trees pipes "config_updated" nil hub).0 ≡ (
    if is_empty hub.clients
    then err (no_clients_error "no gauges connected — event dropped")
    else if any_open trees pipes hub.net hub.clients
    then ok tt
    else err (transport_error "all gauge connections failed to accept event"))
emit-result_example = emit-result trees pipes "config_updated" nil hub (omega arith)

queue-emit_example :
    (t : Printed) × (from_json trees t ≡ some (event (new_event "config_updated" nil)))
    × ((emit trees pipes "config_updated" nil hub).1.net.queues 3 ≡ t ∷ [])
queue-emit_example =
    queue-emit trees pipes "config_updated" nil hub 1 gauge (omega arith) gauge_found

broadcast_reaches_gauge :
    let (result, h') = broadcast trees pipes broken hub in
    (result ≡ ok tt) × (h'.net.queues 3 ≡ broken ∷ [])
broadcast_reaches_gauge = queue-broadcast trees pipes broken hub 1 gauge (omega arith) gauge_found

deliver-result_example : (deliver trees pipes "abc-123" broken hub).0 ≡ none
unfolding is_ready
deliver-result_example = deliver-result trees pipes "abc-123" broken hub (omega arith)

queue-deliver_example : (deliver trees pipes "abc-123" broken hub).1.net.queues 3 ≡ broken ∷ []
unfolding is_ready
queue-deliver_example =
    queue-deliver trees pipes "abc-123" broken hub 1 gauge (omega arith) gauge_found

delivery_leaves_nothing :
    HashMap.get "other" (deliver trees pipes "abc-123" broken hub).1.pending ≡ (
      if is_some (deliver trees pipes "abc-123" broken hub).0 && ◌==◌ {K = String} "abc-123" "other"
      then none
      else HashMap.get "other" hub.pending)
delivery_leaves_nothing = pending-deliver trees pipes "abc-123" broken hub "other"
