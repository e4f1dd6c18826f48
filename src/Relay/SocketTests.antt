-- ===== src/Relay/SocketTests.antt =====
-- The relay's socket at concrete inputs.
use infinity_wasm_bridge.Prelude.{
  ◌≡◌, refl, true, false, none, some, List, [], ◌∷◌, ◌++◌, ◌≤◌, length, is_some, contains, arith,
  nat_eq,
}
use infinity_wasm_bridge.Prelude.HashMap
use infinity_wasm_bridge.Wire.Sample.{Tree, Printed, broken, trees}
use infinity_wasm_bridge.Host.Hub.{Client, Hub, new}
use infinity_wasm_bridge.Host.Server.{handle_text}
use infinity_wasm_bridge.Host.Sample.{pipes, no_traffic, no_slots}
use infinity_wasm_bridge.Relay.State.{Relay}
use infinity_wasm_bridge.Relay.Bridge.{
  ws_send, send_value, send_ready, bind_comm_bus, on_host_message,
}
use infinity_wasm_bridge.Relay.Life
use infinity_wasm_bridge.Relay.Life.{RelayConfig, new_relay, on_open, retry_bind, reject_all}
use infinity_wasm_bridge.Relay.Greeted.{relay_hello, on_open-handle_text}
use infinity_wasm_bridge.Relay.RetryTimer.{schedule, elapse, removed}
use infinity_wasm_bridge.Relay.Socket.{
  Connection, Op, inits, opens, ends, retries_ws, rebinds, hears_host, destroys, new_connection,
  is_active, current, state_of, connect_ws, cleanup_ws, on_ws_open, on_ws_end, retry_ws, rebind,
  init, destroy, opened, step, run,
}
use infinity_wasm_bridge.Relay.Reconnect.{is_trying, is_woken, run-is_trying}

abbrev config : RelayConfig Tree
config = record {
  client = none;
  aircraft = some "DC-10";
  tail = none;
  session = some "s1";
  meta = none;
  dedup_capacity = none;
  protocol_version = none;
}

abbrev relay : Relay trees
relay = record (new_relay trees config) { has_bus = true; is_bound = true }

abbrev client : Client trees pipes
client = record { tx = 3; greeting = none; last_seen = 100; ready = false }

abbrev hub : Hub trees pipes
hub = record (new trees pipes 16 no_traffic no_slots) { clients = (1, client) ∷ [] }

on_open-handle_text_example :
    (first second : Printed) × ((on_open trees config 7 relay).to_host
      ≡ (relay.to_host ++ first ∷ []) ++ second ∷ [])
    × (HashMap.get 1
          (handle_text trees pipes 1 121 second (handle_text trees pipes 1 120 first hub)).clients
        ≡ some (record client {
          greeting = some (relay_hello trees config 7);
          last_seen = 121;
          ready = true;
        }))
unfolding HashMap.get
on_open-handle_text_example =
    on_open-handle_text trees pipes 1 config 7 120 121 relay hub client (omega arith) refl

abbrev fresh : Connection trees
fresh = new_connection trees config

abbrev ops : List (Op trees)
ops =
    inits false false
    ∷ opens config 7 0
    ∷ hears_host false 8 broken
    ∷ rebinds 0 true
    ∷ ends 0
    ∷ ends 0
    ∷ retries_ws 0 true
    ∷ retries_ws 1 false
    ∷ opens config 9 1
    ∷ []

run-is_trying_example :
    let c = run trees (new_connection trees config) ops in
    (is_trying trees c ≡ is_woken trees false ops)
    × (length c.retry.running ≤ 1)
    × (is_active (current trees c) ≡ is_some c.ws)
    × (is_active (state_of trees (step trees c destroys).states c.ws) ≡ false)
run-is_trying_example = run-is_trying trees config ops

-- After these the second socket is open, no timer runs and the listener is bound.
abbrev settled : Connection trees
settled = run trees fresh ops

ops_settle :
    (settled.ws ≡ some 1)
    × (HashMap.get 1 settled.states ≡ some opened)
    × (settled.retry.running ≡ [])
    × (settled.bind.running ≡ [])
    × (settled.relay.is_bound ≡ true)
unfolding run step new_connection new_relay init Life.init connect_ws on_ws_open on_ws_end retry_ws
    rebind retry_bind bind_comm_bus send_ready send_value ws_send on_host_message HashMap.get
    HashMap.insert schedule elapse removed contains
ops_settle = (refl, refl, refl, refl, refl)

-- A destroyed relay whose socket then closes makes a new socket.
destroyed_relay_reconnects :
    (run trees fresh (inits true false ∷ destroys ∷ ends 0 ∷ retries_ws 0 false ∷ [])).ws ≡ some 1
unfolding run step new_connection new_relay init Life.init Life.destroy reject_all connect_ws
    destroy cleanup_ws on_ws_end retry_ws bind_comm_bus HashMap.get HashMap.insert HashMap.modify
    schedule elapse removed contains
destroyed_relay_reconnects = refl

-- The first socket fails and closes only after the second one is open: the relay drops the second,
-- which stays open, and waits for a third.
abbrev late_close : Connection trees
late_close =
    run trees fresh
      (inits true false ∷ ends 0 ∷ retries_ws 0 false ∷ opens config 9 1 ∷ ends 0 ∷ [])

late_close_drops_open_socket :
    (late_close.ws ≡ none) × (HashMap.get 1 late_close.states ≡ some opened)
unfolding run step new_connection new_relay init Life.init bind_comm_bus connect_ws on_ws_open
    on_ws_end retry_ws HashMap.get HashMap.insert schedule elapse removed contains
late_close_drops_open_socket = (refl, refl)
