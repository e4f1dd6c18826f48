-- ===== src/Host/BridgeServer.antt =====
-- `BridgeServer` of crates/infinity-bridge-host/src/server.rs, the handle that an application holds.
-- The hub stands behind an `Arc` that the handle shares with the routes: it is the state that the
-- operations pass through, and the handle keeps the configuration. A route is its path with its
-- handler; what serves the routes is the third-party crate axum.
use Prim.Native.String
use infinity_wasm_bridge.Prelude.{ℕ, String, Bool, some, none, List, [], ◌∷◌, Result, ok, err}
use infinity_wasm_bridge.Wire.Json.{Json}
use infinity_wasm_bridge.Wire.Error.{BridgeError, transport_error}
use infinity_wasm_bridge.Host.Runtime.{Runtime}
use infinity_wasm_bridge.Host.Hub.{
  Hub, ClientInfo, new, connected_clients, subscribe_events as subscribe_hub_events,
  is_connected as is_hub_connected, is_ready as is_hub_ready,
  connection_status as hub_connection_status,
}
use infinity_wasm_bridge.Host.Waiting.{Waiter, wait_connected as wait_hub_connected}
use infinity_wasm_bridge.Host.Send
use infinity_wasm_bridge.Host.Steps.{Op}
use infinity_wasm_bridge.Host.Call
use infinity_wasm_bridge.Host.Server.{ServerConfig}

pub record BridgeServer : Type 0 where
  pub config : ServerConfig

-- The state of the routes.
pub record AppState : Type 0 where
  pub config : ServerConfig

-- The handlers of the routes.
pub data Endpoint : Type 0 where
  ws_upgrade health : Endpoint

-- `Router::new().route(..).route(..).with_state(..)`.
pub record Routes : Type 0 where
  pub state : AppState
  pub routes : List (String × Endpoint)

abbrev pub app : ServerConfig → Routes
app config = record {
  state = record { config = config };
  routes = (config.ws_path, ws_upgrade) ∷ ("/health", health) ∷ [];
}

-- What `health` answers.
abbrev pub health_body : String
health_body = "ok"

module _ (j : Json) (r : Runtime j) where
  open j use {Value}
  open r use {Net, Acks}

  unfoldable pub router : ServerConfig → Net → Acks → (BridgeServer × Routes) × Hub j r
  router config net acks =
      ((record { config = config }, app config), new j r config.event_capacity net acks)

  -- The argument is what `TcpListener::bind` gives for the address, an error as the text that it
  -- displays. Where it succeeds, a task of its own serves the routes on the listener.
  unfoldable pub start :
      {Listener : Type 0}
      → (String → Result String Listener)
      → ServerConfig
      → Net
      → Acks
      → Result BridgeError (BridgeServer × Listener × Routes) × Hub j r
  start bind config net acks =
      let hub = new j r config.event_capacity net acks in
      elim (bind config.bind_addr) [
        | err e ↦ (err (transport_error (String.◌++◌ "bind failed: " e)), hub)
        | ok listener ↦ (ok (record { config = config }, listener, app config), hub)
      ]

  abbrev pub Commanded : Type 0
  Commanded = Result BridgeError Value × Hub j r

  -- The id of a command and the steps of other tasks are those of `Hub::command`.
  abbrev pub command :
      String → String → Value → ℕ → List (Op j r) → List (Op j r) → Hub j r → Commanded
  command id name payload timeout before meanwhile h =
      Call.command j r id (some name) payload timeout before meanwhile h

  abbrev pub command_raw : String → Value → ℕ → List (Op j r) → List (Op j r) → Hub j r → Commanded
  command_raw id payload timeout before meanwhile h =
      Call.command j r id none payload timeout before meanwhile h

  abbrev pub emit : String → Value → Hub j r → Result BridgeError (Unit {0}) × Hub j r
  emit name payload h = Send.emit j r name payload h

  abbrev pub subscribe_events : Hub j r → r.Subscriber × Hub j r
  subscribe_events h = subscribe_hub_events j r h

  abbrev pub is_connected : Hub j r → Bool
  is_connected h = is_hub_connected j r h

  abbrev pub is_ready : Hub j r → Bool
  is_ready h = is_hub_ready j r h

  -- The task goes on to its next stop, as in the hub.
  abbrev pub wait_connected : Waiter r.Notified → Hub j r → Waiter r.Notified
  wait_connected waiter h = wait_hub_connected j r waiter h

  -- The value that the receiver shows.
  abbrev pub connection_status : Hub j r → Bool
  connection_status h = hub_connection_status j r h

  abbrev pub clients : Hub j r → List (ClientInfo Value)
  clients h = connected_clients j r h
