-- ===== src/Relay/State.antt =====
-- The state of `BridgeRelay` in ts/infinity-bridge-relay/src/relay.ts. What the relay hands to its
-- socket and to the CommBus is kept, oldest first.
use infinity_wasm_bridge.Prelude.{String, Bool, List, ℕ}
use infinity_wasm_bridge.Wire.Json.{Json}
use infinity_wasm_bridge.Relay.Dedup.{DedupRing}

pub record Relay (j : Json) : Type 0 where
  -- Whether `commBus` holds a handle, and `commBusBound`.
  pub has_bus : Bool
  pub is_bound : Bool
  -- Whether `ws` holds a socket whose `readyState` is OPEN, as a handler reads it when it runs.
  pub is_open : Bool
  -- The id of the command of each request, which the closures of `PendingRequest` hold, and of each
  -- request whose timer runs.
  pub pending : List (String × String)
  pub timers : List (String × String)
  pub request_seq : ℕ
  pub dedup : DedupRing
  pub to_host : List j.Text
  pub to_gauge : List j.Text
