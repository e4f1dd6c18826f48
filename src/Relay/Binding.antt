-- ===== src/Relay/Binding.antt =====
-- The relay goes on trying to bind its CommBus listener (ts/infinity-bridge-relay/src/relay.ts).
use infinity_wasm_bridge.Prelude.{
  ◌≡◌, Bool, true, false, ◌||◌, not, List, [], ◌∷◌, nat_eq, string_eq,
}
use infinity_wasm_bridge.Wire.Json.{Json}
use infinity_wasm_bridge.Relay.State.{Relay}
use infinity_wasm_bridge.Relay.Life
use infinity_wasm_bridge.Relay.Life.{greet}
use infinity_wasm_bridge.Relay.RetryTimer.{RetryTimer, IsSingle, is_running}
use infinity_wasm_bridge.Relay.Socket.{Connection, Op, inits, destroys}

module _ (j : Json) where
  open j use {Value, Text}

  -- Whether `init` was the last of the calls of `init` and `destroy`.
  abbrev is_started_by : Bool → Op j → Bool
  is_started_by started (inits binds throws) = true
  is_started_by started destroys = false
  is_started_by started op = started

  abbrev pub is_started : Bool → List (Op j) → Bool
  is_started started [] = started
  is_started started (op ∷ ops) = is_started (is_started_by started op) ops

  -- A relay that was started is bound or a timer of the binding runs; for another, none runs.
  abbrev pub is_listening : Bool → Relay j → RetryTimer → Bool
  is_listening true r t = r.is_bound || is_running t
  is_listening false r t = not (is_running t)

  record IsBinding (started : Bool) (r : Relay j) (t : RetryTimer) : Type 0 where
    single : IsSingle t
    bus : r.has_bus ≡ started
    listening : is_listening started r t ≡ true

  abbrev Binds : Bool → Connection j → Type 0
  Binds started c = IsBinding started c.relay c.bind
