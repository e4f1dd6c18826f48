-- ===== src/Host/Steps.antt =====
-- The hub as a machine: an operation of crates/infinity-bridge-host/src/hub.rs, or the part of one
-- that runs under its locks, is one step, and what the tasks of the server do is some sequence of
-- such steps.
use infinity_wasm_bridge.Prelude.{ℕ, String, ◌≡◌, refl, Bool, true, false, ◌++◌, List, [], ◌∷◌}
use infinity_wasm_bridge.Wire.Json.{Json}
use infinity_wasm_bridge.Wire.Msg.{HelloPayload, EventPayload, AckPayload}
use infinity_wasm_bridge.Host.Runtime.{Runtime}
use infinity_wasm_bridge.Host.Hub.{
  Hub, register_client, set_client_hello, unregister_client, touch_client, reap_dead_clients,
  set_client_ready, dispatch_event,
}
use infinity_wasm_bridge.Host.Send.{emit, send_to, broadcast}
use infinity_wasm_bridge.Host.Command.{Waited, begin, deliver, finish, dispatch_ack}

pub data Op (j : Json) (r : Runtime j) : Type 0 where
  registers : r.Sender → ℕ → Op j r
  greets : ℕ → HelloPayload j.Value → Op j r
  unregisters : ℕ → Op j r
  touches : ℕ → ℕ → Op j r
  reaps : ℕ → ℕ → Op j r
  readies : ℕ → Bool → Op j r
  publishes : EventPayload j.Value → Op j r
  emits : String → j.Value → Op j r
  sends : ℕ → j.Text → Op j r
  broadcasts : j.Text → Op j r
  begins : String → Op j r
  delivers : String → j.Text → Op j r
  finishes : String → ℕ → Waited j.Value → Op j r
  acknowledges : AckPayload j.Value → Op j r

module _ (j : Json) (r : Runtime j) where
  unfoldable pub step : Hub j r → Op j r → Hub j r
  step h (registers tx now) = (register_client j r tx now h).1
  step h (greets id greeting) = set_client_hello j r id greeting h
  step h (unregisters id) = unregister_client j r id h
  step h (touches id now) = touch_client j r id now h
  step h (reaps timeout now) = (reap_dead_clients j r timeout now h).1
  step h (readies id ready) = set_client_ready j r id ready h
  step h (publishes event) = dispatch_event j r event h
  step h (emits name payload) = (emit j r name payload h).1
  step h (sends id text) = (send_to j r id text h).1
  step h (broadcasts text) = (broadcast j r text h).1
  step h (begins id) = (begin j r id h).1
  step h (delivers id text) = (deliver j r id text h).1
  step h (finishes id timeout waited) = (finish j r id timeout waited h).1
  step h (acknowledges a) = dispatch_ack j r a h

  abbrev pub is_registration : Op j r → Bool
  is_registration (registers tx now) = true
  is_registration op = false

  unfoldable pub run : Hub j r → List (Op j r) → Hub j r
  run h [] = h
  run h (op ∷ ops) = run (step h op) ops

  pub run-++ : (h : Hub j r) (ops more : List (Op j r)) → run h (ops ++ more) ≡ run (run h ops) more
  unfolding run
  run-++ h [] more = refl
  run-++ h (op ∷ ops) more = run-++ (step h op) ops more
