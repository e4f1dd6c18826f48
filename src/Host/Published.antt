-- ===== src/Host/Published.antt =====
-- The broadcast channel of the hub (crates/infinity-bridge-host/src/hub.rs): what each step publishes.
use infinity_wasm_bridge.Prelude.{ℕ, String, ◌≡◌, refl, List, [], ◌∷◌, arith}
use infinity_wasm_bridge.Wire.Json.{Json}
use infinity_wasm_bridge.Wire.Msg.{EventPayload}
use infinity_wasm_bridge.Host.Runtime.{Runtime}
use infinity_wasm_bridge.Host.Hub.{
  Hub, register_client, set_client_hello, unregister_client, touch_client, reap_dead_clients,
  set_client_ready, dispatch_event,
}
use infinity_wasm_bridge.Host.Send.{emit, send_to, broadcast}
use infinity_wasm_bridge.Host.Command.{begin, forget, deliver, finish, dispatch_ack}
use infinity_wasm_bridge.Host.Steps.{
  Op, publishes, emits, sends, broadcasts, delivers, finishes, acknowledges, step,
}

module _ (j : Json) (r : Runtime j) where
  emit-event_tx :
      (n : String) (p : j.Value) (h : Hub j r) → (emit j r n p h).1.event_tx ≡ h.event_tx
  unfolding emit
  emit-event_tx n p h = ground arith

  send_to-event_tx :
      (id : ℕ) (t : j.Text) (h : Hub j r) → (send_to j r id t h).1.event_tx ≡ h.event_tx
  unfolding send_to
  send_to-event_tx id t h = ground arith

  broadcast-event_tx : (t : j.Text) (h : Hub j r) → (broadcast j r t h).1.event_tx ≡ h.event_tx
  unfolding broadcast
  broadcast-event_tx t h = ground arith

  deliver-event_tx :
      (id : String) (t : j.Text) (h : Hub j r) → (deliver j r id t h).1.event_tx ≡ h.event_tx
  unfolding deliver forget
  deliver-event_tx id t h = ground arith

  forget-event_tx : (id : String) (h : Hub j r) → (forget j r id h).event_tx ≡ h.event_tx
  unfolding forget
  forget-event_tx id h = ground arith

  dispatch_ack-event_tx : (a : _) (h : Hub j r) → (dispatch_ack j r a h).event_tx ≡ h.event_tx
  unfolding dispatch_ack
  dispatch_ack-event_tx a h = ground arith

  -- The events that a step publishes.
  abbrev pub published_by : Op j r → List (EventPayload j.Value)
  published_by (publishes e) = e ∷ []
  published_by op = []

  abbrev pub publish_each : List (EventPayload j.Value) → r.Broadcast → r.Broadcast
  publish_each [] b = b
  publish_each (e ∷ es) b = publish_each es (r.publish e b)

  pub event_tx-step :
      (h : Hub j r) (op : Op j r)
      → (step j r h op).event_tx ≡ publish_each (published_by op) h.event_tx
  unfolding step register_client set_client_hello unregister_client touch_client reap_dead_clients
      set_client_ready dispatch_event begin finish
  event_tx-step h (emits n p) = emit-event_tx n p h
  event_tx-step h (sends id t) = send_to-event_tx id t h
  event_tx-step h (broadcasts t) = broadcast-event_tx t h
  event_tx-step h (delivers id t) = deliver-event_tx id t h
  event_tx-step h (finishes id timeout waited) = forget-event_tx id h
  event_tx-step h (acknowledges a) = dispatch_ack-event_tx a h
  event_tx-step h op = refl
