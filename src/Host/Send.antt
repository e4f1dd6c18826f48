-- ===== src/Host/Send.antt =====
-- `emit`, `send_to` and `broadcast` of crates/infinity-bridge-host/src/hub.rs.
use Prim.Native.String
use infinity_wasm_bridge.Prelude.{
  ℕ, ◌+◌, ◌%◌, ◌^◌, String, ◌&&◌, none, some, [], ◌∷◌, Result, ok, err, ltb, length, is_empty,
  if◌then◌else◌, ◌==◌, nat_eq,
}
use infinity_wasm_bridge.Prelude.Decimal.{show_u64}
use infinity_wasm_bridge.Prelude.HashMap
use infinity_wasm_bridge.Wire.Json.{Json}
use infinity_wasm_bridge.Wire.Error.{
  BridgeError, transport_error, no_clients_error, from_json_error,
}
use infinity_wasm_bridge.Wire.Msg.{event, new_event}
use infinity_wasm_bridge.Wire.Encode.{to_json}
use infinity_wasm_bridge.Host.Runtime.{Runtime}
use infinity_wasm_bridge.Host.Hub.{Hub, Clients}

module _ (j : Json) (r : Runtime j) where
  open j use {Value, Text}
  open r use {Net, send}

  -- The loop of `emit`: `send_failures` is a `u32`.
  unfoldable pub send_all : Text → Clients j r → ℕ → Net → ℕ × Net
  send_all text [] failures n = (failures, n)
  send_all text ((id, c) ∷ cs) failures n =
      let (accepted, n') = send c.tx text n in
      send_all text cs (if accepted then failures else (failures + 1) % 2 ^ 32) n'

  unfoldable pub emit : String → Value → Hub j r → Result BridgeError (Unit {0}) × Hub j r
  emit name payload h = elim (to_json j (event (new_event name payload))) [
    | err e ↦ (err (from_json_error e), h)
    | ok text ↦
        if is_empty h.clients
        then (err (no_clients_error "no gauges connected — event dropped"), h)
        else let (failures, n) = send_all text h.clients 0 h.net in
          (
            if ltb 0 failures && failures == length h.clients
                then err (transport_error "all gauge connections failed to accept event")
                else ok tt,
            record h { net = n },
          )
  ]

  unfoldable pub send_to : ℕ → Text → Hub j r → Result BridgeError (Unit {0}) × Hub j r
  send_to client_id text h = elim (HashMap.get client_id h.clients) [
    | none ↦ (
      err (transport_error (String.◌++◌ "client " (String.◌++◌ (show_u64 client_id) " not found"))),
      h,
    )
    | some c ↦
        let (accepted, n) = send c.tx text h.net in
        (
          if accepted
              then ok tt
              else err (
                  transport_error
                    (String.◌++◌ "client " (String.◌++◌ (show_u64 client_id) " channel closed"))),
          record h { net = n },
        )
  ]

  unfoldable pub broadcast : Text → Hub j r → Result BridgeError (Unit {0}) × Hub j r
  broadcast text h =
      if is_empty h.clients
      then (err (no_clients_error "no gauges connected"), h)
      else (ok tt, record h { net = (send_all text h.clients 0 h.net).1 })
