-- ===== src/Rescript/Counter.antt =====
-- How the counter of requests grows in ts/infinity-bridge-relay/src/relay.ts.
use infinity_wasm_bridge.Prelude.{ℕ, ◌+◌, ◌≤◌, String, Bool, arith, string_eq}
use infinity_wasm_bridge.Wire.Json.{Json}
use infinity_wasm_bridge.Relay.State.{Relay}
use infinity_wasm_bridge.Relay.Bridge.{
  send_value, ws_send, send_ready, bind_comm_bus, fail_request, call_gauge, forward_command,
  on_host_command, on_host_event, on_host_value, on_host_message, on_response, forward_text,
  on_wasm_message, request_timeout,
}

module _ (j : Json) where
  open j use {Value, Text}

  -- The counter is the same or the next one.
  abbrev pub Counts : Relay j → Relay j → Type 0
  Counts r r' = r'.request_seq ≤ r.request_seq + 1

  send_value-Counts : (v : Value) (r : Relay j) → Counts r (send_value j v r)
  unfolding send_value ws_send
  send_value-Counts v r = ground arith

  forward_command-Counts :
      (binds : Bool) (now : ℕ) (id : String) (v : Value) (r : Relay j)
      → Counts r (forward_command j binds now id v r)
  unfolding forward_command call_gauge bind_comm_bus fail_request send_ready send_value ws_send
  forward_command-Counts binds now id v r = ground arith

  on_host_event-Counts : (now : ℕ) (v : Value) (r : Relay j) → Counts r (on_host_event j now v r)
  unfolding on_host_event call_gauge
  on_host_event-Counts now v r = ground arith

  pub on_host_message-Counts :
      (binds : Bool) (now : ℕ) (t : Text) (r : Relay j) → Counts r (on_host_message j binds now t r)
  unfolding on_host_message on_host_value on_host_command
  on_host_message-Counts binds now t r =
      grind (arith, send_value-Counts, forward_command-Counts, on_host_event-Counts)

  pub on_wasm_message-Counts :
      (shown : Value → String) (t : Text) (r : Relay j) → Counts r (on_wasm_message j shown t r)
  unfolding on_wasm_message on_response forward_text send_value ws_send
  on_wasm_message-Counts shown t r = ground arith

  pub request_timeout-Counts : (id : String) (r : Relay j) → Counts r (request_timeout j id r)
  unfolding request_timeout send_value ws_send
  request_timeout-Counts id r = ground arith

  pub fail_request-Counts : (id e : String) (r : Relay j) → Counts r (fail_request j id e r)
  unfolding fail_request send_value ws_send
  fail_request-Counts id e r = ground arith
