-- ===== src/Relay/Stays.antt =====
-- No handler of ts/infinity-bridge-relay/src/relay.ts takes the bus or the bind away.
use infinity_wasm_bridge.Prelude.{ℕ, String, ◌≡◌, ◌∙◌, Bool, true, arith, nat_eq, string_eq}
use infinity_wasm_bridge.Wire.Json.{Json}
use infinity_wasm_bridge.Relay.State.{Relay}
use infinity_wasm_bridge.Relay.Bridge.{
  send_value, ws_send, send_ready, bind_comm_bus, fail_request, call_gauge, forward_command,
  on_host_command, on_host_event, on_host_value, on_host_message, on_response, forward_text,
  on_wasm_message, request_timeout,
}
use infinity_wasm_bridge.Relay.Life
use infinity_wasm_bridge.Relay.Life.{RelayConfig, greet, retry_bind}

module _ (j : Json) where
  open j use {Value, Text}

  -- The relay has the same bus, and is bound if it was.
  pub record StaysBound (r r' : Relay j) : Type 0 where
    pub bus : r'.has_bus ≡ r.has_bus
    pub bound : r.is_bound ≡ true → r'.is_bound ≡ true

  StaysBound-trans : {r s t : Relay j} → StaysBound r s → StaysBound s t → StaysBound r t
  StaysBound-trans v w = record { bus = w.bus ∙ v.bus; bound = λ b. w.bound (v.bound b) }

  ws_send-StaysBound : (t : Text) (r : Relay j) → StaysBound r (ws_send j t r)
  unfolding ws_send
  ws_send-StaysBound t r = ground arith

  send_value-StaysBound : (v : Value) (r : Relay j) → StaysBound r (send_value j v r)
  unfolding send_value ws_send
  send_value-StaysBound v r = ground arith

  pub bind-StaysBound : (binds : Bool) (r : Relay j) → StaysBound r (bind_comm_bus j binds r)
  unfolding bind_comm_bus send_ready send_value ws_send
  bind-StaysBound binds r = ground arith

  pub fail_request-StaysBound : (id e : String) (r : Relay j) → StaysBound r (fail_request j id e r)
  unfolding fail_request send_value ws_send
  fail_request-StaysBound id e r = ground arith

  call_gauge-StaysBound :
      (id : String) (v : Value) (r : Relay j) → StaysBound r (call_gauge j id v r)
  unfolding call_gauge
  call_gauge-StaysBound id v r = ground arith

  forward_command-StaysBound :
      (binds : Bool) (now : ℕ) (id : String) (v : Value) (r : Relay j)
      → StaysBound r (forward_command j binds now id v r)
  unfolding forward_command call_gauge bind_comm_bus fail_request send_ready send_value ws_send
  forward_command-StaysBound binds now id v r = ground arith

  pub on_host_message-StaysBound :
      (binds : Bool) (now : ℕ) (t : Text) (r : Relay j)
      → StaysBound r (on_host_message j binds now t r)
  unfolding on_host_message on_host_value on_host_command on_host_event
  on_host_message-StaysBound binds now t r =
      grind (arith, call_gauge-StaysBound, send_value-StaysBound, forward_command-StaysBound)

  pub on_wasm_message-StaysBound :
      (shown : Value → String) (t : Text) (r : Relay j) → StaysBound r (on_wasm_message j shown t r)
  unfolding on_wasm_message on_response forward_text send_value ws_send
  on_wasm_message-StaysBound shown t r = ground arith

  pub request_timeout-StaysBound :
      (id : String) (r : Relay j) → StaysBound r (request_timeout j id r)
  unfolding request_timeout send_value ws_send
  request_timeout-StaysBound id r = ground arith

  pub retry_bind-StaysBound : (binds : Bool) (r : Relay j) → StaysBound r (retry_bind j binds r)
  unfolding retry_bind bind_comm_bus send_ready send_value ws_send
  retry_bind-StaysBound binds r = ground arith

  pub greet-StaysBound :
      (config : RelayConfig Value) (now : ℕ) (r : Relay j) → StaysBound r (greet j config now r)
  unfolding send_ready
  greet-StaysBound config now r =
      StaysBound-trans (send_value-StaysBound _ r) (send_value-StaysBound _ _)

  pub has_bus-init : (binds : Bool) (r : Relay j) → (Life.init j binds r).has_bus ≡ true
  unfolding Life.init
  has_bus-init binds r = (bind-StaysBound binds (record r { has_bus = true })).bus
