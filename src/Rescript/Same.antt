-- ===== src/Rescript/Same.antt =====
-- The handlers of the two relays do the same with a message.
use infinity_wasm_bridge.Prelude.{
  ℕ, ◌+◌, String, ◌≡◌, refl, ap, ◌∙◌, Bool, none, some, ok, err, Result, is_ok, ◌==◌, string_eq,
  if◌then◌else◌, Bool-cases, Option-cases, Result-cases, inl, inr, arith,
}
use infinity_wasm_bridge.Prelude.HashMap
use infinity_wasm_bridge.Wire.Json.{Json}
use infinity_wasm_bridge.Wire.Decode.{◌>>=◌}
use infinity_wasm_bridge.Wasm.Dispatch.{Answers}
use infinity_wasm_bridge.Relay.State.{Relay}
use infinity_wasm_bridge.Relay.Bridge
use infinity_wasm_bridge.Rescript.Bridge.{
  next_seq, reject_request, request_timeout, forward_command, on_host_event, is_known_tag,
  parse_wire_msg, parse_comm_bus_response, on_host_command, on_host_wire_msg, on_host_message,
  on_response, on_wasm_message,
}

module _ (j : Json) where
  open j use {Value, Text, get, as_str, as_bool, from_str}

  -- A command of the host has an id that is a string.
  abbrev pub IsSound : Value → Type 0
  IsSound msg =
      (get msg "t" >>= as_str) ≡ some "cmd" → (id : String) × ((get msg "id" >>= as_str) ≡ some id)

  pub reject_request-same :
      (request_id e : String) (r : Relay j)
      → reject_request j request_id e r ≡ Bridge.fail_request j request_id e r
  unfolding reject_request Bridge.fail_request
  reject_request-same request_id e r = refl

  pub request_timeout-same :
      (request_id : String) (r : Relay j)
      → request_timeout j request_id r ≡ Bridge.request_timeout j request_id r
  unfolding request_timeout Bridge.request_timeout
  request_timeout-same request_id r = ground arith

  forward_command-same :
      (binds : Bool) (now : ℕ) (id : String) (msg : Value) (r : Relay j)
      → forward_command j binds now id msg (r.request_seq + 1) r
        ≡ Bridge.forward_command j binds now id msg r
  unfolding forward_command Bridge.forward_command reject_request Bridge.fail_request
  forward_command-same binds now id msg r = ground arith

  -- The counter is below its greatest value.
  abbrev pub IsBelow : Relay j → Type 0
  IsBelow r = next_seq r.request_seq ≡ some (r.request_seq + 1)

  on_host_command-found :
      (binds : Bool) (now : ℕ) (msg : Value) (id : String) (r : Relay j)
      → IsBelow r
      → (get msg "id" >>= as_str) ≡ some id
      → on_host_command j binds now msg r ≡ some (Bridge.on_host_command j binds now msg r)
  unfolding on_host_command Bridge.on_host_command
  on_host_command-found binds now msg id r below found =
      rw (on_host_command, Bridge.on_host_command, found)
        (ground (arith, below, forward_command-same binds now id msg r))

  on_host_event-same :
      (now : ℕ) (msg : Value) (r : Relay j)
      → IsBelow r
      → on_host_event j now msg r ≡ some (Bridge.on_host_event j now msg r)
  unfolding on_host_event Bridge.on_host_event
  on_host_event-same now msg r below = ground (arith, below)

  on_host_wire_msg-tagged :
      (binds : Bool) (now : ℕ) (t : String) (msg : Value) (r : Relay j)
      → IsBelow r
      → (t ≡ "cmd" → (id : String) × ((get msg "id" >>= as_str) ≡ some id))
      → on_host_wire_msg j binds now (if is_known_tag t then some (t, msg) else none) r
        ≡ some (Bridge.on_host_value j binds now (some t) msg r)
  unfolding on_host_wire_msg Bridge.on_host_value
  on_host_wire_msg-tagged binds now t msg r below sound = elim (Bool-cases (t == "cmd")) [
    | inr other ↦ ground (arith, other, on_host_event-same now msg r below)
    | inl command ↦
        let same = (string_eq.equal_iff t "cmd").0 command in
        let (id, found) = sound same in
        rw same (on_host_command-found binds now msg id r below found)
  ]

  pub on_host_message-same :
      (binds : Bool) (now : ℕ) (raw : Text) (r : Relay j)
      → IsBelow r
      → ((msg : Value) → from_str raw ≡ ok msg → IsSound msg)
      → on_host_message j binds now raw r ≡ some (Bridge.on_host_message j binds now raw r)
  unfolding on_host_message Bridge.on_host_message parse_wire_msg
  on_host_message-same binds now raw r below sound = elim (Result-cases (from_str raw)) [
    | inr (e, broken) ↦ rw (on_host_message, Bridge.on_host_message, parse_wire_msg, broken) refl
    | inl (msg, parsed) ↦ elim (Option-cases (get msg "t" >>= as_str)) [
      | inl untagged ↦
          rw (on_host_message, Bridge.on_host_message, parse_wire_msg, parsed, untagged) refl
      | inr (t, tagged) ↦
          rw (on_host_message, Bridge.on_host_message, parse_wire_msg, parsed, tagged)
            (on_host_wire_msg-tagged binds now t msg r below
              (λ command. sound msg parsed (tagged ∙ ap some command)))
    ]
  ]

  -- A text that is no response of a gauge: its request is missing.
  pub on_wasm_message-unasked :
      (shown : Value → String) (raw : Text) (msg : Value) (r : Relay j)
      → from_str raw ≡ ok msg
      → (get msg "requestId" >>= as_str) ≡ none
      → on_wasm_message j raw r ≡ Bridge.on_wasm_message j shown raw r
  unfolding on_wasm_message Bridge.on_wasm_message parse_wire_msg parse_comm_bus_response
      Bridge.forward_text
  on_wasm_message-unasked shown raw msg r parsed unasked =
      elim (Option-cases (get msg "t" >>= as_str)) [
        | inl untagged ↦
            rw
              (
                on_wasm_message, Bridge.on_wasm_message, parse_comm_bus_response, parsed, unasked,
                parse_wire_msg, parsed, untagged,
              )
              refl
        | inr (t, tagged) ↦
            rw
              (
                on_wasm_message, Bridge.on_wasm_message, parse_comm_bus_response, parsed, unasked,
                parse_wire_msg, parsed, tagged,
              )
              (ground arith)
      ]

  module _ (shown : Value → String) (request_id : String) (result : Result String Value)
      (text : Text) (a : Answers j request_id result text) where
    on_response-answers :
        (r : Relay j)
        → on_response j request_id (is_ok result) a.body r
          ≡ Bridge.on_response j shown request_id a.body r
    unfolding on_response Bridge.on_response
    on_response-answers r = elim (Option-cases (HashMap.get request_id r.pending)) [
      | inl unknown ↦ rw (on_response, Bridge.on_response, unknown) refl
      | inr (cmd_id, found) ↦ elim (Result-cases result) [
        | inl (v, success) ↦
            rw
              (
                on_response,
                Bridge.on_response,
                found,
                Bridge.is_refusal,
                a.success,
                j.as_bool-bool (is_ok result),
                a.response,
                success,
              )
              refl
        | inr (e, failure) ↦
            rw
              (
                on_response,
                Bridge.on_response,
                found,
                Bridge.is_refusal,
                a.success,
                j.as_bool-bool (is_ok result),
                a.error,
                failure,
                j.is_null-string e,
                j.as_str-string e,
              )
              refl
      ]
    ]

    pub on_wasm_message-answers :
        (r : Relay j) → on_wasm_message j text r ≡ Bridge.on_wasm_message j shown text r
    unfolding on_wasm_message Bridge.on_wasm_message parse_comm_bus_response
    on_wasm_message-answers r =
        rw
          (
            on_wasm_message,
            Bridge.on_wasm_message,
            parse_comm_bus_response,
            a.parsed,
            a.request,
            a.success,
            j.as_str-string request_id,
            j.as_bool-bool (is_ok result),
          )
          (on_response-answers r)

  pub on_wasm_message-broken :
      (shown : Value → String) (raw : Text) (e : String) (r : Relay j)
      → from_str raw ≡ err e
      → on_wasm_message j raw r ≡ Bridge.on_wasm_message j shown raw r
  unfolding on_wasm_message Bridge.on_wasm_message parse_wire_msg parse_comm_bus_response
  on_wasm_message-broken shown raw e r broken =
      rw
        (
          on_wasm_message, Bridge.on_wasm_message, parse_comm_bus_response, broken, parse_wire_msg,
          broken,
        )
        refl
