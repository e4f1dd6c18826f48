-- ===== src/Relay/Forwarded.antt =====
-- The way of a command through ts/infinity-bridge-relay/src/relay.ts: from the host to the gauge, and of
-- the gauge's response back to the host.
use infinity_wasm_bridge.Prelude.{
  ℕ, ◌+◌, String, ◌≡◌, refl, Bool, if◌then◌else◌, true, false, arith, none, some, [], ◌∷◌, ◌++◌,
  ◌∙◌, ap, Result, ok, err, is_ok, ok_part, err_part, string_eq,
}
use infinity_wasm_bridge.Prelude.HashMap
use infinity_wasm_bridge.Wire.Json.{Json, parsed_of_printed}
use infinity_wasm_bridge.Wire.Msg.{CmdPayload, WireMsg, cmd, ack, tag}
use infinity_wasm_bridge.Wire.Encode.{serialize, to_json}
use infinity_wasm_bridge.Wire.Decode.{◌>>=◌, from_json}
use infinity_wasm_bridge.Wire.Fields.{get_tag, get-serialize, field_cmd}
use infinity_wasm_bridge.Wire.RoundTrip.{normal, from_json-to_json}
use infinity_wasm_bridge.Wasm.Dispatch.{Answers}
use infinity_wasm_bridge.Wasm.Relayed.{Wraps}
use infinity_wasm_bridge.Relay.Dedup.{has, mark}
use infinity_wasm_bridge.Relay.State.{Relay}
use infinity_wasm_bridge.Relay.Bridge.{
  fail_request, is_refusal, error_text, ws_send, send_value, bind_comm_bus, resolved_value,
  rejected_value, settle, envelope, request_id_of, call_gauge, forward_command, on_host_command,
  on_host_value, on_host_message, on_response, on_wasm_message,
}

module _ (j : Json) where
  open j use {Value, Text, as_str}

  -- What the host gets for a result of the gauge.
  abbrev pub ack_of : String → Result String Value → WireMsg Value
  ack_of id result = ack (record {
    id = id;
    is_ok = is_ok result;
    error = err_part result;
    response = ok_part result;
    duplicate = none;
  })

  resolved_value-ack :
      (id : String) (v : Value) → resolved_value j id (some v) ≡ serialize j (ack_of id (ok v))
  unfolding serialize
  resolved_value-ack id v = refl

  pub rejected_value-ack : (id e : String) → rejected_value j id e ≡ serialize j (ack_of id (err e))
  unfolding serialize
  rejected_value-ack id e = refl

  -- The relay with the command pending, and once it has handed it on.
  abbrev begun : ℕ → CmdPayload Value → Relay j → Relay j
  begun now c r =
      let request_id = request_id_of now (r.request_seq + 1) in
      record r {
        dedup = mark c.id r.dedup;
        request_seq = r.request_seq + 1;
        timers = HashMap.insert request_id c.id r.timers;
        pending = HashMap.insert request_id c.id r.pending;
      }

  abbrev pub forwarded : ℕ → CmdPayload Value → Text → Relay j → Relay j
  forwarded now c text r = record (begun now c r) { to_gauge = r.to_gauge ++ text ∷ [] }

  bind_comm_bus-bound :
      (binds : Bool) (r : Relay j) → r.is_bound ≡ true → bind_comm_bus j binds r ≡ r
  unfolding bind_comm_bus
  bind_comm_bus-bound binds r bound = ground (arith, bound)

  forward_command-forwarded :
      (binds : Bool) (now : ℕ) (c : CmdPayload Value) (msg : Value) (text : Text) (r : Relay j)
      → r.has_bus ≡ true
      → r.is_bound ≡ true
      → j.to_string (envelope j (request_id_of now (r.request_seq + 1)) msg) ≡ ok text
      → forward_command j binds now c.id msg r ≡ forwarded now c text r
  unfolding forward_command call_gauge
  forward_command-forwarded binds now c msg text r bus bound e =
      let request_id = request_id_of now (r.request_seq + 1) in
      let b : Relay j = begun now c r in
      ap
        (λ (x : Bool).
          if x
          then call_gauge j request_id msg (bind_comm_bus j binds b)
          else fail_request j request_id "COMMBUS_NOT_READY: CommBus not initialized" b)
        bus
      ∙ ap (call_gauge j request_id msg) (bind_comm_bus-bound binds b bound)
      ∙ rw (call_gauge, e) refl

  tag_of_cmd : (c : CmdPayload Value) → (j.get (serialize j (cmd c)) "t" >>= as_str) ≡ some "cmd"
  unfolding tag
  tag_of_cmd c = rw (get_tag j (cmd c), j.as_str-string "cmd") refl

  id_of_cmd : (c : CmdPayload Value) → (j.get (serialize j (cmd c)) "id" >>= as_str) ≡ some c.id
  id_of_cmd c =
      let (found, _, _) = field_cmd j c c.name in
      rw (get-serialize j (cmd c) "id", found, j.as_str-string c.id) refl

  -- A command of the host whose id is new is handed to the gauge in an envelope with a fresh request
  -- id, under which it is pending.
  pub on_host_message-cmd :
      (binds : Bool) (now : ℕ) (c : CmdPayload Value) (raw : Text) (r : Relay j)
      → to_json j (cmd c) ≡ ok raw
      → r.has_bus ≡ true
      → r.is_bound ≡ true
      → has r.dedup c.id ≡ false
      → (text : Text) × Wraps j text (request_id_of now (r.request_seq + 1)) (serialize j (cmd c))
        × (on_host_message j binds now raw r ≡ forwarded now c text r)
  unfolding on_host_message on_host_value on_host_command to_json
  on_host_message-cmd binds now c raw r printed bus bound new =
      let m = serialize j (cmd c) in
      let read = parsed_of_printed j m raw printed in
      let request_id = request_id_of now (r.request_seq + 1) in
      let (text, e, parsed) = j.prints (envelope j request_id m) in
      (
        text,
        parsed_of_printed j (envelope j request_id m) text e,
        rw (read, on_host_message, tag_of_cmd c, on_host_value, id_of_cmd c, on_host_command, new)
            (forward_command-forwarded binds now c m text r bus bound e),
      )

  -- A response to a pending request goes to the host as one ack with the id of its command.
  pub on_wasm_message-response :
      (shown : Value → String) (request_id id : String) (result : Result String Value) (text : Text)
      (r : Relay j)
      → Answers j request_id result text
      → HashMap.get request_id r.pending ≡ some id
      → r.is_open ≡ true
      → (answer : Text) × (from_json j answer ≡ some (normal j (ack_of id result)))
        × (on_wasm_message j shown text r
            ≡ record (settle j request_id r) { to_host = r.to_host ++ answer ∷ [] })
  unfolding on_wasm_message on_response send_value ws_send to_json
  on_wasm_message-response shown request_id id (ok v) text r a found opened =
      let (answer, printed, reads) = from_json-to_json j (ack_of id (ok v)) tt in
      (
        answer,
        reads,
        rw
            (
              a.parsed,
              on_wasm_message,
              a.request,
              j.as_str-string request_id,
              on_response,
              found,
              is_refusal,
              a.success,
              j.as_bool-bool true,
              a.response,
              resolved_value-ack id v,
              send_value,
              printed,
              opened,
            )
            refl,
      )
  on_wasm_message-response shown request_id id (err e) text r a found opened =
      let (answer, printed, reads) = from_json-to_json j (ack_of id (err e)) tt in
      (
        answer,
        reads,
        rw
            (
              a.parsed,
              on_wasm_message,
              a.request,
              j.as_str-string request_id,
              on_response,
              found,
              is_refusal,
              a.success,
              j.as_bool-bool false,
              error_text,
              a.error,
              j.is_null-string e,
              j.as_str-string e,
              rejected_value-ack id e,
              send_value,
              printed,
              opened,
            )
            refl,
      )
