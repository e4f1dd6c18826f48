-- ===== src/Relay/Bridge.antt =====
-- The handlers of `BridgeRelay` in ts/infinity-bridge-relay/src/relay.ts. `JSON.parse` and
-- `JSON.stringify` are those of the JSON parameter; `now` is `Date.now()`, `binds` whether the handle's
-- `on` takes the listener or throws, and `shown` is JavaScript's `String(..)` of a value that is no
-- string. What is written to the console is left out.
use Prim.Native.String
use infinity_wasm_bridge.Prelude.{
  ℕ, ◌+◌, String, Bool, true, false, Option, none, some, [], ◌∷◌, ◌++◌, ok, err, not, if◌then◌else◌,
  ◌==◌, string_eq,
}
use infinity_wasm_bridge.Prelude.Decimal.{show_u64}
use infinity_wasm_bridge.Prelude.HashMap
use infinity_wasm_bridge.Wire.Json.{Json}
use infinity_wasm_bridge.Wire.Encode.{unless_none}
use infinity_wasm_bridge.Wire.Decode.{◌>>=◌}
use infinity_wasm_bridge.Relay.Dedup.{has, mark}
use infinity_wasm_bridge.Relay.State.{Relay}

-- `nextRequestId`, for the next value of the counter. Beyond 2 ^ 53 JavaScript's counter stands still.
abbrev pub request_id_of : ℕ → ℕ → String
request_id_of now seq = String.◌++◌ (show_u64 now) (String.◌++◌ "-" (show_u64 seq))

-- What a promise is rejected with: an `Error` of a message, or a value that is none and has no `message`,
-- such as a string, by the text that `String` makes of it.
pub data Rejection : Type 0 where
  an_error : String → Rejection
  a_value : String → Rejection

-- `(err instanceof Error ? err : new Error(String(err))).message`.
abbrev pub rejection_text : Rejection → String
rejection_text (an_error message) = message
rejection_text (a_value shown) = shown

module _ (j : Json) where
  open j use {
    Value, Text, get, is_null, as_bool, as_str, null, bool, u64, string, object, from_str,
    to_string,
  }

  unfoldable pub ws_send : Text → Relay j → Relay j
  ws_send text r = if r.is_open then record r { to_host = r.to_host ++ text ∷ [] } else r

  -- `wsSend(JSON.stringify(..))`.
  unfoldable pub send_value : Value → Relay j → Relay j
  unfolding ws_send
  send_value v r = elim (to_string v) [ ok text ↦ ws_send text r | err e ↦ r ]

  abbrev pub ready_value : Bool → Value
  ready_value bound = object (
      ("t", string "event")
      ∷ ("name", string "__bridge_ready")
      ∷ ("data", object (("ready", bool bound) ∷ []))
      ∷ [])

  unfoldable pub send_ready : Relay j → Relay j
  unfolding send_value
  send_ready r = send_value (ready_value r.is_bound) r

  unfoldable pub bind_comm_bus : Bool → Relay j → Relay j
  unfolding send_ready
  bind_comm_bus binds r =
      if r.is_bound then r else if binds then send_ready (record r { is_bound = true }) else r

  -- The acks that the relay makes.
  abbrev pub resolved_value : String → Option Value → Value
  resolved_value cmd_id response = object (
      ("t", string "ack")
      ∷ ("id", string cmd_id)
      ∷ ("ok", bool true)
      ∷ unless_none j "response" response)

  abbrev pub rejected_value : String → String → Value
  rejected_value cmd_id error = object (
      ("t", string "ack")
      ∷ ("id", string cmd_id)
      ∷ ("ok", bool false)
      ∷ ("error", string error)
      ∷ [])

  abbrev pub duplicate_value : String → Value
  duplicate_value cmd_id = object (
      ("t", string "ack")
      ∷ ("id", string cmd_id)
      ∷ ("ok", bool true)
      ∷ ("response", null)
      ∷ ("duplicate", bool true)
      ∷ [])

  -- `pending.delete(requestId)` and `clearTimeout`.
  abbrev pub settle : String → Relay j → Relay j
  settle request_id r = record r {
    pending = HashMap.remove request_id r.pending;
    timers = HashMap.remove request_id r.timers;
  }

  -- A pending request is settled with an error; one that is not pending is let be.
  unfoldable pub fail_request : String → String → Relay j → Relay j
  unfolding send_value
  fail_request request_id error r = elim (HashMap.get request_id r.pending) [
    | none ↦ r
    | some cmd_id ↦ send_value (rejected_value cmd_id error) (settle request_id r)
  ]

  abbrev pub envelope : String → Value → Value
  envelope request_id payload =
      object (("requestId", string request_id) ∷ ("payload", payload) ∷ [])

  -- `commBus.call` with the envelope.
  unfoldable pub call_gauge : String → Value → Relay j → Relay j
  call_gauge request_id payload r = elim (to_string (envelope request_id payload)) [
    | ok text ↦ record r { to_gauge = r.to_gauge ++ text ∷ [] }
    | err e ↦ r
  ]

  unfoldable pub forward_command : Bool → ℕ → String → Value → Relay j → Relay j
  unfolding fail_request bind_comm_bus call_gauge
  forward_command binds now cmd_id msg r =
      let request_id = request_id_of now (r.request_seq + 1) in
      let begun : Relay j = record r {
        dedup = mark cmd_id r.dedup;
        request_seq = r.request_seq + 1;
        timers = HashMap.insert request_id cmd_id r.timers;
        pending = HashMap.insert request_id cmd_id r.pending;
      } in
      if r.has_bus
      then call_gauge request_id msg (bind_comm_bus binds begun)
      else fail_request request_id "COMMBUS_NOT_READY: CommBus not initialized" begun

  unfoldable pub on_host_command : Bool → ℕ → Value → Relay j → Relay j
  unfolding forward_command send_value
  on_host_command binds now msg r = elim (get msg "id" >>= as_str) [
    | none ↦ r
    | some cmd_id ↦
        if has r.dedup cmd_id
        then send_value (duplicate_value cmd_id) r
        else forward_command binds now cmd_id msg r
  ]

  unfoldable pub on_host_event : ℕ → Value → Relay j → Relay j
  unfolding call_gauge
  on_host_event now msg r =
      if r.has_bus
      then call_gauge (request_id_of now (r.request_seq + 1)) msg
          (record r { request_seq = r.request_seq + 1 })
      else r

  -- The switch on the tag.
  unfoldable pub on_host_value : Bool → ℕ → Option String → Value → Relay j → Relay j
  unfolding on_host_command on_host_event send_value
  on_host_value binds now none msg r = r
  on_host_value binds now (some t) msg r =
      if t == "ping"
      then send_value (object (("t", string "pong") ∷ ("ts", u64 now) ∷ [])) r
      else if t == "cmd"
      then on_host_command binds now msg r
      else if t == "event"
      then on_host_event now msg r
      else r

  unfoldable pub on_host_message : Bool → ℕ → Text → Relay j → Relay j
  unfolding on_host_value
  on_host_message binds now raw r = elim (from_str raw) [
    | err e ↦ r
    | ok msg ↦ on_host_value binds now (get msg "t" >>= as_str) msg r
  ]

  -- `resp.error ?? "…"` as the message of an `Error`.
  abbrev pub error_text : (Value → String) → Option Value → String
  error_text shown none = "[msfs-bridge] WASM returned error"
  error_text shown (some v) =
      if is_null v
      then "[msfs-bridge] WASM returned error"
      else elim (as_str v) [ some s ↦ s | none ↦ shown v ]

  -- `resp.ok === false`.
  abbrev pub is_refusal : Value → Bool
  is_refusal resp = elim (get resp "ok" >>= as_bool) [ some b ↦ not b | none ↦ false ]

  unfoldable pub on_response : (Value → String) → String → Value → Relay j → Relay j
  unfolding send_value
  on_response shown request_id resp r = elim (HashMap.get request_id r.pending) [
    | none ↦ r
    | some cmd_id ↦
        send_value
          (if is_refusal resp
            then rejected_value cmd_id (error_text shown (get resp "error"))
            else resolved_value cmd_id (get resp "response"))
          (settle request_id r)
  ]

  -- What is no response: an event or an ack goes on to the host as it is.
  unfoldable pub forward_text : Option String → Text → Relay j → Relay j
  unfolding ws_send
  forward_text none raw r = r
  forward_text (some t) raw r =
      if t == "event" then ws_send raw r else if t == "ack" then ws_send raw r else r

  unfoldable pub on_wasm_message : (Value → String) → Text → Relay j → Relay j
  unfolding on_response forward_text
  on_wasm_message shown raw r = elim (from_str raw) [
    | err e ↦ r
    | ok parsed ↦ elim (get parsed "requestId" >>= as_str) [
      | some request_id ↦ on_response shown request_id parsed r
      | none ↦ forward_text (get parsed "t" >>= as_str) raw r
    ]
  ]

  -- The timer of a request, if it still runs.
  unfoldable pub request_timeout : String → Relay j → Relay j
  unfolding send_value
  request_timeout request_id r = elim (HashMap.get request_id r.timers) [
    | none ↦ r
    | some cmd_id ↦
        send_value
          (rejected_value cmd_id (
            if r.is_bound
            then "WASM_TIMEOUT: no response from WASM gauge"
            else "COMMBUS_NOT_BOUND: response listener never attached — no WASM module is reachable"))
          (settle request_id r)
  ]

  -- The promise of `commBus.call` is rejected.
  abbrev pub call_failed : String → Rejection → Relay j → Relay j
  call_failed request_id why r = fail_request request_id (rejection_text why) r
