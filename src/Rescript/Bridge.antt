-- ===== src/Rescript/Bridge.antt =====
-- The handlers of rescript/infinity-bridge-relay/src/BridgeRelay.res and the parsers of its Wire.res, over
-- the state of Relay. Of Relay are the parts that are the same in ReScript: the ring of ids, the bind
-- of the listener, the envelope and its call, and the texts sent. The type of a message says more than
-- its parser checks: a command whose id is no string goes on as if it were one, which is outside of
-- the model, `none`.
use infinity_wasm_bridge.Prelude.{
  ℕ, ◌+◌, ◌^◌, String, Bool, false, not, ltb, ◌||◌, Option, none, some, List, [], ◌∷◌, ok, err,
  unwrap_or, ◌==◌, string_eq, if◌then◌else◌,
}
use infinity_wasm_bridge.Prelude.HashMap
use infinity_wasm_bridge.Wire.Json.{Json}
use infinity_wasm_bridge.Wire.Decode.{◌>>=◌}
use infinity_wasm_bridge.Relay.Dedup.{has, mark}
use infinity_wasm_bridge.Relay.State.{Relay}
use infinity_wasm_bridge.Relay.Bridge.{
  Rejection, an_error, a_value, ws_send, send_value, bind_comm_bus, call_gauge, request_id_of,
  duplicate_value, resolved_value, rejected_value, settle,
}

-- The tags of `wireMsg`.
abbrev pub is_known_tag : String → Bool
is_known_tag t =
    t == "hello" || (t == "ping" || (t == "pong" || (t == "cmd" || (t == "ack" || t == "event"))))

-- The counter of requests, an `int` of 32 bits with a sign. The number after the greatest is negative, which
-- is outside of the model, `none`.
unfoldable pub next_seq : ℕ → Option ℕ
next_seq n = if ltb (n + 1) (2 ^ 31) then some (n + 1) else none

-- The text of a rejection. What is no `Error` has no message to give.
abbrev pub rejection_message : Rejection → String
rejection_message (an_error message) = message
rejection_message (a_value shown) = "unknown"

module _ (j : Json) where
  open j use {Value, Text, get, as_bool, as_str, null, bool, u64, string, object, from_str}

  -- A message with its tag.
  unfoldable pub parse_wire_msg : Text → Option (String × Value)
  parse_wire_msg raw = elim (from_str raw) [
    | err e ↦ none
    | ok x ↦ elim (get x "t" >>= as_str) [
      | none ↦ none
      | some t ↦ if is_known_tag t then some (t, x) else none
    ]
  ]

  -- A response with its request and whether it is one of success.
  unfoldable pub parse_comm_bus_response : Text → Option (String × Bool × Value)
  parse_comm_bus_response raw = elim (from_str raw) [
    | err e ↦ none
    | ok x ↦ do
      request_id ← get x "requestId" >>= as_str
      is_ok ← get x "ok" >>= as_bool
      some (request_id, is_ok, x)
  ]

  -- A pending request is rejected with this text.
  unfoldable pub reject_request : String → String → Relay j → Relay j
  reject_request request_id message r = elim (HashMap.get request_id r.pending) [
    | none ↦ r
    | some cmd_id ↦ send_value j (rejected_value j cmd_id message) (settle j request_id r)
  ]

  -- What follows the ring's test, with the next number of a request.
  unfoldable pub forward_command : Bool → ℕ → String → Value → ℕ → Relay j → Relay j
  unfolding reject_request
  forward_command binds now cmd_id cmd seq r =
      let request_id = request_id_of now seq in
      let begun : Relay j = record r {
        dedup = mark cmd_id r.dedup;
        request_seq = seq;
        timers = HashMap.insert request_id cmd_id r.timers;
        pending = HashMap.insert request_id cmd_id r.pending;
      } in
      if not r.has_bus
      then reject_request request_id "COMMBUS_NOT_READY: CommBus not initialized" begun
      else call_gauge j request_id cmd (bind_comm_bus j binds begun)

  unfoldable pub on_host_command : Bool → ℕ → Value → Relay j → Option (Relay j)
  unfolding forward_command next_seq
  on_host_command binds now cmd r = elim (get cmd "id" >>= as_str) [
    | none ↦ none
    | some cmd_id ↦
        if has r.dedup cmd_id
        then some (send_value j (duplicate_value j cmd_id) r)
        else next_seq r.request_seq >>= (λ seq. some (forward_command binds now cmd_id cmd seq r))
  ]

  unfoldable pub on_host_event : ℕ → Value → Relay j → Option (Relay j)
  unfolding next_seq
  on_host_event now event r =
      if not r.has_bus
      then some r
      else next_seq r.request_seq >>= (λ seq.
        some (call_gauge j (request_id_of now seq) event (record r { request_seq = seq })))

  -- The switch on the message.
  unfoldable pub on_host_wire_msg : Bool → ℕ → Option (String × Value) → Relay j → Option (Relay j)
  unfolding on_host_command on_host_event
  on_host_wire_msg binds now none r = some r
  on_host_wire_msg binds now (some (t, msg)) r =
      if t == "ping"
      then some (send_value j (object (("t", string "pong") ∷ ("ts", u64 now) ∷ [])) r)
      else if t == "cmd"
      then on_host_command binds now msg r
      else if t == "event"
      then on_host_event now msg r
      else some r

  unfoldable pub on_host_message : Bool → ℕ → Text → Relay j → Option (Relay j)
  unfolding on_host_wire_msg
  on_host_message binds now raw r = on_host_wire_msg binds now (parse_wire_msg raw) r

  -- The ack of an error, which is sent as it came.
  abbrev pub error_value : String → Value → Value
  error_value cmd_id error =
      object
        (("t", string "ack") ∷ ("id", string cmd_id) ∷ ("ok", bool false) ∷ ("error", error) ∷ [])

  unfoldable pub on_response : String → Bool → Value → Relay j → Relay j
  on_response request_id is_ok resp r = elim (HashMap.get request_id r.pending) [
    | none ↦ r
    | some cmd_id ↦
        send_value j
          (if is_ok
            then resolved_value j cmd_id (some (unwrap_or (get resp "response") null))
            else error_value cmd_id
                (unwrap_or (get resp "error") (string "[msfs-bridge] WASM returned error")))
          (settle j request_id r)
  ]

  -- What is no response: an event or an ack goes on to the host as it is.
  abbrev pub forward_wire_msg : Option (String × Value) → Text → Relay j → Relay j
  forward_wire_msg none raw r = r
  forward_wire_msg (some (t, msg)) raw r = if t == "event" || t == "ack" then ws_send j raw r else r

  unfoldable pub on_wasm_message : Text → Relay j → Relay j
  unfolding on_response
  on_wasm_message raw r = elim (parse_comm_bus_response raw) [
    | some (request_id, is_ok, resp) ↦ on_response request_id is_ok resp r
    | none ↦ forward_wire_msg (parse_wire_msg raw) raw r
  ]

  -- The timer of a request, if it still runs.
  unfoldable pub request_timeout : String → Relay j → Relay j
  request_timeout request_id r = elim (HashMap.get request_id r.timers) [
    | none ↦ r
    | some cmd_id ↦
        send_value j
          (rejected_value j cmd_id (
            if not r.is_bound
            then "COMMBUS_NOT_BOUND: response listener never attached — no WASM module is reachable"
            else "WASM_TIMEOUT: no response from WASM gauge"))
          (settle j request_id r)
  ]

  -- The promise of the call is rejected.
  unfoldable pub call_failed : String → Rejection → Relay j → Relay j
  unfolding reject_request
  call_failed request_id why r = reject_request request_id (rejection_message why) r

  -- What a relay hears while it runs: a text of the host or of the gauge, a timer, a failed call.
  pub data Traffic : Type 0 where
    from_host : Bool → ℕ → Text → Traffic
    from_gauge : Text → Traffic
    times_out : String → Traffic
    fails : String → Rejection → Traffic

  unfoldable pub step : Relay j → Traffic → Option (Relay j)
  unfolding on_host_message on_wasm_message request_timeout call_failed
  step r (from_host binds now raw) = on_host_message binds now raw r
  step r (from_gauge raw) = some (on_wasm_message raw r)
  step r (times_out request_id) = some (request_timeout request_id r)
  step r (fails request_id why) = some (call_failed request_id why r)

  unfoldable pub run : Relay j → List Traffic → Option (Relay j)
  unfolding step
  run r [] = some r
  run r (t ∷ traffic) = step r t >>= (λ r'. run r' traffic)
