-- ===== src/Relay/Expiry.antt =====
-- A command that the gauge never answers, in ts/infinity-bridge-relay/src/relay.ts.
use infinity_wasm_bridge.Prelude.{
  String, ◌≡◌, refl, Bool, true, none, some, List, [], ◌∷◌, ◌++◌, ◌∙◌, ap, err, string_eq,
  if◌then◌else◌,
}
use infinity_wasm_bridge.Prelude.HashMap
use infinity_wasm_bridge.Wire.Json.{Json}
use infinity_wasm_bridge.Wire.Encode.{to_json}
use infinity_wasm_bridge.Wire.Decode.{from_json}
use infinity_wasm_bridge.Wire.RoundTrip.{from_json-to_json}
use infinity_wasm_bridge.Relay.State.{Relay}
use infinity_wasm_bridge.Relay.Bridge.{ws_send, send_value, on_response, request_timeout}
use infinity_wasm_bridge.Relay.Life.{RelayConfig, new_relay, Op, run}
use infinity_wasm_bridge.Relay.Forwarded.{ack_of, rejected_value-ack}
use infinity_wasm_bridge.Relay.Timers.{run-IsTimed}

-- Why a request expired.
abbrev pub expiry_text : Bool → String
expiry_text is_bound =
    if is_bound
    then "WASM_TIMEOUT: no response from WASM gauge"
    else "COMMBUS_NOT_BOUND: response listener never attached — no WASM module is reachable"

module _ (j : Json) where
  open j use {Value, Text}

  on_response-absent :
      (shown : Value → String) (k : String) (v : Value) (r : Relay j)
      → HashMap.get k r.pending ≡ none
      → on_response j shown k v r ≡ r
  unfolding on_response
  on_response-absent shown k v r absent = rw (absent, on_response) refl

  -- Whatever has happened to a new relay, the timer of each pending request runs. When it goes off while
  -- the socket is open, the relay sends one negative ack of the request's command, whose error says
  -- whether the CommBus listener is bound; the request is no longer pending, and a response that
  -- comes later changes nothing.
  pub on_response-request_timeout :
      (config : RelayConfig Value) (ops : List (Op j)) (request_id id : String)
      (shown : Value → String) (late : Value)
      → let r = run j (new_relay j config) ops in
        let r' = request_timeout j request_id r in
        HashMap.get request_id r.pending ≡ some id
        → r.is_open ≡ true
        → (reply : Text) × (from_json j reply ≡ some (ack_of j id (err (expiry_text r.is_bound))))
          × (r'.to_host ≡ r.to_host ++ reply ∷ [])
          × (HashMap.get request_id r'.pending ≡ none)
          × (on_response j shown request_id late r' ≡ r')
  unfolding request_timeout send_value ws_send to_json new_relay
  on_response-request_timeout config ops request_id id shown late found opened =
      let r = run j (new_relay j config) ops in
      let runs =
        ap (HashMap.get request_id) (run-IsTimed j (new_relay j config) ops refl) ∙ found in
      let e = expiry_text r.is_bound in
      let (reply, printed, reads) = from_json-to_json j (ack_of j id (err e)) tt in
      let itself = (string_eq.equal_iff request_id request_id).1 refl in
      let gone = HashMap.get-remove request_id request_id r.pending ∙ rw itself refl in
      let forgotten : HashMap.get request_id (request_timeout j request_id r).pending ≡ none =
        rw (runs, request_timeout, rejected_value-ack j id e, send_value, printed, opened) gone in
      (
        reply,
        reads,
        rw (runs, request_timeout, rejected_value-ack j id e, send_value, printed, opened) refl,
        forgotten,
        on_response-absent shown request_id late (request_timeout j request_id r) forgotten,
      )
