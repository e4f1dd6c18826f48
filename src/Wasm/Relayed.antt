-- ===== src/Wasm/Relayed.antt =====
-- The gauge's answers to the host's messages, as the relay wraps them, and its own events.
use Prim.Native.String
use infinity_wasm_bridge.Prelude.{String, ◌≡◌, refl, none, some, [], ◌∷◌, ok, map_err}
use infinity_wasm_bridge.Wire.Json.{Json, field, distinct_keys}
use infinity_wasm_bridge.Wire.Error.{transport_error}
use infinity_wasm_bridge.Wire.Msg.{WireMsg, cmd, event, new_event}
use infinity_wasm_bridge.Wire.Encode.{serialize}
use infinity_wasm_bridge.Wire.Decode.{from_json}
use infinity_wasm_bridge.Wire.RoundTrip.{normal, HasWords, from_json-to_json, deserialize-serialize}
use infinity_wasm_bridge.Wasm.Handler.{BridgeHandler}
use infinity_wasm_bridge.Wasm.Bus.{CommBus}
use infinity_wasm_bridge.Wasm.Bridge.{
  CommBusEnvelope, Bridge, parse_envelope, emit, handle, dispatch,
}
use infinity_wasm_bridge.Wasm.Dispatch.{Ran, answer-Ran, dispatch-handle}

module _ (j : Json) where
  open j use {Value, Text, get, from_str, string, object}

  -- The text holds `{requestId, payload}`, as the relay makes it.
  abbrev pub Wraps : Text → String → Value → Type 0
  Wraps raw request_id payload =
      from_str raw ≡ ok (object (("requestId", string request_id) ∷ ("payload", payload) ∷ []))

  parse_envelope-Wraps :
      (raw : Text) (request_id : String) (payload : Value)
      → Wraps raw request_id payload
      → parse_envelope j raw ≡ some (record { request_id = request_id; payload = payload })
  unfolding parse_envelope field distinct_keys
  parse_envelope-Wraps raw id payload e = rw (
    e,
    parse_envelope,
    j.get-object _ "requestId" refl,
    j.get-object _ "payload" refl,
    j.as_str-string id,
  )

  module _ (b : CommBus Text) where
    open b use {World, Subscription, call}

    module _ {S : Type 0} (handler : BridgeHandler Value S) (response_event request_id : String)
        (s : S) (w : World) where
      -- What each message is to do.
      abbrev pub Relayed : WireMsg Value → S × World → Type 0
      Relayed (cmd c) out = Ran j b handler response_event s w request_id c.name c.payload out
      Relayed (event e) out = out ≡ (handler.on_event e.name e.payload s, w)
      Relayed m out = Ran j b handler response_event s w request_id none (serialize j m) out

      handle-Relayed :
          (m : WireMsg Value)
          → Relayed m (
              handle j b handler response_event
                (record { request_id = request_id; payload = serialize j m })
                (some (normal j m))
                s
                w)
      unfolding handle
      handle-Relayed (cmd c) = answer-Ran j b handler response_event s w request_id c.name c.payload
      handle-Relayed (event e) = refl
      handle-Relayed m = answer-Ran j b handler response_event s w request_id none (serialize j m)

      -- A command of the host is run under its name and payload and answered once, under the
      -- relay's request id; an event is heard and not answered; any other message is run as an
      -- unnamed command whose payload is the whole message.
      pub dispatch-Relayed :
          (m : WireMsg Value) (raw : Text)
          → HasWords j m
          → Wraps raw request_id (serialize j m)
          → Relayed m (dispatch j b handler response_event raw s w)
      dispatch-Relayed m raw words e =
          let env : CommBusEnvelope Value = record {
            request_id = request_id;
            payload = serialize j m;
          } in
          rw
            (
              dispatch-handle j b handler response_event s w raw env
                  (parse_envelope-Wraps raw request_id _ e),
              deserialize-serialize j m words,
            )
            (handle-Relayed m)

    -- An event of the gauge is handed to the bus once, on the response event, as a text that reads
    -- as that event; `emit` succeeds exactly when the bus takes it, and fails with a transport
    -- error otherwise.
    pub emit-called :
        (bridge : Bridge Subscription) (name : String) (payload : Value) (w : World)
        → (text : Text) × (from_json j text ≡ some (event (new_event name payload)))
          × (emit j b bridge name payload w ≡ (
            map_err
                (λ e. transport_error (String.◌++◌ "CommBus send failed: " e))
                (call bridge.response_event text w).0,
            (call bridge.response_event text w).1,
          ))
    unfolding emit
    emit-called bridge name payload w =
        let (text, printed, parsed) = from_json-to_json j (event (new_event name payload)) tt in
        (text, parsed, rw (printed, emit))
