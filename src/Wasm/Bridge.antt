-- ===== src/Wasm/Bridge.antt =====
-- `Bridge` of crates/infinity-bridge-wasm/src/bridge.rs. What is written to stderr is left out.
use Prim.Native.String.{◌++◌}
use mathlib.Core.Option
use infinity_wasm_bridge.Prelude.{
  String, Bool, Option, none, some, ◌∷◌, Result, ok, err, is_ok, ok_part, err_part, map_err,
}
use infinity_wasm_bridge.Prelude.{◌++◌ as append}
use infinity_wasm_bridge.Wire.Json.{Json}
use infinity_wasm_bridge.Wire.Error.{BridgeError, transport_error, from_json_error}
use infinity_wasm_bridge.Wire.Msg.{WireMsg, cmd, event, new_event}
use infinity_wasm_bridge.Wire.Encode.{to_json, unless_none}
use infinity_wasm_bridge.Wire.Decode.{◌>>=◌, required, from_json}
use infinity_wasm_bridge.Wasm.Handler.{BridgeHandler}
use infinity_wasm_bridge.Wasm.Bus.{CommBus}

pub record BridgeConfig : Type 0 where
  pub call_event : String
  pub response_event : String

abbrev pub new_bridge_config : String → String → BridgeConfig
new_bridge_config call_event response_event = record {
  call_event = call_event;
  response_event = response_event;
}

pub record CommBusEnvelope (V : Type 0) : Type 0 where
  pub request_id : String
  pub payload : V

pub record CommBusResponse (V : Type 0) : Type 0 where
  pub request_id : String
  pub is_ok : Bool
  pub response : Option V
  pub error : Option String

-- `Bridge`, with the `response_event` of its `BridgeShared`.
pub record Bridge (Subscription : Type 0) : Type 0 where
  pub subscription : Subscription
  pub response_event : String

module _ (j : Json) where
  open j use {Value, Text, get, as_str, from_str, to_string, string, bool, object}

  -- `serde_json::from_str::<CommBusEnvelope>`.
  unfoldable pub read_envelope : Value → Option (CommBusEnvelope Value)
  read_envelope x = do
    request_id ← required j as_str (get x "requestId")
    payload ← get x "payload"
    some (record { request_id = request_id; payload = payload })

  unfoldable pub parse_envelope : Text → Option (CommBusEnvelope Value)
  unfolding read_envelope
  parse_envelope raw = elim (from_str raw) [ ok x ↦ read_envelope x | err e ↦ none ]

  -- `Serialize` of `CommBusResponse`.
  unfoldable pub response_value : CommBusResponse Value → Value
  response_value r = object (
      ("requestId", string r.request_id)
      ∷ ("ok", bool r.is_ok)
      ∷ append (unless_none j "response" r.response)
          (unless_none j "error" (Option.map string r.error)))

  abbrev pub response_to : String → Result String Value → CommBusResponse Value
  response_to request_id result = record {
    request_id = request_id;
    is_ok = is_ok result;
    response = ok_part result;
    error = err_part result;
  }

  module _ (b : CommBus Text) where
    open b use {World, Subscription, subscribe, call}

    unfoldable pub new_bridge :
        BridgeConfig → World → Result BridgeError (Bridge Subscription) × World
    new_bridge config w =
        let (result, w') = subscribe config.call_event w in
        (
          elim result [
            | ok sub ↦ ok (record { subscription = sub; response_event = config.response_event })
            | err e ↦ err (transport_error ("CommBus subscribe failed: " ++ e))
          ],
          w',
        )

    unfoldable pub send_response : String → String → Result String Value → World → World
    send_response response_event request_id result w =
        elim (to_string (response_value (response_to request_id result))) [
          | ok text ↦ (call response_event text w).1
          | err e ↦ w
        ]

    unfoldable pub emit :
        Bridge Subscription → String → Value → World → Result BridgeError (Unit {0}) × World
    emit bridge name payload w = elim (to_json j (event (new_event name payload))) [
      | err e ↦ (err (from_json_error e), w)
      | ok text ↦
          let (sent, w') = call bridge.response_event text w in
          (map_err (λ e. transport_error ("CommBus send failed: " ++ e)) sent, w')
    ]

    module _ {S : Type 0} (handler : BridgeHandler Value S) where
      -- Run a command and answer it.
      abbrev pub answer : String → String → Option String → Value → S → World → S × World
      answer response_event request_id name payload s w =
          let (result, s') = handler.on_command name payload s in
          (s', send_response response_event request_id result w)

      -- The match on the parsed payload.
      unfoldable pub handle :
          String → CommBusEnvelope Value → Option (WireMsg Value) → S → World → S × World
      handle response_event env (some (cmd c)) s w =
          answer response_event env.request_id c.name c.payload s w
      handle response_event env (some (event e)) s w = (handler.on_event e.name e.payload s, w)
      handle response_event env _ s w = answer response_event env.request_id none env.payload s w

      unfoldable pub dispatch : String → Text → S → World → S × World
      unfolding handle
      dispatch response_event raw s w = elim (parse_envelope raw) [
        | none ↦ (s, w)
        | some env ↦ elim (to_string env.payload) [
          | err e ↦ (
            s,
            send_response response_event env.request_id (err "internal: re-serialize failed") w,
          )
          | ok payload_str ↦ handle response_event env (from_json j payload_str) s w
        ]
      ]
