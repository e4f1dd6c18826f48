-- ===== src/Wasm/Dispatch.antt =====
-- What the gauge answers to a text from the bus.
use mathlib.Core.Option
use infinity_wasm_bridge.Prelude.{
  String, ◌≡◌, refl, inl, inr, Bool, true, Option, none, some, ◌∷◌, ◌++◌, Result, ok, is_ok,
  ok_part, err_part, Option-cases, ◌∙◌,
}
use infinity_wasm_bridge.Wire.Json.{Json, field, distinct_keys, parsed_of_printed}
use infinity_wasm_bridge.Wire.Msg.{WireMsg, CmdPayload, EventPayload, cmd, event}
use infinity_wasm_bridge.Wire.Encode.{unless_none}
use infinity_wasm_bridge.Wire.Decode.{from_json, deserialize}
use infinity_wasm_bridge.Wasm.Handler.{BridgeHandler}
use infinity_wasm_bridge.Wasm.Bus.{CommBus}
use infinity_wasm_bridge.Wasm.Bridge.{
  CommBusEnvelope, parse_envelope, response_value, response_to, send_response, answer, handle,
  dispatch,
}

module _ (j : Json) where
  open j use {Value, Text, get, from_str, to_string, string, bool, object}

  response_fields :
      (id : String) (ok? : Bool) (response error : Option Value)
      → let fs =
          ("requestId", string id)
          ∷ ("ok", bool ok?)
          ∷ (unless_none j "response" response ++ unless_none j "error" error) in
        (distinct_keys fs ≡ true) × (field fs "response" ≡ response) × (field fs "error" ≡ error)
  unfolding field distinct_keys
  response_fields id ok? none none = (refl, refl, refl)
  response_fields id ok? none (some e) = (refl, refl, refl)
  response_fields id ok? (some r) none = (refl, refl, refl)
  response_fields id ok? (some r) (some e) = (refl, refl, refl)

  -- What a reader of the text of a response finds in it.
  pub record Answers (request_id : String) (result : Result String Value) (text : Text)
      : Type 0 where
    pub body : Value
    pub parsed : from_str text ≡ ok body
    pub request : get body "requestId" ≡ some (string request_id)
    pub success : get body "ok" ≡ some (bool (is_ok result))
    pub response : get body "response" ≡ ok_part result
    pub error : get body "error" ≡ Option.map string (err_part result)

  response_value-Answers :
      (request_id : String) (result : Result String Value) (text : Text)
      → to_string (response_value j (response_to j request_id result)) ≡ ok text
      → Answers request_id result text
  unfolding response_value field
  response_value-Answers id result text e =
      let r = response_to j id result in
      let (distinct, found, wrong) =
        response_fields id (is_ok result) r.response (Option.map string r.error) in
      record {
        body = response_value j r;
        parsed = parsed_of_printed j _ text e;
        request = j.get-object _ "requestId" distinct;
        success = j.get-object _ "ok" distinct;
        response = j.get-object _ "response" distinct ∙ found;
        error = j.get-object _ "error" distinct ∙ wrong;
      }

  module _ (b : CommBus Text) where
    open b use {World, Subscription, call}

    -- One call of the bus was made on the way from `w` to `w'`: the response to a request.
    pub record Replied (response_event request_id : String) (result : Result String Value)
        (w w' : World) : Type 0 where
      pub text : Text
      pub answers : Answers request_id result text
      pub called : w' ≡ (call response_event text w).1

    send_response-Replied :
        (response_event request_id : String) (result : Result String Value) (w : World)
        → Replied response_event request_id result w
            (send_response j b response_event request_id result w)
    unfolding send_response
    send_response-Replied response_event id result w =
        let (text, printed, _) = j.prints (response_value j (response_to j id result)) in
        record {
          text = text;
          answers = response_value-Answers id result text printed;
          called = rw (printed, send_response);
        }

    -- Neither a command nor an event.
    abbrev pub IsOther : Option (WireMsg Value) → Type 0
    IsOther (some (cmd c)) = ⊥
    IsOther (some (event e)) = ⊥
    IsOther _ = Unit

    module _ {S : Type 0} (handler : BridgeHandler Value S) (response_event : String) (s : S)
        (w : World) where
      -- The command was run, and its result sent back under the request's id.
      pub record Ran (request_id : String) (name : Option String) (payload : Value)
          (out : S × World) : Type 0 where
        pub state : out.0 ≡ (handler.on_command name payload s).1
        pub reply : Replied response_event request_id (handler.on_command name payload s).0 w out.1

      -- What a text from the bus may do to the gauge's state and to the bus.
      pub data Reaction (raw : Text) (out : S × World) : Type 0 where
        ignored : parse_envelope j raw ≡ none → out ≡ (s, w) → Reaction raw out
        heard :
            (env : CommBusEnvelope Value) (e : EventPayload Value)
            → parse_envelope j raw ≡ some env
            → deserialize j env.payload ≡ some (event e)
            → out ≡ (handler.on_event e.name e.payload s, w)
            → Reaction raw out
        commanded :
            (env : CommBusEnvelope Value) (c : CmdPayload Value)
            → parse_envelope j raw ≡ some env
            → deserialize j env.payload ≡ some (cmd c)
            → Ran env.request_id c.name c.payload out
            → Reaction raw out
        unnamed :
            (env : CommBusEnvelope Value)
            → parse_envelope j raw ≡ some env
            → IsOther (deserialize j env.payload)
            → Ran env.request_id none env.payload out
            → Reaction raw out

      pub answer-Ran :
          (request_id : String) (name : Option String) (payload : Value)
          → Ran request_id name payload
              (answer j b handler response_event request_id name payload s w)
      answer-Ran request_id name payload = record {
        state = refl;
        reply = send_response-Replied response_event request_id _ w;
      }

      handle-Reaction :
          (raw : Text) (env : CommBusEnvelope Value) (m : Option (WireMsg Value))
          → parse_envelope j raw ≡ some env
          → deserialize j env.payload ≡ m
          → Reaction raw (handle j b handler response_event env m s w)
      unfolding handle
      handle-Reaction raw env (some (cmd c)) p d = commanded env c p d (answer-Ran _ _ _)
      handle-Reaction raw env (some (event e)) p d = heard env e p d refl
      handle-Reaction raw env m p d = unnamed env p (rw d tt) (answer-Ran _ _ _)

      pub dispatch-handle :
          (raw : Text) (env : CommBusEnvelope Value)
          → parse_envelope j raw ≡ some env
          → dispatch j b handler response_event raw s w
            ≡ handle j b handler response_event env (deserialize j env.payload) s w
      unfolding dispatch from_json
      dispatch-handle raw env p =
          let (text, printed, parsed) = j.prints env.payload in
          rw (p, dispatch, printed, parsed, from_json)

      -- A text that is no envelope changes nothing. An event runs the event handler and is not
      -- answered. Anything else runs the command handler once and makes exactly one call of the
      -- bus, on the response event: a response that carries the request's id and the result. A
      -- payload that is neither a command nor an event is an unnamed command as a whole.
      pub dispatch-Reaction :
          (raw : Text) → Reaction raw (dispatch j b handler response_event raw s w)
      unfolding dispatch
      dispatch-Reaction raw = elim (Option-cases (parse_envelope j raw)) [
        | inl e ↦ ignored e (rw (e, dispatch))
        | inr (env, e) ↦
            rw (dispatch-handle raw env e)
              (handle-Reaction raw env (deserialize j env.payload) e refl)
      ]
