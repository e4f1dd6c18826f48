-- ===== src/Gauge/Session.antt =====
-- A command of the host that the fake gauge answers: `command` of crates/infinity-bridge-host/src/hub.rs
-- and the handler of examples/host-app/src/fake_gauge.rs together.
use Prim.Native.String
use infinity_wasm_bridge.Prelude.{
  ℕ, ◌<◌, ◌^◌, String, ◌≡◌, refl, Option, none, some, List, [], ◌∷◌, ◌++◌, ◌∙◌, ap, arith,
  if◌then◌else◌, string_eq, ◌==◌, Bool-cases, inl, inr, unwrap_or, Result, ok, err, length, All,
}
use infinity_wasm_bridge.Wire.Json.{Json}
use infinity_wasm_bridge.Wire.Error.{BridgeError, timeout_error, application_error}
use infinity_wasm_bridge.Wire.Msg.{WireMsg, AckPayload, cmd, ack, ok_ack, err_ack}
use infinity_wasm_bridge.Wire.Decode.{◌>>=◌, from_json}
use infinity_wasm_bridge.Wire.RoundTrip.{drop_null, from_json-to_json}
use infinity_wasm_bridge.Host.Runtime.{Runtime}
use infinity_wasm_bridge.Host.Hub.{Hub, is_ready}
use infinity_wasm_bridge.Host.Command.{make_cmd, begin}
use infinity_wasm_bridge.Host.Steps.{Op, touches, acknowledges, step, run}
use infinity_wasm_bridge.Host.Server.{handle_message, handle_text}
use infinity_wasm_bridge.Host.Slots.{HasSlots}
use infinity_wasm_bridge.Host.Call.{command}
use infinity_wasm_bridge.Host.Returned.{IsForeign, first_ack, immediate, returned, command-returned}
use infinity_wasm_bridge.Gauge.Fake.{handle_command, sent, reply, mock_equipment_entries}

module _ (j : Json) where
  open j use {Value, Text, get, as_u64, u64, array, object, null, is_null}

  pub unwrap_or-drop_null : (x : Value) → unwrap_or (drop_null j (some x)) null ≡ x
  unwrap_or-drop_null x = ground (arith, j.eq-null_of_is_null x)

  module _ (r : Runtime j) where
    -- What the caller gets for a name and a payload.
    abbrev pub gauge_result : ℕ → Option String → Value → Result BridgeError Value
    gauge_result timeout none payload = ok payload
    gauge_result timeout (some name) payload =
        if name == "equip_query"
        then ok (object (("entries", array (mock_equipment_entries j)) ∷ []))
        else if name == "equip_cmd"
        then ok (
            object (
              ("entries", array (mock_equipment_entries j))
              ∷ ("toggled", u64 (unwrap_or (get payload "equipIdx" >>= as_u64) 0))
              ∷ []))
        else if name == "slow_command"
        then err (timeout_error (String.◌++◌ "no ack received within " (r.show_duration timeout)))
        else err (application_error (String.◌++◌ "UNKNOWN_COMMAND: " name))

    -- What the reader of the connection does for texts that are acks.
    abbrev pub ack_ops : Option (WireMsg Value) → List (Op j r)
    ack_ops (some (ack a)) = acknowledges a ∷ []
    ack_ops m = []

    abbrev pub heard_ops : ℕ → ℕ → List Text → List (Op j r)
    heard_ops client_id now [] = []
    heard_ops client_id now (text ∷ texts) =
        touches client_id now ∷ (ack_ops (from_json j text) ++ heard_ops client_id now texts)

    module _ (client_id now : ℕ) (id : String) where
      first_ack-some :
          (a : AckPayload Value)
          → a.id ≡ id
          → first_ack j r id (heard_ops client_id now (sent j (some (ack a))))
            ≡ some (record a { response = drop_null j a.response })
      first_ack-some a mine =
          let (answer, printed, parsed) = from_json-to_json j (ack a) tt in
          rw (sent, printed, parsed, (string_eq.equal_iff a.id id).1 mine)

      ack_ops-IsForeign :
          (m : Option (WireMsg Value)) (ops : List (Op j r))
          → All (IsForeign j r id) ops
          → All (IsForeign j r id) (ack_ops m ++ ops)
      ack_ops-IsForeign (some (ack a)) ops foreign = (tt, foreign)
      ack_ops-IsForeign m ops foreign = foreign

      pub heard_ops-IsForeign :
          (texts : List Text) → All (IsForeign j r id) (heard_ops client_id now texts)
      heard_ops-IsForeign [] = tt
      heard_ops-IsForeign (text ∷ texts) = (
        tt,
        ack_ops-IsForeign (from_json j text) (heard_ops client_id now texts)
            (heard_ops-IsForeign texts),
      )

      -- The steps are those of the reader.
      handle_text-heard_ops :
          (text : Text) (a : AckPayload Value) (h : Hub j r)
          → from_json j text ≡ some (ack a)
          → handle_text j r client_id now text h ≡ run j r h (heard_ops client_id now (text ∷ []))
      unfolding handle_text handle_message run step
      handle_text-heard_ops text a h parsed = rw (parsed, handle_text)

      abbrev pub answers : Option String → Value → List (Op j r)
      answers name payload = heard_ops client_id now (reply j (cmd (make_cmd j r id name payload)))

      -- What the answers make of a command.
      returned-answers :
          (timeout : ℕ) (name : Option String) (payload : Value)
          → returned j r timeout none (first_ack j r id (answers name payload))
            ≡ gauge_result timeout name payload
      unfolding reply handle_command
      returned-answers timeout none payload =
          rw (first_ack-some (ok_ack id payload) refl) (ap ok (unwrap_or-drop_null payload))
      returned-answers timeout (some name) payload = elim (Bool-cases (name == "equip_query")) [
        | inl query ↦
            let v : Value = object (("entries", array (mock_equipment_entries j)) ∷ []) in
            rw (handle_command, query, first_ack-some (ok_ack id v) refl)
              (ap ok (unwrap_or-drop_null v))
        | inr no_query ↦ elim (Bool-cases (name == "equip_cmd")) [
          | inl toggle ↦
              let v : Value = object (
                ("entries", array (mock_equipment_entries j))
                ∷ ("toggled", u64 (unwrap_or (get payload "equipIdx" >>= as_u64) 0))
                ∷ []) in
              rw (handle_command, no_query, toggle, first_ack-some (ok_ack id v) refl)
                (ap ok (unwrap_or-drop_null v))
          | inr no_toggle ↦ elim (Bool-cases (name == "slow_command")) [
            | inl slow ↦ rw (handle_command, no_query, no_toggle, slow)
            | inr unknown ↦
                let e = String.◌++◌ "UNKNOWN_COMMAND: " name in
                rw
                  (handle_command, no_query, no_toggle, unknown, first_ack-some (err_ack id e) refl)
          ]
        ]
      ]

      -- A command that is delivered to the fake gauge and answered by it: a known name, or none, gives
      -- the gauge's value, `slow_command` a timeout, and any other name an application error. The
      -- host has fewer than 2 ^ 64 clients, one of which takes the command, and its pending commands
      -- wait on channels of their own.
      pub command-gauge_result :
          (timeout : ℕ) (name : Option String) (payload : Value) (h : Hub j r)
          → HasSlots j r h
          → length h.clients < 2 ^ 64
          → immediate j r h ≡ none
          → (command j r id name payload timeout [] (answers name payload) h).0
            ≡ gauge_result timeout name payload
      unfolding begin run is_ready
      command-gauge_result timeout name payload h v few taken =
          let foreign = heard_ops-IsForeign (reply j (cmd (make_cmd j r id name payload))) in
          let (result, _) =
            command-returned j r id name payload timeout [] (answers name payload) h v tt foreign
              few in
          result ∙ rw taken (returned-answers timeout name payload)
