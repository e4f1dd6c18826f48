-- ===== src/Relay/Through.antt =====
-- A command of the host through the relay to the gauge and back: `command` of
-- crates/infinity-bridge-host/src/hub.rs, ts/infinity-bridge-relay/src/relay.ts and `dispatch` of
-- crates/infinity-bridge-wasm/src/bridge.rs together.
use infinity_wasm_bridge.Prelude.{
  ℕ, ◌+◌, ◌<◌, ◌^◌, String, ◌≡◌, refl, Bool, true, false, Option, none, some, [], ◌∷◌, ◌++◌, ◌∙◌,
  ap, Result, ok, err, map_err, length, nat_eq, string_eq,
}
use infinity_wasm_bridge.Prelude.HashMap
use infinity_wasm_bridge.Wire.Json.{Json}
use infinity_wasm_bridge.Wire.Error.{application_error}
use infinity_wasm_bridge.Wire.Msg.{CmdPayload, cmd}
use infinity_wasm_bridge.Wire.Encode.{to_json}
use infinity_wasm_bridge.Wire.Decode.{from_json}
use infinity_wasm_bridge.Wire.RoundTrip.{normal}
use infinity_wasm_bridge.Wasm.Handler.{BridgeHandler}
use infinity_wasm_bridge.Wasm.Bus.{CommBus}
use infinity_wasm_bridge.Wasm.Bridge.{dispatch}
use infinity_wasm_bridge.Wasm.Relayed.{dispatch-Relayed}
use infinity_wasm_bridge.Host.Runtime.{Runtime}
use infinity_wasm_bridge.Host.Hub.{Hub, is_ready}
use infinity_wasm_bridge.Host.Command.{make_cmd, begin}
use infinity_wasm_bridge.Host.Steps.{run}
use infinity_wasm_bridge.Host.Slots.{HasSlots}
use infinity_wasm_bridge.Host.Call.{command}
use infinity_wasm_bridge.Host.Returned.{immediate, first_ack, returned, command-returned}
use infinity_wasm_bridge.Gauge.Session.{unwrap_or-drop_null, heard_ops, heard_ops-IsForeign}
use infinity_wasm_bridge.Relay.Dedup.{has}
use infinity_wasm_bridge.Relay.State.{Relay}
use infinity_wasm_bridge.Relay.Bridge.{request_id_of, on_host_message, on_wasm_message}
use infinity_wasm_bridge.Relay.Forwarded.{
  ack_of, forwarded, on_host_message-cmd, on_wasm_message-response,
}

module _ (j : Json) (hr : Runtime j) where
  open j use {Value, Text}

  first_ack-ack_of :
      (client_id now : ℕ) (id : String) (result : Result String Value) (text : Text) (timeout : ℕ)
      → from_json j text ≡ some (normal j (ack_of j id result))
      → returned j hr timeout none (first_ack j hr id (heard_ops j hr client_id now (text ∷ [])))
        ≡ map_err application_error result
  first_ack-ack_of client_id now id (ok v) text timeout parsed =
      rw (parsed, (string_eq.equal_iff id id).1 refl) (ap ok (unwrap_or-drop_null j v))
  first_ack-ack_of client_id now id (err e) text timeout parsed =
      rw (parsed, (string_eq.equal_iff id id).1 refl) refl

  -- The host's task gets the gauge's result once the reader of its connection has heard the ack.
  command-heard :
      (id : String) (name : Option String) (payload : Value) (timeout client_id now : ℕ)
      (result : Result String Value) (text : Text) (h : Hub j hr)
      → from_json j text ≡ some (normal j (ack_of j id result))
      → HasSlots j hr h
      → length h.clients < 2 ^ 64
      → immediate j hr h ≡ none
      → (command j hr id name payload timeout [] (heard_ops j hr client_id now (text ∷ [])) h).0
        ≡ map_err application_error result
  unfolding begin run is_ready
  command-heard id name payload timeout client_id now result text h parsed v few taken =
      let heard = heard_ops j hr client_id now (text ∷ []) in
      let foreign = heard_ops-IsForeign j hr client_id now id (text ∷ []) in
      let (got, _) = command-returned j hr id name payload timeout [] heard h v tt foreign few in
      got ∙ rw taken (first_ack-ack_of client_id now id result text timeout parsed)

  module _ (b : CommBus Text) {S : Type 0} (handler : BridgeHandler Value S)
      (response_event : String) (shown : Value → String) where
    open b use {World, call}

    -- What the relay and the gauge do for a command that the host sends as `raw`, and what the host
    -- gets: the relay calls the gauge once, the gauge answers by one call of the bus, and the relay
    -- sends one ack and forgets the request.
    pub record CameThrough (binds : Bool) (now : ℕ) (c : CmdPayload Value) (raw : Text)
        (r : Relay j) (s : S) (w : World) : Type 0 where
      pub call_text : Text
      pub answer : Text
      pub reply : Text
      pub called : (on_host_message j binds now raw r).to_gauge ≡ r.to_gauge ++ call_text ∷ []
      pub answered :
          dispatch j b handler response_event call_text s w
          ≡ ((handler.on_command c.name c.payload s).1, (call response_event answer w).1)
      pub sent :
          (on_wasm_message j shown answer (on_host_message j binds now raw r)).to_host
          ≡ r.to_host ++ reply ∷ []
      pub settled :
          HashMap.get
            (request_id_of now (r.request_seq + 1))
            (on_wasm_message j shown answer (on_host_message j binds now raw r)).pending
          ≡ none
      pub reads :
          from_json j reply
          ≡ some (normal j (ack_of j c.id (handler.on_command c.name c.payload s).0))

    module _ (binds : Bool) (now : ℕ) (raw : Text) (r : Relay j) (s : S) (w : World)
        (bus : r.has_bus ≡ true) (bound : r.is_bound ≡ true) (opened : r.is_open ≡ true) where
      cmd-CameThrough :
          (c : CmdPayload Value)
          → to_json j (cmd c) ≡ ok raw
          → has r.dedup c.id ≡ false
          → CameThrough binds now c raw r s w
      cmd-CameThrough c printed new =
          let request_id = request_id_of now (r.request_seq + 1) in
          let (text, wraps, asked) =
            on_host_message-cmd j binds now c raw r printed bus bound new in
          let ran =
            dispatch-Relayed j b handler response_event request_id s w (cmd c) text tt wraps in
          let itself = (string_eq.equal_iff request_id request_id).1 refl in
          let found = HashMap.get-insert request_id request_id c.id r.pending ∙ rw itself refl in
          let (reply, reads, settled) =
            on_wasm_message-response j shown request_id c.id _ ran.reply.text
              (forwarded j now c text r) ran.reply.answers found opened in
          record {
            call_text = text;
            answer = ran.reply.text;
            reply = reply;
            called = rw asked refl;
            answered = λ i. (ran.state i, ran.reply.called i);
            sent = rw (asked, settled) refl;
            settled =
                rw (asked, settled) (HashMap.get-remove request_id request_id _ ∙ rw itself refl);
            reads = reads;
          }

      -- What the task of the host returns once its connection has read the reply.
      abbrev pub Returns :
          String → Option String → Value → ℕ → ℕ → ℕ → Hub j hr → CmdPayload Value → Type 0
      Returns id name payload timeout client_id read_at h c =
          (t : CameThrough binds now c raw r s w) × ((command j hr id name payload timeout []
              (heard_ops j hr client_id read_at (t.reply ∷ [])) h).0
            ≡ map_err application_error (handler.on_command name payload s).0)

      -- A command of the host that is new to the relay, whose socket is open and whose CommBus listener
      -- is bound. It comes through: the relay calls the gauge once, the gauge runs its handler on the
      -- command's name and payload and answers by one call of the bus, and the relay sends one ack of
      -- the command to the host and forgets the request. The host's task, once its connection has read
      -- that ack and nothing else has happened, returns the handler's result, an error of it as an
      -- application error. The host has fewer than 2 ^ 64 clients, one of which takes the command, and
      -- its pending commands wait on channels of their own.
      pub command-CameThrough :
          (id : String) (name : Option String) (payload : Value) (timeout client_id read_at : ℕ)
          (h : Hub j hr)
          → HasSlots j hr h
          → length h.clients < 2 ^ 64
          → immediate j hr h ≡ none
          → to_json j (cmd (make_cmd j hr id name payload)) ≡ ok raw
          → has r.dedup id ≡ false
          → Returns id name payload timeout client_id read_at h (make_cmd j hr id name payload)
      command-CameThrough id none payload timeout client_id read_at h v few taken printed new =
          let t = cmd-CameThrough (make_cmd j hr id none payload) printed new in
          (
            t,
            command-heard id none payload timeout client_id read_at _ t.reply h t.reads v few taken,
          )
      command-CameThrough id (some name) payload timeout client_id read_at h v few taken printed
            new =
          let t = cmd-CameThrough (make_cmd j hr id (some name) payload) printed new in
          (
            t,
            command-heard id (some name) payload timeout client_id read_at _ t.reply h t.reads v few
                taken,
          )
