-- ===== src/Host/Reader.antt =====
-- The reader of a connection (`handle_socket` of crates/infinity-bridge-host/src/server.rs): what it
-- does to the clients and what it publishes.
use mathlib.Core.Option
use infinity_wasm_bridge.Prelude.{
  ℕ, ◌≡◌, Bool, true, false, Option, some, ◌∙◌, ap, arith, if◌then◌else◌, nat_eq, string_eq, ◌==◌,
  inl, inr, Option-cases, Result-cases,
}
use infinity_wasm_bridge.Prelude.HashMap
use infinity_wasm_bridge.Wire.Json.{Json}
use infinity_wasm_bridge.Wire.Msg.{
  WireMsg, EventPayload, hello, ping, pong, cmd, ack, event, ready_event,
}
use infinity_wasm_bridge.Wire.Encode.{to_json}
use infinity_wasm_bridge.Wire.Decode.{from_json}
use infinity_wasm_bridge.Host.Runtime.{Runtime}
use infinity_wasm_bridge.Host.Hub.{
  Client, Hub, set_client_hello, touch_client, set_client_ready, dispatch_event,
}
use infinity_wasm_bridge.Host.Frame.{send_to-SameClients, dispatch_ack-SameClients}
use infinity_wasm_bridge.Host.Server.{ready_of, handle_message, handle_text}

map_same {ℓ} : {A : Type ℓ} (b : Bool) (o : Option A) → o ≡ (if b then Option.map (λ a. a) o else o)
map_same b o = ground arith

map_twice {ℓ} :
    {A : Type ℓ} (f g : A → A) (b : Bool) (o : Option A)
    → (if b
        then Option.map g (if b then Option.map f o else o)
        else if b
        then Option.map f o
        else o)
      ≡ (if b then Option.map (λ a. g (f a)) o else o)
map_twice f g b o = ground arith

module _ (j : Json) (r : Runtime j) (client_id : ℕ) where
  open j use {Value, Text}

  abbrev pub told_ready : Bool → Value → Client j r → Client j r
  told_ready true payload c = record c { ready = ready_of j r client_id payload }
  told_ready false payload c = c

  -- What a message tells of its sender.
  abbrev pub told : Option (WireMsg Value) → Client j r → Client j r
  told (some (hello greeting)) c = record c { greeting = some greeting }
  told (some (event e)) c = told_ready (e.name == ready_event) e.payload c
  told m c = c

  abbrev pub heard : ℕ → Option (WireMsg Value) → Client j r → Client j r
  heard now m c = told m (record c { last_seen = now })

  get-event :
      (b : Bool) (e : EventPayload Value) (h : Hub j r) (id : ℕ)
      → HashMap.get id
          (if b
            then set_client_ready j r client_id (ready_of j r client_id e.payload) h
            else dispatch_event j r e h).clients
        ≡ (if client_id == id
            then Option.map (told_ready b e.payload) (HashMap.get id h.clients)
            else HashMap.get id h.clients)
  unfolding set_client_ready dispatch_event
  get-event true e h id = HashMap.get-modify client_id id _ h.clients
  get-event false e h id = map_same (client_id == id) _

  answered :
      (ts : Option ℕ) (h : Hub j r) (id : ℕ)
      → HashMap.get id (handle_message j r client_id (ping ts) h).clients ≡ HashMap.get id h.clients
  unfolding handle_message
  answered ts h id = elim (Result-cases (to_json j (pong ts))) [
    | inl (answer, printed) ↦
        rw (handle_message, printed)
          (ap (HashMap.get id) (send_to-SameClients j r client_id answer h).clients)
    | inr (e, failed) ↦ rw (handle_message, failed)
  ]

  get-handle_message :
      (m : WireMsg Value) (h : Hub j r) (id : ℕ)
      → HashMap.get id (handle_message j r client_id m h).clients ≡ (
          if client_id == id
          then Option.map (told (some m)) (HashMap.get id h.clients)
          else HashMap.get id h.clients)
  unfolding handle_message set_client_hello set_client_ready dispatch_event
  get-handle_message (hello greeting) h id = HashMap.get-modify client_id id _ h.clients
  get-handle_message (event e) h id = get-event (e.name == ready_event) e h id
  get-handle_message (ack a) h id =
      ap (HashMap.get id) (dispatch_ack-SameClients j r a h).clients ∙ map_same (client_id == id) _
  get-handle_message (pong ts) h id = map_same (client_id == id) _
  get-handle_message (cmd c) h id = map_same (client_id == id) _
  get-handle_message (ping ts) h id = answered ts h id ∙ map_same (client_id == id) _

  -- A text sets the time at which its sender was last heard, whether it parses or not, and then
  -- what the message tells of the sender; no other client changes.
  pub get-handle_text :
      (now : ℕ) (raw : Text) (h : Hub j r) (id : ℕ)
      → HashMap.get id (handle_text j r client_id now raw h).clients ≡ (
          if client_id == id
          then Option.map (heard now (from_json j raw)) (HashMap.get id h.clients)
          else HashMap.get id h.clients)
  unfolding handle_text touch_client
  get-handle_text now raw h id =
      let touched = touch_client j r client_id now h in
      elim (Option-cases (from_json j raw)) [
        | inl broken ↦ rw (handle_text, broken) (HashMap.get-modify client_id id _ h.clients)
        | inr (m, parsed) ↦
            rw (handle_text, parsed)
              (get-handle_message m touched id
                ∙ rw (HashMap.get-modify client_id id (λ c. record c { last_seen = now }) h.clients)
                    (map_twice _ (told (some m)) (client_id == id) _))
      ]
