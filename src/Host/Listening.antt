-- ===== src/Host/Listening.antt =====
-- The loop of the reader (`handle_socket` of crates/infinity-bridge-host/src/server.rs) over all the
-- signals that arrive, and its end.
use mathlib.Core.Option
use infinity_wasm_bridge.Prelude.{
  ℕ, ◌≡◌, refl, Bool, true, false, Option, none, some, List, [], ◌∷◌, ◌∙◌, ap, arith, if◌then◌else◌,
  nat_eq, string_eq, ◌==◌, inl, inr, unwrap_or, Option-cases, any,
}
use infinity_wasm_bridge.Prelude.HashMap
use infinity_wasm_bridge.Wire.Json.{Json}
use infinity_wasm_bridge.Wire.Msg.{
  WireMsg, EventPayload, hello, ping, pong, cmd, ack, event, ready_event, new_event,
}
use infinity_wasm_bridge.Wire.Decode.{from_json}
use infinity_wasm_bridge.Host.Runtime.{Runtime}
use infinity_wasm_bridge.Host.Hub.{
  Client, Hub, set_client_hello, unregister_client, touch_client, set_client_ready, dispatch_event,
}
use infinity_wasm_bridge.Host.Send.{send_to}
use infinity_wasm_bridge.Host.Command.{dispatch_ack}
use infinity_wasm_bridge.Host.Server.{
  text, close, other, Signal, reaped, received, goes_on, gives_up, handle_message, handle_text,
  read_round, read_loop,
}
use infinity_wasm_bridge.Host.Reader.{heard, get-handle_text}

module _ {Text : Type 0} where
  -- Whether the connection ends: the ping task asks for it, the peer closes it, or it fails.
  abbrev pub ends : Signal Text → Bool
  ends (received now (some (text raw))) = false
  ends (received now (some other)) = false
  ends s = true

  -- The texts that arrive before the end, each with its time.
  abbrev pub texts : List (Signal Text) → List (ℕ × Text)
  texts [] = []
  texts (received now (some (text raw)) ∷ signals) = (now, raw) ∷ texts signals
  texts (received now (some other) ∷ signals) = texts signals
  texts (s ∷ signals) = []

module _ (j : Json) (r : Runtime j) (client_id : ℕ) where
  open j use {Value, Text}

  abbrev pub heard_all : List (ℕ × Text) → Option (Client j r) → Option (Client j r)
  heard_all [] o = o
  heard_all ((now, raw) ∷ ts) o =
      heard_all ts (Option.map (heard j r client_id now (from_json j raw)) o)

  -- The reader gives up at the first signal that ends the connection, and its client is then
  -- unregistered; until then its client is what the texts tell of it. No other client changes.
  pub get-read_loop :
      (signals : List (Signal Text)) (h : Hub j r) (id : ℕ)
      → let (again, h') = read_loop j r client_id signals h in
        (again ≡ (if any ends signals then gives_up else goes_on))
        × (HashMap.get id h'.clients ≡ (
            if client_id == id
            then if any ends signals
              then none
              else heard_all (texts signals) (HashMap.get id h.clients)
            else HashMap.get id h.clients))
  unfolding read_loop read_round unregister_client
  get-read_loop [] h id = (refl, ground arith)
  get-read_loop (reaped ∷ signals) h id = (refl, HashMap.get-remove client_id id h.clients)
  get-read_loop (received now none ∷ signals) h id =
      (refl, HashMap.get-remove client_id id h.clients)
  get-read_loop (received now (some close) ∷ signals) h id =
      (refl, HashMap.get-remove client_id id h.clients)
  get-read_loop (received now (some other) ∷ signals) h id = get-read_loop signals h id
  get-read_loop (received now (some (text raw)) ∷ signals) h id =
      let h' = handle_text j r client_id now raw h in
      let (again, known) = get-read_loop signals h' id in
      (again, known ∙ rw (get-handle_text j r client_id now raw h id) (ground arith))

  -- What a message publishes to the application.
  abbrev pub forwarded : Option (WireMsg Value) → Option (EventPayload Value)
  forwarded (some (event e)) = if e.name == ready_event then none else some e
  forwarded (some (cmd c)) = some (new_event (unwrap_or c.name "cmd") c.payload)
  forwarded m = none

  abbrev pub publish_forwarded : Option (EventPayload Value) → r.Broadcast → r.Broadcast
  publish_forwarded none b = b
  publish_forwarded (some e) b = r.publish e b

  abbrev pub publish_all : List (ℕ × Text) → r.Broadcast → r.Broadcast
  publish_all [] b = b
  publish_all ((now, raw) ∷ ts) b =
      publish_all ts (publish_forwarded (forwarded (from_json j raw)) b)

  event_tx-handle_message :
      (m : WireMsg Value) (h : Hub j r)
      → (handle_message j r client_id m h).event_tx
        ≡ publish_forwarded (forwarded (some m)) h.event_tx
  unfolding handle_message set_client_hello set_client_ready dispatch_event dispatch_ack send_to
  event_tx-handle_message (hello greeting) h = refl
  event_tx-handle_message (event e) h = ground arith
  event_tx-handle_message (ack a) h = ground arith
  event_tx-handle_message (pong ts) h = refl
  event_tx-handle_message (cmd c) h = refl
  event_tx-handle_message (ping ts) h = ground arith

  event_tx-handle_text :
      (now : ℕ) (raw : Text) (h : Hub j r)
      → (handle_text j r client_id now raw h).event_tx
        ≡ publish_forwarded (forwarded (from_json j raw)) h.event_tx
  unfolding handle_text touch_client
  event_tx-handle_text now raw h = elim (Option-cases (from_json j raw)) [
    | inl broken ↦ rw (handle_text, broken)
    | inr (m, parsed) ↦ rw (handle_text, parsed) (event_tx-handle_message m _)
  ]

  -- The application sees, in the order of arrival, each event but READY, and each command as an event
  -- of its name or of the name "cmd"; nothing else that arrives reaches it, a text that does not
  -- parse included.
  pub event_tx-read_loop :
      (signals : List (Signal Text)) (h : Hub j r)
      → (read_loop j r client_id signals h).1.event_tx ≡ publish_all (texts signals) h.event_tx
  unfolding read_loop read_round unregister_client
  event_tx-read_loop [] h = refl
  event_tx-read_loop (reaped ∷ signals) h = refl
  event_tx-read_loop (received now none ∷ signals) h = refl
  event_tx-read_loop (received now (some close) ∷ signals) h = refl
  event_tx-read_loop (received now (some other) ∷ signals) h = event_tx-read_loop signals h
  event_tx-read_loop (received now (some (text raw)) ∷ signals) h =
      event_tx-read_loop signals (handle_text j r client_id now raw h)
      ∙ ap (publish_all (texts signals)) (event_tx-handle_text now raw h)
