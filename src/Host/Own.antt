-- ===== src/Host/Own.antt =====
-- A connection as a part of the machine of Host.Steps: the reader of `handle_socket`
-- (crates/infinity-bridge-host/src/server.rs) only takes steps of the hub, and those on the map of
-- clients are about its own client.
use infinity_wasm_bridge.Prelude.{
  ℕ, ◌≡◌, refl, none, some, List, [], ◌∷◌, ◌++◌, ◌∙◌, sym, ap, string_eq, ◌==◌, Bool-cases, inl,
  inr, unwrap_or, Option-cases, Result-cases, All,
}
use infinity_wasm_bridge.Wire.Json.{Json}
use infinity_wasm_bridge.Wire.Msg.{
  WireMsg, hello, ping, pong, cmd, ack, event, ready_event, new_event,
}
use infinity_wasm_bridge.Wire.Encode.{to_json}
use infinity_wasm_bridge.Wire.Decode.{from_json}
use infinity_wasm_bridge.Host.Runtime.{Runtime}
use infinity_wasm_bridge.Host.Hub.{Hub, touch_client}
use infinity_wasm_bridge.Host.Steps.{
  Op, greets, unregisters, touches, readies, publishes, sends, acknowledges, step, run, run-++,
}
use infinity_wasm_bridge.Host.Server.{
  Signal, text, close, other, reaped, received, ready_of, handle_message, handle_text, read_round,
  read_loop,
}

module _ (j : Json) (r : Runtime j) (client_id : ℕ) where
  open j use {Value, Text}

  -- A step that the reader of the connection may take.
  abbrev pub IsOwn : Op j r → Type 0
  IsOwn (greets id greeting) = id ≡ client_id
  IsOwn (touches id now) = id ≡ client_id
  IsOwn (readies id ready) = id ≡ client_id
  IsOwn (unregisters id) = id ≡ client_id
  IsOwn (sends id message) = id ≡ client_id
  IsOwn (publishes e) = Unit
  IsOwn (acknowledges a) = Unit
  IsOwn op = ⊥

  -- `h'` is reached from `h` by such steps.
  abbrev pub IsOwnRun : Hub j r → Hub j r → Type 0
  IsOwnRun h h' = (ops : List (Op j r)) × All IsOwn ops × (h' ≡ run j r h ops)

  handle_message-IsOwnRun :
      (m : WireMsg Value) (h : Hub j r) → IsOwnRun h (handle_message j r client_id m h)
  unfolding handle_message run step
  handle_message-IsOwnRun (hello g) h = (greets client_id g ∷ [], (refl, tt), refl)
  handle_message-IsOwnRun (ack a) h = (acknowledges a ∷ [], (tt, tt), refl)
  handle_message-IsOwnRun (event e) h = elim (Bool-cases (e.name == ready_event)) [
    | inl ready ↦ (
      readies client_id (ready_of j r client_id e.payload) ∷ [],
      (refl, tt),
      rw (handle_message, ready),
    )
    | inr plain ↦ (publishes e ∷ [], (tt, tt), rw (handle_message, plain))
  ]
  handle_message-IsOwnRun (pong ts) h = ([], tt, refl)
  handle_message-IsOwnRun (cmd c) h =
      (publishes (new_event (unwrap_or c.name "cmd") c.payload) ∷ [], (tt, tt), refl)
  handle_message-IsOwnRun (ping ts) h = elim (Result-cases (to_json j (pong ts))) [
    | inl (answer, printed) ↦
        (sends client_id answer ∷ [], (refl, tt), rw (handle_message, printed))
    | inr (e, failed) ↦ ([], tt, rw (handle_message, failed))
  ]

  pub handle_text-IsOwnRun :
      (now : ℕ) (raw : Text) (h : Hub j r) → IsOwnRun h (handle_text j r client_id now raw h)
  unfolding handle_text run step
  handle_text-IsOwnRun now raw h = elim (Option-cases (from_json j raw)) [
    | inl broken ↦ (touches client_id now ∷ [], (refl, tt), rw (handle_text, broken))
    | inr (m, parsed) ↦
        let (ops, own, same) = handle_message-IsOwnRun m (touch_client j r client_id now h) in
        (touches client_id now ∷ ops, (refl, own), rw (handle_text, parsed) same)
  ]

  All-++ : (ops more : List (Op j r)) → All IsOwn ops → All IsOwn more → All IsOwn (ops ++ more)
  All-++ [] more own owns = owns
  All-++ (op ∷ ops) more own owns = (own.0, All-++ ops more own.1 owns)

  -- Whatever arrives on a connection, its reader takes only steps of the hub, and those that are about
  -- a client are about its own; it registers no client, reaps none and begins or ends no command.
  pub read_loop-IsOwnRun :
      (signals : List (Signal Text)) (h : Hub j r)
      → IsOwnRun h (read_loop j r client_id signals h).1
  unfolding read_loop read_round run step
  read_loop-IsOwnRun [] h = ([], tt, refl)
  read_loop-IsOwnRun (reaped ∷ signals) h = (unregisters client_id ∷ [], (refl, tt), refl)
  read_loop-IsOwnRun (received now none ∷ signals) h =
      (unregisters client_id ∷ [], (refl, tt), refl)
  read_loop-IsOwnRun (received now (some close) ∷ signals) h =
      (unregisters client_id ∷ [], (refl, tt), refl)
  read_loop-IsOwnRun (received now (some other) ∷ signals) h = read_loop-IsOwnRun signals h
  read_loop-IsOwnRun (received now (some (text raw)) ∷ signals) h =
      let (ops, own, same) = handle_text-IsOwnRun now raw h in
      let (more, owns, same') = read_loop-IsOwnRun signals (handle_text j r client_id now raw h) in
      (
        ops ++ more,
        All-++ ops more own owns,
        same' ∙ ap (λ x. run j r x more) same ∙ sym (run-++ j r h ops more),
      )
