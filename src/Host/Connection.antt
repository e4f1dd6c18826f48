-- ===== src/Host/Connection.antt =====
-- One connection of the server: what its reader and its ping task do to the hub.
use infinity_wasm_bridge.Prelude.{
  ℕ, ◌%◌, ◌^◌, ◌≡◌, refl, true, Option, none, some, [], ◌∷◌, ◌++◌, ◌∙◌, arith, if◌then◌else◌,
  nat_eq, nat_beq_iff, string_eq, Bool-cases, inl, inr, is_ok, Option-cases,
}
use infinity_wasm_bridge.Prelude.HashMap
use infinity_wasm_bridge.Prelude.HashMap.{IsUnique}
use infinity_wasm_bridge.Wire.Json.{Json}
use infinity_wasm_bridge.Wire.Msg.{ping, pong}
use infinity_wasm_bridge.Wire.Decode.{from_json}
use infinity_wasm_bridge.Wire.RoundTrip.{from_json-to_json}
use infinity_wasm_bridge.Wire.Decoded.{from_json-IsRead}
use infinity_wasm_bridge.Host.Runtime.{Runtime}
use infinity_wasm_bridge.Host.Hub.{Client, Hub, touch_client, reap_dead_clients}
use infinity_wasm_bridge.Host.Send.{send_to}
use infinity_wasm_bridge.Host.Reap.{survivor, is_silent, reap_dead_clients_lem}
use infinity_wasm_bridge.Host.Server.{
  Loop, goes_on, gives_up, handle_message, handle_text, ping_tick,
}

module _ (j : Json) (r : Runtime j) (client_id : ℕ) where
  open j use {Value, Text}

  -- The answer to a probe: `none` where the client is gone.
  abbrev pub answers_probe : r.Net → Option (Client j r) → Loop
  answers_probe n none = gives_up
  answers_probe n (some c) = if r.is_open c.tx n then goes_on else gives_up

  answers-send_to :
      (t : Text) (h : Hub j r)
      → (if is_ok (send_to j r client_id t h).0 then goes_on else gives_up)
        ≡ answers_probe h.net (HashMap.get client_id h.clients)
  unfolding send_to
  answers-send_to t h = elim (Option-cases (HashMap.get client_id h.clients)) [
    | inl missing ↦ rw (send_to, missing)
    | inr (c, found) ↦
        rw (send_to, found)
          (elim (Bool-cases (r.is_open c.tx h.net)) [
            | inl o ↦ rw (r.send-is_open c.tx t h.net, o)
            | inr o ↦ rw (r.send-is_open c.tx t h.net, o)
          ])
  ]

  net-reap_dead_clients :
      (timeout now : ℕ) (h : Hub j r) → (reap_dead_clients j r timeout now h).1.net ≡ h.net
  unfolding reap_dead_clients
  net-reap_dead_clients timeout now h = refl

  -- In a hub where no id stands twice, a tick ends the connection exactly when the client is not
  -- registered, was silent for longer than the timeout, or has a closed channel. So a client that
  -- the ping task of another connection reaped is found out at its own next tick.
  pub ping_tick-gives_up :
      (ping_timeout now millis : ℕ) (h : Hub j r)
      → IsUnique h.clients
      → (ping_tick j r client_id ping_timeout now millis h).0
        ≡ answers_probe h.net (survivor j r ping_timeout now (HashMap.get client_id h.clients))
  unfolding ping_tick
  ping_tick-gives_up ping_timeout now millis h u =
      let left = (reap_dead_clients j r ping_timeout now h).1 in
      let (named, stays) = reap_dead_clients_lem j r ping_timeout now h client_id u in
      let (probe, printed, _) = from_json-to_json j (ping (some (millis % 2 ^ 64))) (omega arith) in
      let sent = answers-send_to probe left in
      elim (Bool-cases (is_silent j r ping_timeout now (HashMap.get client_id h.clients))) [
        | inl silent ↦ rw (named, silent)
        | inr fine ↦
            rw (named, fine, printed, sent, stays, fine, net-reap_dead_clients ping_timeout now h)
      ]

  queue-send_to :
      (t : Text) (h : Hub j r) (c : Client j r)
      → HashMap.get client_id h.clients ≡ some c
      → r.is_open c.tx h.net ≡ true
      → r.queue c.tx (send_to j r client_id t h).1.net ≡ r.queue c.tx h.net ++ t ∷ []
  unfolding send_to
  queue-send_to t h c found o = rw (send_to, found) (r.queue-send c.tx t h.net o)

  -- A ping is answered on the connection of its sender, if that is open, with a pong of the same
  -- timestamp, after all that was sent before.
  pub queue-ping :
      (now : ℕ) (raw : Text) (ts : Option ℕ) (h : Hub j r) (c : Client j r)
      → from_json j raw ≡ some (ping ts)
      → HashMap.get client_id h.clients ≡ some c
      → r.is_open c.tx h.net ≡ true
      → (answer : Text) × (from_json j answer ≡ some (pong ts))
        × (r.queue c.tx (handle_text j r client_id now raw h).net
            ≡ r.queue c.tx h.net ++ answer ∷ [])
  unfolding handle_text handle_message touch_client
  queue-ping now raw ts h c parsed found o =
      let (fits, _) = from_json-IsRead j raw (ping ts) parsed in
      let (answer, printed, reads) = from_json-to_json j (pong ts) fits in
      let touched = touch_client j r client_id now h in
      (
        answer,
        reads,
        rw (parsed, handle_text, handle_message, printed)
            (queue-send_to answer touched (record c { last_seen = now })
              (HashMap.get-modify client_id client_id _ h.clients
                ∙ rw found (ground (arith, nat_beq_iff client_id client_id)))
              o),
      )
