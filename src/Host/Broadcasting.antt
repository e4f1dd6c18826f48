-- ===== src/Host/Broadcasting.antt =====
-- Events to the gauges: when `emit` succeeds, and who gets what `emit` and `broadcast` send.
use infinity_wasm_bridge.Prelude.{
  ℕ, ◌+◌, ◌<◌, ◌≤◌, ◌%◌, ◌^◌, String, ◌≡◌, refl, Bool, true, false, some, [], ◌∷◌, ◌++◌, ◌∙◌, arith,
  length, length-pos, any, is_empty, if◌then◌else◌, nat_eq, Bool-cases, inl, inr, ok, err,
}
use infinity_wasm_bridge.Prelude.HashMap
use infinity_wasm_bridge.Wire.Json.{Json}
use infinity_wasm_bridge.Wire.Error.{transport_error, no_clients_error}
use infinity_wasm_bridge.Wire.Msg.{event, new_event}
use infinity_wasm_bridge.Wire.Decode.{from_json}
use infinity_wasm_bridge.Wire.RoundTrip.{from_json-to_json}
use infinity_wasm_bridge.Host.Runtime.{Runtime}
use infinity_wasm_bridge.Host.Hub.{Client, Hub, Clients}
use infinity_wasm_bridge.Host.Send.{send_all, emit, broadcast}
use infinity_wasm_bridge.Host.Command.{deliver_all}
use infinity_wasm_bridge.Host.Targets.{HasOwnChannels, queue-deliver_all}

module _ (j : Json) (r : Runtime j) where
  open r use {Net, send, is_open, queue}

  -- Some client still takes messages.
  abbrev pub any_open : Net → Clients j r → Bool
  any_open n cs = any (λ b. is_open b.1.tx n) cs

  module _ (text : j.Text) where
    pub net-send_all :
        (cs : Clients j r) (f d : ℕ) (n : Net)
        → (send_all j r text cs f n).1 ≡ (deliver_all j r false text cs d n).1
    unfolding send_all deliver_all
    net-send_all [] f d n = refl
    net-send_all ((id, c) ∷ cs) f d n = net-send_all cs _ _ (send c.tx text n).1

    any_open-send :
        (c : Client j r) (cs : Clients j r) (n : Net)
        → any_open (send c.tx text n).1 cs ≡ any_open n cs
    any_open-send c [] n = refl
    any_open-send c ((id, d) ∷ cs) n = rw (r.is_open-send c.tx d.tx text n, any_open-send c cs n)

    failures-send_all :
        (cs : Clients j r) (f : ℕ) (n : Net)
        → f + length cs < 2 ^ 32
        → let f' = (send_all j r text cs f n).0 in
          (f ≤ f')
          × (f' ≤ f + length cs)
          × (any_open n cs ≡ true → f' < f + length cs)
          × (any_open n cs ≡ false → f' ≡ f + length cs)
    unfolding send_all
    failures-send_all [] f n h = (omega arith, omega arith, λ e. cc, λ e. omega arith)
    failures-send_all ((id, c) ∷ cs) f n h = elim (Bool-cases (is_open c.tx n)) [
      | inl opened ↦
          let (low, high, _, _) = failures-send_all cs f (send c.tx text n).1 (omega arith) in
          rw (send_all, r.send-is_open c.tx text n, opened)
            (omega arith, omega arith, λ _. omega arith, λ x. cc)
      | inr shut ↦
          let e : (f + 1) % 2 ^ 32 ≡ f + 1 = omega arith in
          let (low, high, more, all) =
            failures-send_all cs (f + 1) (send c.tx text n).1 (omega arith) in
          let same = any_open-send c cs n in
          rw (send_all, r.send-is_open c.tx text n, shut, e)
            (
              omega arith,
              omega arith,
              λ x. omega (arith, more (same ∙ x)),
              λ x. omega (arith, all (same ∙ x)),
            )
    ]

  -- With fewer than 2 ^ 32 clients, `emit` fails with NO_CLIENTS exactly when no client is
  -- registered, with TRANSPORT exactly when there are clients and every channel is closed, and
  -- succeeds otherwise.
  pub emit-result :
      (name : String) (payload : j.Value) (h : Hub j r)
      → length h.clients < 2 ^ 32
      → (emit j r name payload h).0 ≡ (
          if is_empty h.clients
          then err (no_clients_error "no gauges connected — event dropped")
          else if any_open h.net h.clients
          then ok tt
          else err (transport_error "all gauge connections failed to accept event"))
  unfolding emit
  emit-result name payload h lt =
      let (text, printed, _) = from_json-to_json j (event (new_event name payload)) tt in
      rw (printed, emit)
        (elim (Bool-cases (is_empty h.clients)) [
          | inl vacant ↦ rw vacant
          | inr manned ↦ rw manned (
              ground (
                arith,
                length-pos h.clients manned,
                failures-send_all text h.clients 0 h.net (omega arith),
              ))
        ])

  -- Where every client has a channel of its own, `emit` puts one text, which reads as the event, at
  -- the end of the queue of each client whose channel is open, and leaves every other client's
  -- queue as it was.
  pub queue-emit :
      (name : String) (payload : j.Value) (h : Hub j r) (id : ℕ) (c : Client j r)
      → HasOwnChannels j r h.clients
      → HashMap.get id h.clients ≡ some c
      → (text : j.Text) × (from_json j text ≡ some (event (new_event name payload)))
        × (queue c.tx (emit j r name payload h).1.net
            ≡ (if is_open c.tx h.net then queue c.tx h.net ++ text ∷ [] else queue c.tx h.net))
  unfolding emit
  queue-emit name payload h id c own found =
      let (text, printed, parsed) = from_json-to_json j (event (new_event name payload)) tt in
      let manned = HashMap.is_empty_of_get id c h.clients found in
      (
        text,
        parsed,
        rw (printed, emit, manned, net-send_all text h.clients 0 0 h.net)
            (queue-deliver_all j r false text id c h.clients 0 h.net own found),
      )

  -- Where every client has a channel of its own and one is registered, `broadcast` succeeds,
  -- whatever the channels do; its text goes to the end of the queue of each client whose channel is
  -- open, and no other client's queue changes.
  pub queue-broadcast :
      (text : j.Text) (h : Hub j r) (id : ℕ) (c : Client j r)
      → HasOwnChannels j r h.clients
      → HashMap.get id h.clients ≡ some c
      → let (result, h') = broadcast j r text h in
        (result ≡ ok tt)
        × (queue c.tx h'.net
            ≡ (if is_open c.tx h.net then queue c.tx h.net ++ text ∷ [] else queue c.tx h.net))
  unfolding broadcast
  queue-broadcast text h id c own found =
      let manned = HashMap.is_empty_of_get id c h.clients found in
      (
        rw manned,
        rw (manned, net-send_all text h.clients 0 0 h.net)
            (queue-deliver_all j r false text id c h.clients 0 h.net own found),
      )
