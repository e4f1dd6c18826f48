-- ===== src/Host/Delivery.antt =====
-- The sending of a command: when it fails at once, who gets it, and what becomes of its pending
-- entry.
use infinity_wasm_bridge.Prelude.{
  ℕ, ◌<◌, ◌^◌, String, ◌≡◌, refl, Bool, false, not, ◌&&◌, ◌||◌, none, some, [], ◌∷◌, ◌++◌, ◌∙◌, ap,
  arith, length, any, is_empty, if◌then◌else◌, nat_eq, string_eq, ◌==◌, inl, inr, is_some,
  Option-cases,
}
use infinity_wasm_bridge.Prelude.HashMap
use infinity_wasm_bridge.Wire.Json.{Json}
use infinity_wasm_bridge.Wire.Error.{transport_error, no_clients_error}
use infinity_wasm_bridge.Host.Runtime.{Runtime}
use infinity_wasm_bridge.Host.Hub.{Client, Hub, Clients, any_ready, is_ready}
use infinity_wasm_bridge.Host.Command.{deliver_all, deliver, forget}
use infinity_wasm_bridge.Host.Targets.{
  HasOwnChannels, any_reached, queue-deliver_all, delivered-deliver_all,
}

module _ (j : Json) (r : Runtime j) where
  open r use {Net, is_open, queue}

  -- A command is meant for a client that has reported ready; for every client, while none has.
  abbrev pub is_target : Hub j r → Client j r → Bool
  is_target h c = c.ready || not (is_ready j r h)

  -- Some target still takes messages.
  abbrev pub any_target : Hub j r → Clients j r → Bool
  any_target h cs = any (λ b. is_target h b.1 && is_open b.1.tx h.net) cs

  any_target-reached :
      (h : Hub j r) (cs : Clients j r)
      → any_reached j r (any_ready j r h.clients) h.net cs ≡ any_target h cs
  unfolding is_ready
  any_target-reached h [] = refl
  any_target-reached h ((id, c) ∷ cs) = ground (arith, any_target-reached h cs)

  net-forget : (id : String) (h : Hub j r) → (forget j r id h).net ≡ h.net
  unfolding forget
  net-forget id h = ground arith

  get-forget :
      (id other : String) (h : Hub j r)
      → HashMap.get other (forget j r id h).pending
        ≡ (if id == other then none else HashMap.get other h.pending)
  unfolding forget
  get-forget id other h = elim (Option-cases (HashMap.get id h.pending)) [
    | inl e ↦ rw (e, forget) (ground (arith, string_eq.equal_iff id other))
    | inr (s, e) ↦ rw (e, forget) (HashMap.get-remove id other h.pending)
  ]

  module _ (id : String) (text : j.Text) (h : Hub j r) where
    -- With fewer than 2 ^ 64 clients, a command fails at once with NO_CLIENTS exactly when no client
    -- is registered, and with TRANSPORT exactly when there are clients but the channel of every
    -- target is closed; otherwise it goes on to wait for its ack.
    pub deliver-result :
        length h.clients < 2 ^ 64
        → (deliver j r id text h).0 ≡ (
            if is_empty h.clients
            then some (no_clients_error "no gauges connected — cannot send command")
            else if any_target h h.clients
            then none
            else some (transport_error "no gauge connection accepted the command"))
    unfolding deliver
    deliver-result lt = ground (
      arith,
      delivered-deliver_all j r (any_ready j r h.clients) text h.clients 0 h.net (omega arith),
      any_target-reached h h.clients,
    )

    net-deliver :
        is_empty h.clients ≡ false
        → (deliver j r id text h).1.net
          ≡ (deliver_all j r (any_ready j r h.clients) text h.clients 0 h.net).1
    unfolding deliver
    net-deliver manned =
        let n = (deliver_all j r (any_ready j r h.clients) text h.clients 0 h.net).1 in
        ground (arith, net-forget id (record h { net = n }))

    -- Where every client has a channel of its own, a command is put at the end of the queue of each
    -- target whose channel is open; a client that is no target, because another has reported ready
    -- and it has not, gets nothing.
    pub queue-deliver :
        (client_id : ℕ) (c : Client j r)
        → HasOwnChannels j r h.clients
        → HashMap.get client_id h.clients ≡ some c
        → queue c.tx (deliver j r id text h).1.net ≡ (
            if is_target h c && is_open c.tx h.net
            then queue c.tx h.net ++ text ∷ []
            else queue c.tx h.net)
    unfolding deliver is_ready
    queue-deliver client_id c own found =
        let known = any_ready j r h.clients in
        ap (queue c.tx) (net-deliver (HashMap.is_empty_of_get client_id c h.clients found))
        ∙ (queue-deliver_all j r known text client_id c h.clients 0 h.net own found ∙ ground arith)

    -- A command that fails at once leaves no entry under its id, and no other entry changes; one
    -- that waits changes no entry.
    pub pending-deliver :
        (other : String)
        → HashMap.get other (deliver j r id text h).1.pending ≡ (
            if is_some (deliver j r id text h).0 && id == other
            then none
            else HashMap.get other h.pending)
    unfolding deliver
    pending-deliver other = ground (
      arith,
      get-forget id other h,
      get-forget id other
          (record h { net = (deliver_all j r (any_ready j r h.clients) text h.clients 0 h.net).1 }),
    )
