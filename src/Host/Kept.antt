-- ===== src/Host/Kept.antt =====
-- A property of one client that the updates of the hub leave true stays true while the client is
-- registered.
use mathlib.Core.Option
use infinity_wasm_bridge.Prelude.{
  ℕ, ◌+◌, ◌<◌, ◌^◌, ◌≡◌, refl, ap, Bool, true, false, Option, none, some, List, [], ◌∷◌, arith,
  length, All, if◌then◌else◌, ◌==◌, nat_eq, nat_beq_iff, Bool-cases, inl, inr,
}
use infinity_wasm_bridge.Prelude.HashMap
use infinity_wasm_bridge.Wire.Json.{Json}
use infinity_wasm_bridge.Wire.Msg.{HelloPayload}
use infinity_wasm_bridge.Host.Runtime.{Runtime}
use infinity_wasm_bridge.Host.Hub.{
  Client, Hub, register_client, set_client_hello, unregister_client, touch_client, dead_ids,
  reap_dead_clients, set_client_ready,
}
use infinity_wasm_bridge.Host.Steps.{
  Op, registers, greets, unregisters, touches, reaps, readies, step, run,
}
use infinity_wasm_bridge.Host.Frame.{step-SameClients}
use infinity_wasm_bridge.Host.Ids.{HasIds, step-HasIds}
use infinity_wasm_bridge.Host.Reap.{get-remove_all}

module _ (j : Json) (r : Runtime j) (P : Client j r → Type 0) where
  -- `P` holds of the client, if there is one.
  abbrev pub Holds : Option (Client j r) → Type 0
  Holds none = Unit
  Holds (some c) = P c

  Holds-modify :
      (b : Bool) (f : Client j r → Client j r) (o : Option (Client j r))
      → (b ≡ true → (c : Client j r) → P c → P (f c))
      → Holds o
      → Holds (if b then Option.map f o else o)
  Holds-modify b f none kept v = ground arith
  Holds-modify true f (some c) kept v = kept refl c v
  Holds-modify false f (some c) kept v = v

  Holds-remove : (b : Bool) (o : Option (Client j r)) → Holds o → Holds (if b then none else o)
  Holds-remove true o v = tt
  Holds-remove false o v = v

  -- What of `P` the updates have to leave true: a greeting, a ready flag and, for a client that is
  -- heard, the time.
  pub record Keeps (id : ℕ) (op : Op j r) : Type 0 where
    pub greeted :
        (g : HelloPayload j.Value) (c : Client j r) → P c → P (record c { greeting = some g })
    pub readied : (b : Bool) (c : Client j r) → P c → P (record c { ready = b })
    pub touched :
        (now : ℕ) → op ≡ touches id now → (c : Client j r) → P c → P (record c { last_seen = now })

  pub Holds-step :
      (id : ℕ) (h : Hub j r) (op : Op j r)
      → id < h.next_id
      → Keeps id op
      → Holds (HashMap.get id h.clients)
      → Holds (HashMap.get id (step j r h op).clients)
  unfolding step register_client set_client_hello unregister_client touch_client set_client_ready
      reap_dead_clients
  Holds-step id h (registers tx now) old kept v =
      rw (HashMap.get-insert h.next_id id _ h.clients) (elim (Bool-cases (h.next_id == id)) [
        | inl same ↦ absurd (omega (arith, (nat_beq_iff h.next_id id).0 same))
        | inr other ↦ rw other v
      ])
  Holds-step id h (greets k g) old kept v =
      rw (HashMap.get-modify k id _ h.clients)
        (Holds-modify (k == id) _ (HashMap.get id h.clients) (λ e c p. kept.greeted g c p) v)
  Holds-step id h (unregisters k) old kept v =
      rw (HashMap.get-remove k id h.clients) (Holds-remove (k == id) (HashMap.get id h.clients) v)
  Holds-step id h (touches k now) old kept v = rw (HashMap.get-modify k id _ h.clients) (
      Holds-modify (k == id) _ (HashMap.get id h.clients)
        (λ e c p. kept.touched now (ap (λ i. touches i now) ((nat_beq_iff k id).0 e)) c p) v)
  Holds-step id h (reaps timeout now) old kept v =
      rw (get-remove_all j r (dead_ids j r timeout now h.clients) h.clients id)
        (Holds-remove _ (HashMap.get id h.clients) v)
  Holds-step id h (readies k b) old kept v =
      rw (HashMap.get-modify k id _ h.clients)
        (Holds-modify (k == id) _ (HashMap.get id h.clients) (λ e c p. kept.readied b c p) v)
  Holds-step id h op old kept v = rw ((step-SameClients j r h op tt).clients) v

  pub Holds-run :
      (id : ℕ) (h : Hub j r) (ops : List (Op j r))
      → id < h.next_id
      → HasIds j r h
      → h.next_id + length ops < 2 ^ 64
      → All (Keeps id) ops
      → Holds (HashMap.get id h.clients)
      → Holds (HashMap.get id (run j r h ops).clients)
  unfolding run
  Holds-run id h [] old ids few kept v = v
  Holds-run id h (op ∷ ops) old ids few kept v =
      let (ids', low, high) = step-HasIds j r h op (omega arith) ids in
      Holds-run id (step j r h op) ops (omega arith) ids' (omega arith) kept.1
        (Holds-step id h op old kept.0 v)
