-- ===== src/Host/Teardown.antt =====
-- How a connection ends whose client the hub has dropped (`handle_socket` of
-- crates/infinity-bridge-host/src/server.rs, and the comment there on `reaped_tx`).
use infinity_wasm_bridge.Prelude.{
  ℕ, ◌≡◌, refl, true, false, none, some, ◌∙◌, arith, nat_eq, nat_beq_iff, Bool-cases, inl, inr, ◌⊎◌,
}
use infinity_wasm_bridge.Prelude.HashMap
use infinity_wasm_bridge.Wire.Json.{Json}
use infinity_wasm_bridge.Host.Runtime.{Runtime}
use infinity_wasm_bridge.Host.Server.{reaped, gives_up, read_round, ping_tick}
use infinity_wasm_bridge.Host.Connection.{ping_tick-gives_up}
use infinity_wasm_bridge.Host.Machine.{
  Connection, System, ended, gave_signal, read, tick, Step, reads, ticks, Reach, later,
}
use infinity_wasm_bridge.Host.Alive.{IsAlive, Reach-IsAlive}

module _ (j : Json) (r : Runtime j) where
  get-ended :
      (id : ℕ) (k : Connection) (s : System j r)
      → HashMap.get id s.connections ≡ some k
      → HashMap.get id (read j r id reaped s).connections ≡ some (ended k)
  unfolding read read_round
  get-ended id k s found =
      ground (arith, HashMap.get-modify id id ended s.connections, nat_beq_iff id id)

  tick-gone :
      (id ping_timeout now millis : ℕ) (k : Connection) (s : System j r)
      → IsAlive j r s
      → HashMap.get id s.connections ≡ some k
      → HashMap.get id s.hub.clients ≡ none
      → HashMap.get id (tick j r id ping_timeout now millis s).connections ≡ some (gave_signal k)
  unfolding tick
  tick-gone id ping_timeout now millis k s v found gone =
      let over : (ping_tick j r id ping_timeout now millis s.hub).0 ≡ gives_up =
        ping_tick-gives_up j r id ping_timeout now millis s.hub v.ids.unique ∙ rw gone in
      rw (over, tick)
        (ground (arith, HashMap.get-modify id id gave_signal s.connections, nat_beq_iff id id))

  -- From every state that the server comes to, a connection whose reader runs but whose client the hub
  -- has dropped is torn down: after one tick of its own ping task at most, at any time and with any
  -- timeout, its reader can hear the signal and end.
  pub Reach-reaped :
      {capacity : ℕ} {net : r.Net} {acks : r.Acks} {s : System j r} (id : ℕ) (k : Connection)
      (ping_timeout now millis : ℕ)
      → Reach j r capacity net acks s
      → HashMap.get id s.connections ≡ some k
      → k.reads ≡ true
      → HashMap.get id s.hub.clients ≡ none
      → (t : System j r) × ((t ≡ s) ⊎ (t ≡ tick j r id ping_timeout now millis s))
        × Reach j r capacity net acks t
        × Step j r t (read j r id reaped t)
        × (k' : Connection) × (HashMap.get id (read j r id reaped t).connections ≡ some k')
        × (k'.reads ≡ false)
  Reach-reaped {s} id k ping_timeout now millis before found running gone =
      let v = Reach-IsAlive j r before in
      elim (Bool-cases k.signalled) [
        | inl told ↦ (
          s,
          inl refl,
          before,
          reads id k reaped found running told,
          ended k,
          get-ended id k s found,
          refl,
        )
        | inr quiet ↦
            let pinging : k.pings ≡ true = ground (arith, v.watched id k) in
            let t = tick j r id ping_timeout now millis s in
            let found' = tick-gone id ping_timeout now millis k s v found gone in
            (
              t,
              inr refl,
              later before (ticks id k ping_timeout now millis found pinging),
              reads id (gave_signal k) reaped found' running refl,
              ended (gave_signal k),
              get-ended id (gave_signal k) t found',
              refl,
            )
      ]
