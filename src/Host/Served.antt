-- ===== src/Host/Served.antt =====
-- The server only takes steps of its hub, so what holds after any steps of a hub holds of the server.
use infinity_wasm_bridge.Prelude.{ℕ, ◌≡◌, refl, List, [], ◌∷◌, ◌++◌, ◌∙◌, sym, ap, inl, inr}
use infinity_wasm_bridge.Wire.Json.{Json}
use infinity_wasm_bridge.Host.Runtime.{Runtime}
use infinity_wasm_bridge.Host.Hub.{Hub, new, connection_status, is_connected}
use infinity_wasm_bridge.Host.Steps.{Op, registers, unregisters, step, run, run-++}
use infinity_wasm_bridge.Host.Status.{connection_status-run}
use infinity_wasm_bridge.Host.Slots.{HasSlots}
use infinity_wasm_bridge.Host.Pending.{new-HasSlots}
use infinity_wasm_bridge.Host.Server.{Loop-cases, read_round, ping_tick}
use infinity_wasm_bridge.Host.Tasks.{read_round-IsQuietRun, ping_tick-IsQuietRun}
use infinity_wasm_bridge.Host.Machine.{
  System, accept, read, tick, Step, accepts, reads, ticks, serves, Reach, start, later,
}

module _ (j : Json) (r : Runtime j) where
  abbrev pub IsRun : Hub j r → Hub j r → Type 0
  IsRun h h' = (ops : List (Op j r)) × (h' ≡ run j r h ops)

  IsRun-trans : (h h' h'' : Hub j r) → IsRun h h' → IsRun h' h'' → IsRun h h''
  IsRun-trans h h' h'' (ops, same) (more, same') =
      (ops ++ more, same' ∙ ap (λ x. run j r x more) same ∙ sym (run-++ j r h ops more))

  Step-IsRun : {s t : System j r} → Step j r s t → IsRun s.hub t.hub
  unfolding accept read tick run step
  Step-IsRun (accepts tx now lt) = (registers tx now ∷ [], refl)
  Step-IsRun {s} (reads id k signal found running heard) =
      let (ops, _, same) = read_round-IsQuietRun j r id signal s.hub in
      elim (Loop-cases (read_round j r id signal s.hub).0) [
        | inl again ↦ rw (again, read) (ops, same)
        | inr over ↦
            rw (over, read)
              (IsRun-trans s.hub (read_round j r id signal s.hub).1 _ (ops, same)
                (unregisters id ∷ [], refl))
      ]
  Step-IsRun {s} (ticks id k ping_timeout now millis found running) =
      let (ops, _, same) = ping_tick-IsQuietRun j r id ping_timeout now millis s.hub in
      elim (Loop-cases (ping_tick j r id ping_timeout now millis s.hub).0) [
        | inl again ↦ rw (again, tick) (ops, same)
        | inr over ↦ rw (over, tick) (ops, same)
      ]
  Step-IsRun (serves op t) = (op ∷ [], refl)

  Reach-IsRun :
      {capacity : ℕ} {net : r.Net} {acks : r.Acks} {s : System j r}
      → Reach j r capacity net acks s
      → IsRun (new j r capacity net acks) s.hub
  unfolding run
  Reach-IsRun start = ([], refl)
  Reach-IsRun (later before st) = IsRun-trans _ _ _ (Reach-IsRun before) (Step-IsRun st)

  -- The hub of a server is at every moment one that steps of the hub lead to from a new one. So in
  -- every state the published connection status is true exactly when a client is registered, and
  -- each pending command waits on a channel of its own.
  pub Reach-HasSlots :
      {capacity : ℕ} {net : r.Net} {acks : r.Acks} {s : System j r}
      → Reach j r capacity net acks s
      → IsRun (new j r capacity net acks) s.hub
        × (connection_status j r s.hub ≡ is_connected j r s.hub)
        × HasSlots j r s.hub
  Reach-HasSlots {capacity} {net} {acks} before =
      let (ops, same) = Reach-IsRun before in
      (
        (ops, same),
        rw same (connection_status-run j r capacity net acks ops),
        rw same (new-HasSlots j r capacity net acks ops),
      )
