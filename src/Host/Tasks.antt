-- ===== src/Host/Tasks.antt =====
-- The reader and the ping task of crates/infinity-bridge-host/src/server.rs register no client.
use infinity_wasm_bridge.Prelude.{
  ℕ, ◌≡◌, refl, none, some, List, [], ◌∷◌, All, nat_eq, Bool-cases, inl, inr, Result-cases,
  contains, ◌%◌, ◌^◌,
}
use infinity_wasm_bridge.Wire.Json.{Json}
use infinity_wasm_bridge.Wire.Msg.{ping}
use infinity_wasm_bridge.Wire.Encode.{to_json}
use infinity_wasm_bridge.Host.Runtime.{Runtime}
use infinity_wasm_bridge.Host.Hub.{Hub, reap_dead_clients}
use infinity_wasm_bridge.Host.Steps.{Op, registers, reaps, sends, step, run}
use infinity_wasm_bridge.Host.Frame.{IsTraffic}
use infinity_wasm_bridge.Host.Server.{
  Signal, text, close, other, reaped, received, read_round, ping_tick,
}
use infinity_wasm_bridge.Host.Own.{IsOwn, handle_text-IsOwnRun}
use infinity_wasm_bridge.Host.Quiet.{IsQuiet, Shrinks, run-Shrinks}

module _ (j : Json) (r : Runtime j) where
  IsOwn-IsQuiet : (id : ℕ) (op : Op j r) → IsOwn j r id op → IsQuiet j r op
  IsOwn-IsQuiet id (registers tx now) own = absurd own
  IsOwn-IsQuiet id op own = refl

  IsOwn-All : (id : ℕ) (ops : List (Op j r)) → All (IsOwn j r id) ops → All (IsQuiet j r) ops
  IsOwn-All id [] own = tt
  IsOwn-All id (op ∷ ops) own = (IsOwn-IsQuiet id op own.0, IsOwn-All id ops own.1)

  pub IsTraffic-IsQuiet : (op : Op j r) → IsTraffic j r op → IsQuiet j r op
  IsTraffic-IsQuiet (registers tx now) t = absurd t
  IsTraffic-IsQuiet op t = refl

  -- `h'` is reached from `h` by steps that register no client.
  abbrev pub IsQuietRun : Hub j r → Hub j r → Type 0
  IsQuietRun h h' = (ops : List (Op j r)) × All (IsQuiet j r) ops × (h' ≡ run j r h ops)

  pub IsQuietRun-Shrinks : (h h' : Hub j r) → IsQuietRun h h' → Shrinks j r h h'
  IsQuietRun-Shrinks h h' (ops, quiet, same) = rw same (run-Shrinks j r h ops quiet)

  pub read_round-IsQuietRun :
      (id : ℕ) (signal : Signal j.Text) (h : Hub j r) → IsQuietRun h (read_round j r id signal h).1
  unfolding read_round run
  read_round-IsQuietRun id (received now (some (text raw))) h =
      let (ops, own, same) = handle_text-IsOwnRun j r id now raw h in
      (ops, IsOwn-All id ops own, same)
  read_round-IsQuietRun id reaped h = ([], tt, refl)
  read_round-IsQuietRun id (received now none) h = ([], tt, refl)
  read_round-IsQuietRun id (received now (some close)) h = ([], tt, refl)
  read_round-IsQuietRun id (received now (some other)) h = ([], tt, refl)

  -- A step of the ping task.
  abbrev pub IsProbing : Op j r → Type 0
  IsProbing (reaps timeout now) = Unit
  IsProbing (sends id raw) = Unit
  IsProbing op = ⊥

  pub IsProbing-IsQuiet : (op : Op j r) → IsProbing op → IsQuiet j r op
  IsProbing-IsQuiet (reaps timeout now) probing = refl
  IsProbing-IsQuiet (sends id raw) probing = refl
  IsProbing-IsQuiet op probing = absurd probing

  IsProbing-All : (ops : List (Op j r)) → All IsProbing ops → All (IsQuiet j r) ops
  IsProbing-All [] probing = tt
  IsProbing-All (op ∷ ops) probing = (IsProbing-IsQuiet op probing.0, IsProbing-All ops probing.1)

  pub ping_tick-run :
      (id ping_timeout now millis : ℕ) (h : Hub j r)
      → (ops : List (Op j r)) × All IsProbing ops
        × ((ping_tick j r id ping_timeout now millis h).1 ≡ run j r h ops)
  unfolding ping_tick run step
  ping_tick-run id ping_timeout now millis h =
      let (dead, left) = reap_dead_clients j r ping_timeout now h in
      elim (Bool-cases (contains dead id)) [
        | inl named ↦ (reaps ping_timeout now ∷ [], (tt, tt), rw named)
        | inr spared ↦ elim (Result-cases (to_json j (ping (some (millis % 2 ^ 64))))) [
          | inl (probe, printed) ↦
              (reaps ping_timeout now ∷ sends id probe ∷ [], (tt, (tt, tt)), rw (spared, printed))
          | inr (e, failed) ↦ (reaps ping_timeout now ∷ [], (tt, tt), rw (spared, failed))
        ]
      ]

  pub ping_tick-IsQuietRun :
      (id ping_timeout now millis : ℕ) (h : Hub j r)
      → IsQuietRun h (ping_tick j r id ping_timeout now millis h).1
  ping_tick-IsQuietRun id ping_timeout now millis h =
      let (ops, probing, same) = ping_tick-run id ping_timeout now millis h in
      (ops, IsProbing-All ops probing, same)
