-- ===== src/Host/Call.antt =====
-- `command` of crates/infinity-bridge-host/src/hub.rs as a whole, from its message to its result.
use infinity_wasm_bridge.Prelude.{ℕ, String, Option, none, some, List, Result, ok, err}
use infinity_wasm_bridge.Wire.Json.{Json}
use infinity_wasm_bridge.Wire.Error.{BridgeError, from_json_error}
use infinity_wasm_bridge.Wire.Msg.{AckPayload, cmd}
use infinity_wasm_bridge.Wire.Encode.{to_json}
use infinity_wasm_bridge.Host.Runtime.{Runtime, Poll, unused, waiting, value, dropped}
use infinity_wasm_bridge.Host.Hub.{Hub}
use infinity_wasm_bridge.Host.Command.{
  Waited, acked, closed, elapsed, make_cmd, begin, deliver, finish,
}
use infinity_wasm_bridge.Host.Steps.{Op, run}

module _ (j : Json) (r : Runtime j) where
  open j use {Value}

  -- `timeout(timeout, ack_rx).await`: what the receiver shows when its task wakes up, whether an ack,
  -- the end of the sender or the timer has woken it.
  abbrev pub awaited : Poll (AckPayload Value) → Waited Value
  awaited (value a) = acked a
  awaited dropped = closed
  awaited waiting = elapsed
  awaited unused = elapsed

  -- The steps of other tasks come in between: `before` while the lock of the clients is not taken
  -- yet, `meanwhile` until the task wakes up.
  unfoldable pub command :
      String
      → Option String
      → Value
      → ℕ
      → List (Op j r)
      → List (Op j r)
      → Hub j r
      → Result BridgeError Value × Hub j r
  command id name payload timeout before meanwhile h =
      elim (to_json j (cmd (make_cmd j r id name payload))) [
        | err e ↦ (err (from_json_error e), h)
        | ok message ↦
            let (s, begun) = begin j r id h in
            let (failure, sent) = deliver j r id message (run j r begun before) in
            elim failure [
              | some e ↦ (err e, sent)
              | none ↦
                  let woken = run j r sent meanwhile in
                  finish j r id timeout (awaited (r.poll s woken.acks)) woken
            ]
      ]
