-- ===== src/App/Listener.antt =====
-- The task of examples/host-app/src/main.rs that prints the events from the gauges, among the steps of
-- the hub.
use infinity_wasm_bridge.Prelude.{Bool, true, false, List, [], ◌∷◌, ◌++◌, if◌then◌else◌}
use infinity_wasm_bridge.Wire.Json.{Json}
use infinity_wasm_bridge.Wire.Msg.{EventPayload}
use infinity_wasm_bridge.Host.Runtime.{Runtime, Received, nothing_yet, received, lagged}
use infinity_wasm_bridge.Host.Hub.{Hub, subscribe_events}
use infinity_wasm_bridge.Host.Steps.{Op, step}

-- The events that it printed, oldest first, and whether its loop goes round.
pub record Listener (V : Type 0) : Type 0 where
  pub printed : List (EventPayload V)
  pub listens : Bool

-- A step of the hub, or a round of the listener.
pub data Turn (j : Json) (r : Runtime j) : Type 0 where
  works : Op j r → Turn j r
  polls : Turn j r

module _ (j : Json) (r : Runtime j) (events : r.Subscriber) where
  open j use {Value}

  abbrev pub State : Type 0
  State = Listener Value × Hub j r

  -- `while let Ok(event) = events.recv().await`: a receiver that fell behind gives an error.
  abbrev pub handle_received : Received (EventPayload Value) → Listener Value → Listener Value
  handle_received nothing_yet l = l
  handle_received (received e) l = record l { printed = l.printed ++ e ∷ [] }
  handle_received lagged l = record l { listens = false }

  unfoldable pub turn : Turn j r → State → State
  turn (works op) (l, h) = (l, step j r h op)
  turn polls (l, h) =
      let (got, b) = r.recv events h.event_tx in
      if l.listens then (handle_received got l, record h { event_tx = b }) else (l, h)

  unfoldable pub turns : List (Turn j r) → State → State
  turns [] s = s
  turns (t ∷ ts) s = turns ts (turn t s)

-- The start of the task.
abbrev pub listen : (j : Json) (r : Runtime j) → Hub j r → r.Subscriber × Listener j.Value × Hub j r
listen j r h =
    let (events, h') = subscribe_events j r h in
    (events, record { printed = []; listens = true }, h')
