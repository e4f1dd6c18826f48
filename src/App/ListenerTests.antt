-- ===== src/App/ListenerTests.antt =====
-- The listener of the application at concrete inputs.
use infinity_wasm_bridge.Prelude.{◌≡◌, ◌≤◌, refl, true, false, List, [], ◌∷◌, ◌++◌, arith, length}
use infinity_wasm_bridge.Wire.Msg.{EventPayload, new_event}
use infinity_wasm_bridge.Wire.Sample.{Tree, nil, trees}
use infinity_wasm_bridge.Host.Hub.{Hub, new}
use infinity_wasm_bridge.Host.Steps.{publishes, unregisters}
use infinity_wasm_bridge.Host.Sample.{pipes, no_events, no_traffic, no_slots}
use infinity_wasm_bridge.App.Listener.{Listener, Turn, works, polls, turns, listen}
use infinity_wasm_bridge.App.Listened.{published, published-turns, lagged-turns}

abbrev telemetry : EventPayload Tree
telemetry = new_event "telemetry" nil

abbrev hub : Hub trees pipes
hub = new trees pipes 16 no_traffic no_slots

abbrev history : List (Turn trees pipes)
history =
    works (publishes telemetry)
    ∷ polls
    ∷ works (unregisters 2)
    ∷ works (publishes (new_event "config_ack" nil))
    ∷ works (publishes telemetry)
    ∷ polls
    ∷ []

published-turns_example :
    let (events, start, h0) = listen trees pipes hub in
    let (l, h') = turns trees pipes events history (start, h0) in
    (rest : List (EventPayload Tree)) × (published trees pipes history ≡ l.printed ++ rest)
    × (length (published trees pipes history) ≤ 16
        → (l.listens ≡ true) × (h'.event_tx.left events ≡ rest))
unfolding new
published-turns_example = published-turns trees pipes history hub

-- Two events wait where the channel keeps one.
abbrev behind : Hub trees pipes
behind = record hub {
  event_tx = record no_events { left = λ k. telemetry ∷ telemetry ∷ []; keeps = 1 };
}

abbrev listener : Listener Tree
listener = record { printed = []; listens = true }

lagged-turns_example :
    (turns trees pipes 0 (polls ∷ history) (listener, behind)).0
    ≡ record listener { listens = false }
lagged-turns_example = lagged-turns trees pipes 0 history listener behind (omega arith) refl
