-- ===== src/Host/WriterTests.antt =====
-- The writer and the ping task of a connection at concrete inputs.
use infinity_wasm_bridge.Prelude.{◌≡◌, refl, true, false, List, [], ◌∷◌, ◌++◌, arith, nat_eq}
use infinity_wasm_bridge.Prelude.HashMap
use infinity_wasm_bridge.Wire.Sample.{Printed, nil, broken, trees}
use infinity_wasm_bridge.Host.Hub.{Hub, unregister_client}
use infinity_wasm_bridge.Host.Send.{send_to}
use infinity_wasm_bridge.Host.Steps.{emits, sends, unregisters, touches, step}
use infinity_wasm_bridge.Host.Server.{gives_up, goes_on, ping_tick}
use infinity_wasm_bridge.Host.Pings.{Round, ping_loop, ping_loop-gives_up}
use infinity_wasm_bridge.Host.Writer.{
  Writer, new_writer, Turn, works, writes, hangs_up, turn, turns,
}
use infinity_wasm_bridge.Host.Written.{queue-turns, accepted_rounds, turns-accepted_rounds}
use infinity_wasm_bridge.Host.WriterEnd.{ping_tick-turns}
use infinity_wasm_bridge.Host.Sample.{pipes}
use infinity_wasm_bridge.Host.Tests.{hub, hub-HasIds}

-- Two texts are sent to client 1, the first is written, and the socket fails.
abbrev failing : List (Turn trees pipes)
failing =
    works (sends 1 broken)
    ∷ works (sends 1 broken)
    ∷ writes true
    ∷ works (unregisters 2)
    ∷ writes false
    ∷ writes true
    ∷ hangs_up
    ∷ []

abbrev final : Writer Printed × Hub trees pipes
final = turns trees pipes 3 failing (new_writer, hub)

queue-turns_example :
    ((rest : List Printed) × (final.1.net.queues 3 ≡ final.0.written ++ rest))
    × (final.0.loop ≡ gives_up → final.1.net.opened 3 ≡ false)
queue-turns_example = queue-turns trees pipes 3 failing hub refl

turns-accepted_rounds_example :
    let sent = step trees pipes (step trees pipes hub (sends 1 broken)) (sends 1 broken) in
    turns trees pipes 3 (accepted_rounds trees pipes 3 2) (new_writer, sent)
    ≡ (record { written = sent.net.queues 3; loop = goes_on }, sent)
unfolding step send_to HashMap.get
turns-accepted_rounds_example =
    let sent = step trees pipes (step trees pipes hub (sends 1 broken)) (sends 1 broken) in
    turns-accepted_rounds trees pipes 3 2 [] (broken ∷ broken ∷ []) sent refl (omega arith)

ping_tick-turns_example : (ping_tick trees pipes 1 15 101 7 final.1).0 ≡ gives_up
unfolding turns turn step send_to unregister_client HashMap.get
ping_tick-turns_example =
    ping_tick-turns trees pipes 3 1 15 101 7 failing hub refl hub-HasIds (omega arith) refl
      (omega arith) refl

abbrev rounds : List (Round trees pipes)
rounds =
    record { meanwhile = touches 2 104 ∷ []; late = 0; millis = 1 }
    ∷ record { meanwhile = []; late = 2; millis = 2 }
    ∷ record { meanwhile = emits "config_updated" nil ∷ []; late = 0; millis = 3 }
    ∷ record { meanwhile = []; late = 0; millis = 4 }
    ∷ []

ping_loop-gives_up_example : (ping_loop trees pipes 1 5 15 100 rounds hub).0 ≡ gives_up
unfolding HashMap.get
ping_loop-gives_up_example =
    ping_loop-gives_up trees pipes 1 5 15 100 100 rounds hub hub-HasIds (omega arith) (omega arith)
      (omega arith) ((λ now e. ground (arith, e), tt), (tt, ((λ now e. cc, tt), (tt, tt))))
      (omega arith) (omega arith)
