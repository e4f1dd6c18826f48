-- ===== src/Host/CommandTests.antt =====
-- A whole command at concrete inputs.
use infinity_wasm_bridge.Prelude.{◌<◌, ◌^◌, ◌≡◌, none, List, [], ◌∷◌, ok, arith, length, string_eq}
use infinity_wasm_bridge.Prelude.HashMap
use infinity_wasm_bridge.Wire.Msg.{ok_ack}
use infinity_wasm_bridge.Wire.Sample.{nil, num, trees}
use infinity_wasm_bridge.Host.Hub.{unregister_client, is_ready}
use infinity_wasm_bridge.Host.Command.{begin}
use infinity_wasm_bridge.Host.Steps.{Op, unregisters, acknowledges, step, run}
use infinity_wasm_bridge.Host.Call.{command}
use infinity_wasm_bridge.Host.Returned.{asked, command-returned}
use infinity_wasm_bridge.Host.Sample.{pipes}
use infinity_wasm_bridge.Host.Tests.{hub}
use infinity_wasm_bridge.Host.ServerTests.{before, answered, hub-HasSlots}

-- The gauge leaves, and then two acks of the same id arrive.
abbrev meanwhile : List (Op trees pipes)
meanwhile = unregisters 1 ∷ acknowledges answered ∷ acknowledges (ok_ack "abc-123" (num 8)) ∷ []

few : length (asked trees pipes "abc-123" none nil 5 before meanwhile hub).clients < 2 ^ 64
unfolding run step begin unregister_client HashMap.remove
few = omega arith

command-returned_example :
    let (result, h') = command trees pipes "abc-123" none nil 5 before meanwhile hub in
    (result ≡ ok (num 7)) × (HashMap.get "abc-123" h'.pending ≡ none)
unfolding run step begin unregister_client HashMap.remove is_ready
command-returned_example =
    command-returned trees pipes "abc-123" none nil 5 before meanwhile hub hub-HasSlots (tt, tt)
      (tt, (tt, (tt, tt))) few
