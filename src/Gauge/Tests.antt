-- ===== src/Gauge/Tests.antt =====
-- The fake gauge at concrete inputs.
use infinity_wasm_bridge.Prelude.{◌≡◌, refl, none, some, [], ◌∷◌, string_eq, true}
use infinity_wasm_bridge.Prelude.HashMap
use infinity_wasm_bridge.Wire.Msg.{CmdPayload, AckPayload, named_cmd, cmd, ack}
use infinity_wasm_bridge.Wire.Decode.{from_json}
use infinity_wasm_bridge.Wire.Sample
use infinity_wasm_bridge.Wire.Sample.{Tree, Printed, nil, str, num, obj, entries, trees}
use infinity_wasm_bridge.Host.Runtime.{value}
use infinity_wasm_bridge.Host.Hub.{Hub, new, register_client}
use infinity_wasm_bridge.Host.Steps.{begins, registers, step, run}
use infinity_wasm_bridge.Host.Server.{handle_text}
use infinity_wasm_bridge.Host.Command.{begin}
use infinity_wasm_bridge.Host.Pending.{new-HasSlots}
use infinity_wasm_bridge.Host.Sample.{pipes, no_traffic, no_slots}
use infinity_wasm_bridge.Gauge.Fake.{text, reply, read_frames, handle_command}
use infinity_wasm_bridge.Gauge.Replies.{reply-cmd, poll-read_frames}

abbrev query : CmdPayload Tree
query = named_cmd "abc-123" "equip_query" nil

abbrev query_text : Printed
query_text = Sample.text (
    obj (
      entries (
        ("t", str "cmd")
        ∷ ("id", str "abc-123")
        ∷ ("name", str "equip_query")
        ∷ ("payload", nil)
        ∷ [])))

query_text_read : from_json trees query_text ≡ some (cmd query)
unfolding from_json
query_text_read = refl

abbrev hub : Hub trees pipes
hub =
    run trees pipes (new trees pipes 16 no_traffic no_slots)
      (registers 3 100 ∷ begins "abc-123" ∷ [])

pending_found : HashMap.get "abc-123" hub.pending ≡ some 0
unfolding run step new begin HashMap.get HashMap.insert HashMap.remove register_client
pending_found = refl

query_is_answered :
    (answer : Printed) × (a : AckPayload Tree) × (reply trees (cmd query) ≡ answer ∷ [])
    × (from_json trees answer ≡ some (ack a))
    × (a.id ≡ "abc-123")
    × (a.is_ok ≡ true)
query_is_answered = reply-cmd trees query (λ e. cc)

query_comes_back :
    (answer : Printed) × (a : AckPayload Tree) × (read_frames trees (some (text query_text) ∷ [])
      ≡ answer ∷ [])
    × (pipes.poll 0 (handle_text trees pipes 1 120 answer hub).acks ≡ value a)
    × (a.id ≡ "abc-123")
    × (a.is_ok ≡ true)
query_comes_back =
    poll-read_frames trees pipes 1 120 query_text query hub 0 query_text_read (λ e. cc)
      (new-HasSlots trees pipes 16 no_traffic no_slots (registers 3 100 ∷ begins "abc-123" ∷ []))
      pending_found

slow_command_is_silent : handle_command trees "abc-123" (some "slow_command") nil ≡ none
unfolding handle_command
slow_command_is_silent = refl
