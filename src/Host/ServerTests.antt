-- ===== src/Host/ServerTests.antt =====
-- A connection and a command at concrete inputs.
use mathlib.Core.Option
use infinity_wasm_bridge.Prelude.{
  String, ◌≡◌, refl, true, false, none, some, List, [], ◌∷◌, ok, arith, if◌then◌else◌, ◌==◌, nat_eq,
  string_eq, unwrap_or, ◌↔◌,
}
use infinity_wasm_bridge.Prelude.HashMap
use infinity_wasm_bridge.Wire.Msg.{AckPayload, ping, pong, ok_ack}
use infinity_wasm_bridge.Wire.Decode.{from_json}
use infinity_wasm_bridge.Wire.Sample
use infinity_wasm_bridge.Wire.Sample.{
  Tree, Printed, nil, str, num, flag, obj, entries, broken, trees,
}
use infinity_wasm_bridge.Host.Runtime.{value, waiting}
use infinity_wasm_bridge.Host.Hub.{Hub, new, unregister_client}
use infinity_wasm_bridge.Host.Command.{
  acked, elapsed, begin, deliver_all, deliver, finish, dispatch_ack,
}
use infinity_wasm_bridge.Host.Steps.{Op, unregisters, acknowledges, finishes, step, run}
use infinity_wasm_bridge.Host.Server.{
  Signal, handle_socket, text, other, received, reaped, gives_up, handle_text, read_loop, ping_tick,
}
use infinity_wasm_bridge.Host.Reap.{survivor}
use infinity_wasm_bridge.Host.Connection.{answers_probe, ping_tick-gives_up, queue-ping}
use infinity_wasm_bridge.Host.Reader.{heard, get-handle_text}
use infinity_wasm_bridge.Host.Listening.{texts, get-read_loop, publish_all, event_tx-read_loop}
use infinity_wasm_bridge.Host.Own.{IsOwnRun, read_loop-IsOwnRun}
use infinity_wasm_bridge.Host.Socket.{get-handle_socket}
use infinity_wasm_bridge.Host.Slots.{HasSlots}
use infinity_wasm_bridge.Host.Pending.{new-HasSlots}
use infinity_wasm_bridge.Host.Answered.{poll-command, finish-eq_iff}
use infinity_wasm_bridge.Host.Sample.{pipes, no_traffic, no_slots, no_events}
use infinity_wasm_bridge.Host.Tests.{gauge, hub, hub-HasIds, gauge_found, history}

abbrev ping_text : Printed
ping_text = Sample.text (obj (entries (("t", str "ping") ∷ ("ts", num 7) ∷ [])))

abbrev not_ready_text : Printed
not_ready_text = Sample.text (
    obj (
      entries (
        ("t", str "event")
        ∷ ("name", str "__bridge_ready")
        ∷ ("data", obj (entries (("ready", flag false) ∷ [])))
        ∷ [])))

abbrev signals : List (Signal Printed)
signals =
    received 120 (some (text not_ready_text))
    ∷ received 130 (some other)
    ∷ received 140 (some (text broken))
    ∷ reaped
    ∷ []

tick_of_gauge :
    (ping_tick trees pipes 1 30 100 7 hub).0
    ≡ answers_probe trees pipes 1 hub.net (survivor trees pipes 30 100 (HashMap.get 1 hub.clients))
tick_of_gauge = ping_tick-gives_up trees pipes 1 30 100 7 hub hub-HasIds.unique

ping_text_read : from_json trees ping_text ≡ some (ping (some 7))
unfolding from_json
ping_text_read = refl

ping_is_answered :
    (answer : Printed) × (from_json trees answer ≡ some (pong (some 7)))
    × ((handle_text trees pipes 1 120 ping_text hub).net.queues 3 ≡ answer ∷ [])
ping_is_answered =
    queue-ping trees pipes 1 120 ping_text (some 7) hub gauge ping_text_read gauge_found refl

hello_text_is_recorded :
    HashMap.get 1 (handle_text trees pipes 1 120 not_ready_text hub).clients
    ≡ Option.map (heard trees pipes 1 120 (from_json trees not_ready_text)) (some gauge)
unfolding HashMap.get
hello_text_is_recorded = get-handle_text trees pipes 1 120 not_ready_text hub 1

get-read_loop_example :
    let (again, h') = read_loop trees pipes 1 signals hub in
    (again ≡ gives_up) × (HashMap.get 1 h'.clients ≡ none)
get-read_loop_example = get-read_loop trees pipes 1 signals hub 1

event_tx-read_loop_example :
    (read_loop trees pipes 1 signals hub).1.event_tx
    ≡ publish_all trees pipes 1 (texts signals) no_events
event_tx-read_loop_example = event_tx-read_loop trees pipes 1 signals hub

new-HasSlots_example :
    HasSlots trees pipes (run trees pipes (new trees pipes 16 no_traffic no_slots) history)
new-HasSlots_example = new-HasSlots trees pipes 16 no_traffic no_slots history

pub hub-HasSlots : HasSlots trees pipes hub
unfolding HashMap.get
hub-HasSlots = record { waits = λ id s e. ground arith; apart = λ id k s e f. ground arith }

-- The other client leaves before the command is delivered, its own one while it waits; a second ack
-- of the same id and the end of the command come later.
abbrev pub before : List (Op trees pipes)
before = unregisters 2 ∷ []

abbrev meanwhile : List (Op trees pipes)
meanwhile = unregisters 1 ∷ acknowledges (ok_ack "other" nil) ∷ []

abbrev later : List (Op trees pipes)
later = acknowledges (ok_ack "abc-123" (num 8)) ∷ finishes "abc-123" 5 elapsed ∷ []

abbrev pub answered : AckPayload Tree
answered = ok_ack "abc-123" (num 7)

abbrev waits : Hub trees pipes
waits =
    let begun = (begin trees pipes "abc-123" hub).1 in
    let sent = (deliver trees pipes "abc-123" broken (run trees pipes begun before)).1 in
    run trees pipes sent meanwhile

delivered :
    (deliver trees pipes "abc-123" broken
      (run trees pipes (begin trees pipes "abc-123" hub).1 before)).0
    ≡ none
unfolding begin run step deliver unregister_client HashMap.remove deliver_all
delivered = refl

poll-command_example :
    (pipes.poll 0 waits.acks ≡ waiting)
    × (pipes.poll 0 (run trees pipes (dispatch_ack trees pipes answered waits) later).acks
        ≡ value answered)
unfolding begin
poll-command_example =
    poll-command trees pipes hub "abc-123" broken answered before meanwhile later hub-HasSlots
      (tt, tt) (tt, (λ e. cc, tt)) refl delivered

finish_of_other :
    let (result, h') = finish trees pipes "abc-123" 5 (acked answered) waits in
    (HashMap.get "other" h'.pending
      ≡ (if ◌==◌ {K = String} "abc-123" "other" then none else HashMap.get "other" waits.pending))
    × ((result ≡ ok (num 7)) ↔ (
        (a : AckPayload Tree) × (acked answered ≡ acked a)
        × (a.is_ok ≡ true)
        × (unwrap_or a.response nil ≡ num 7)))
finish_of_other = finish-eq_iff trees pipes "abc-123" "other" 5 (acked answered) waits (num 7)

reader_takes_own_steps : IsOwnRun trees pipes 1 hub (read_loop trees pipes 1 signals hub).1
reader_takes_own_steps = read_loop-IsOwnRun trees pipes 1 signals hub

next_id_unused : HashMap.get 3 hub.clients ≡ none
unfolding HashMap.get
next_id_unused = refl

socket_leaves_clients :
    let (again, h') = handle_socket trees pipes 5 110 signals hub in
    (again ≡ gives_up) × (HashMap.get 1 h'.clients ≡ HashMap.get 1 hub.clients)
socket_leaves_clients = get-handle_socket trees pipes 5 110 signals hub 1 next_id_unused refl
