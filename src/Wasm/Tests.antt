-- ===== src/Wasm/Tests.antt =====
-- The gauge's side at concrete inputs: a router that counts, on a bus that records its calls.
use infinity_wasm_bridge.Prelude.{
  ℕ, ◌+◌, String, ◌≡◌, refl, ◌↔◌, ◌⊎◌, true, some, List, [], ◌∷◌, ok, err, is_some, if◌then◌else◌,
  ◌==◌, string_eq,
}
use infinity_wasm_bridge.Wire.Msg.{WireMsg, CmdPayload, cmd, event, named_cmd, new_event}
use infinity_wasm_bridge.Wire.Encode.{serialize}
use infinity_wasm_bridge.Wire.Decode.{from_json}
use infinity_wasm_bridge.Wire.Sample.{
  Tree, Printed, nil, flag, num, str, obj, entries, text, broken, trees,
}
use infinity_wasm_bridge.Wasm.Router.{
  Router, CommandFn, EventFn, new, command, fallback, on_command, on_event, router_handler,
  unknown_command, first_named,
}
use infinity_wasm_bridge.Wasm.Router
use infinity_wasm_bridge.Wasm.Routing.{
  Routes, IsFirst, IsAbsent, on_command-eq_iff, on_event-IsFirst, on_command-command,
}
use infinity_wasm_bridge.Wasm.Bus.{CommBus}
use infinity_wasm_bridge.Wasm.Bridge.{
  Bridge, parse_envelope, response_value, send_response, dispatch, emit,
}
use infinity_wasm_bridge.Wasm.Dispatch.{Reaction, dispatch-Reaction}
use infinity_wasm_bridge.Wasm.Relayed.{Relayed, dispatch-Relayed, emit-called}

-- `bump` counts and answers the count before; `noted` adds ten.
abbrev bump : CommandFn Tree ℕ
bump payload n = (ok (num n), n + 1)

abbrev never : CommandFn Tree ℕ
never payload n = (err "never", n)

abbrev noted : EventFn Tree ℕ
noted payload n = n + 10

gauge : Router Tree ℕ
unfolding command new Router.event
gauge = Router.event (command (command new "bump" bump) "bump" never) "noted" noted

abbrev recorder : CommBus Printed
recorder = record {
  World = List (String × Printed);
  Subscription = String;
  subscribe = λ name w. (ok name, w);
  call = λ name t w. (ok tt, (name, t) ∷ w);
}

-- The second handler under a name is never reached.
first_bump : on_command gauge (some "bump") nil 4 ≡ (ok (num 4), 5)
unfolding gauge on_command
first_bump = refl

no_such_command : on_command gauge (some "jump") nil 4 ≡ (err (unknown_command (some "jump")), 4)
unfolding gauge on_command
no_such_command = refl

on_command-eq_iff_example :
    (on_command gauge (some "jump") nil 4 ≡ (err (unknown_command (some "jump")), 4))
    ↔ Routes gauge nil 4 (some "jump") (err (unknown_command (some "jump")), 4)
on_command-eq_iff_example =
    on_command-eq_iff gauge nil 4 (some "jump") (err (unknown_command (some "jump")), 4)

noted_runs :
    ((h : EventFn Tree ℕ) × IsFirst "noted" h gauge.events
      × (on_event gauge "noted" nil 4 ≡ h nil 4))
    ⊎ (IsAbsent "noted" gauge.events × (on_event gauge "noted" nil 4 ≡ 4))
noted_runs = on_event-IsFirst gauge nil 4 "noted"

later_command_changes_no_answer : on_command (command gauge "jump" never) (some "jump") nil 4 ≡ (
    if is_some (first_named "jump" gauge.commands)
    then on_command gauge (some "jump") nil 4
    else if ◌==◌ {K = String} "jump" "jump"
    then never nil 4
    else on_command gauge (some "jump") nil 4)
later_command_changes_no_answer = on_command-command gauge nil 4 "jump" never "jump"

abbrev bump_cmd : CmdPayload Tree
bump_cmd = named_cmd "abc-123" "bump" nil

abbrev wrapped : WireMsg Tree → Printed
wrapped m =
    text (obj (entries (("requestId", str "relay-1") ∷ ("payload", serialize trees m) ∷ [])))

dispatch-Reaction_example :
    Reaction trees recorder
      (router_handler gauge)
      "resp"
      4
      []
      (wrapped (cmd bump_cmd))
      (dispatch trees recorder (router_handler gauge) "resp" (wrapped (cmd bump_cmd)) 4 [])
dispatch-Reaction_example =
    dispatch-Reaction trees recorder (router_handler gauge) "resp" 4 [] (wrapped (cmd bump_cmd))

dispatch-Relayed_example :
    Relayed trees recorder
      (router_handler gauge)
      "resp"
      "relay-1"
      4
      []
      (cmd bump_cmd)
      (dispatch trees recorder (router_handler gauge) "resp" (wrapped (cmd bump_cmd)) 4 [])
dispatch-Relayed_example =
    dispatch-Relayed trees recorder (router_handler gauge) "resp" "relay-1" 4 [] (cmd bump_cmd)
      (wrapped (cmd bump_cmd)) tt refl

-- The count goes up and one response goes out.
bump_dispatched :
    dispatch trees recorder (router_handler gauge) "resp" (wrapped (cmd bump_cmd)) 4 [] ≡ (
      5,
      (
        "resp",
        text (
            obj (
              entries
                (("requestId", str "relay-1") ∷ ("ok", flag true) ∷ ("response", num 4) ∷ []))),
      )
          ∷ [],
    )
unfolding gauge on_command dispatch parse_envelope send_response response_value from_json serialize
bump_dispatched = refl

garbage_dispatched : dispatch trees recorder (router_handler gauge) "resp" broken 4 [] ≡ (4, [])
unfolding dispatch parse_envelope
garbage_dispatched = refl

abbrev bridge : Bridge String
bridge = record { subscription = "call"; response_event = "resp" }

event_is_called :
    (t : Printed) × (from_json trees t ≡ some (event (new_event "telemetry" (num 7))))
    × (emit trees recorder bridge "telemetry" (num 7) [] ≡ (ok tt, ("resp", t) ∷ []))
event_is_called = emit-called trees recorder bridge "telemetry" (num 7) []
