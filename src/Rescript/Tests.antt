-- ===== src/Rescript/Tests.antt =====
-- The relay in ReScript at concrete inputs.
use infinity_wasm_bridge.Prelude.{
  ◌≡◌, refl, true, false, some, List, [], ◌∷◌, inl, inr, err, string_eq, String, map, arith,
}
use infinity_wasm_bridge.Prelude.HashMap
use infinity_wasm_bridge.Wire.Sample
use infinity_wasm_bridge.Wire.Sample.{
  Tree, Printed, nil, flag, num, str, obj, entries, broken, trees,
}
use infinity_wasm_bridge.Relay.Dedup.{new_ring}
use infinity_wasm_bridge.Relay.State.{Relay}
use infinity_wasm_bridge.Relay.Bridge
use infinity_wasm_bridge.Relay.Bridge.{an_error, a_value, rejected_value}
use infinity_wasm_bridge.Relay.Life
use infinity_wasm_bridge.Rescript.Bridge.{
  Traffic, from_host, from_gauge, times_out, fails, run, on_wasm_message, parse_comm_bus_response,
  parse_wire_msg, reject_request, call_failed,
}
use infinity_wasm_bridge.Rescript.Runs.{op_of, run-same}

abbrev relay : Relay trees
relay = record {
  has_bus = true;
  is_bound = true;
  is_open = true;
  pending = ("7-1", "abc-123") ∷ [];
  timers = ("7-1", "abc-123") ∷ [];
  request_seq = 1;
  dedup = new_ring 128;
  to_host = [];
  to_gauge = [];
}

abbrev command : Printed
command =
    Sample.text (obj (entries (("t", str "cmd") ∷ ("id", str "abc-124") ∷ ("payload", nil) ∷ [])))

abbrev response : Printed
response =
    Sample.text (
      obj (entries (("requestId", str "7-1") ∷ ("ok", flag false) ∷ ("error", str "no fuel") ∷ [])))

abbrev event : Printed
event =
    Sample.text
      (obj (entries (("t", str "event") ∷ ("name", str "telemetry") ∷ ("data", nil) ∷ [])))

abbrev traffic : List (Traffic trees)
traffic =
    from_host true 8 command
    ∷ from_gauge response
    ∷ from_gauge event
    ∷ from_gauge broken
    ∷ fails "8-2" (an_error "no bus")
    ∷ times_out "8-2"
    ∷ []

abbrev shown : Tree → String
shown v = "[object Object]"

run-same_example :
    run trees relay traffic ≡ some (Life.run trees relay (map (op_of trees shown) traffic))
run-same_example =
    run-same trees shown relay traffic
      (
        λ e. ("abc-124", refl),
        (
          inr (
              inr (
                "7-1",
                err "no fuel",
                record {
                  body = _;
                  parsed = refl;
                  request = refl;
                  success = refl;
                  response = refl;
                  error = refl;
                },
              )),
          (inr (inl (_, refl, refl)), (inl (_, refl), (tt, (tt, tt)))),
        ),
      )
      (omega arith)

-- A call that fails with something that is no `Error` is told to the host in TypeScript only.
refusal_is_unknown :
    ((call_failed trees "7-1" (a_value "busy") relay).to_host
      ≡ Sample.text (rejected_value trees "abc-123" "unknown") ∷ [])
    × ((Bridge.call_failed trees "7-1" (a_value "busy") relay).to_host
        ≡ Sample.text (rejected_value trees "abc-123" "busy") ∷ [])
unfolding call_failed reject_request Bridge.fail_request Bridge.send_value Bridge.ws_send
    HashMap.get
refusal_is_unknown = (refl, refl)

-- A response of success without a flag for it counts as one in TypeScript only.
abbrev unflagged : Printed
unflagged = Sample.text (obj (entries (("requestId", str "7-1") ∷ ("response", num 1) ∷ [])))

unflagged_is_dropped :
    (on_wasm_message trees unflagged relay ≡ relay)
    × ((Bridge.on_wasm_message trees (λ v. "[object Object]") unflagged relay).pending ≡ [])
unfolding parse_wire_msg on_wasm_message Bridge.on_wasm_message parse_comm_bus_response
    Bridge.on_response HashMap.get HashMap.remove
unflagged_is_dropped = (refl, refl)
