-- ===== src/Gauge/SystemTests.antt =====
-- The gauge in the simulator at concrete inputs: the simulator records the calls, and its bytes are a
-- text or no text at all.
use infinity_wasm_bridge.Prelude.{String, ◌≡◌, refl, true, Option, none, some, List, [], ◌∷◌, ok}
use infinity_wasm_bridge.Wire.Msg.{event, new_event}
use infinity_wasm_bridge.Wire.Decode.{from_json}
use infinity_wasm_bridge.Wire.Sample
use infinity_wasm_bridge.Wire.Sample.{Printed, broken, nil, num, str, obj, entries, trees}
use infinity_wasm_bridge.Wasm.Bridge.{Bridge, new_bridge}
use infinity_wasm_bridge.Gauge.Sim.{new_state, state_json}
use infinity_wasm_bridge.Gauge.System.{
  Msfs, MyGauge, new_gauge, Signal, frame, arrives, update, live,
}
use infinity_wasm_bridge.Gauge.Steady.{IsSteady, live-IsSteady, update-called}

abbrev simulator : Msfs Printed
simulator = record {
  World = List (String × Option Printed);
  Subscription = String;
  Bytes = Option Printed;
  subscribe = λ name w. (ok name, w);
  call_all = λ name bytes w. (ok tt, (name, bytes) ∷ w);
  as_bytes = λ t. some t;
  from_utf8 = λ bytes. bytes;
  from_utf8-as_bytes = λ t. refl;
}

abbrev bridge : Bridge String
bridge = record { subscription = "myaddon/bridge_call"; response_event = "myaddon/bridge_resp" }

abbrev gauge : MyGauge trees simulator num
gauge = (new_state 15, bridge)

the_gauge_is_built : new_gauge trees simulator num 15 [] ≡ (some gauge, [])
unfolding new_gauge new_bridge
the_gauge_is_built = refl

-- The command `equip_cmd` for entry 1, as the relay wraps it.
abbrev toggle : Printed
toggle = Sample.text (
    obj (
      entries (
        ("requestId", str "r1")
        ∷ (
          "payload",
          obj (
              entries (
                ("t", str "cmd")
                ∷ ("id", str "abc-123")
                ∷ ("name", str "equip_cmd")
                ∷ ("payload", obj (entries (("equipIdx", num 1) ∷ [])))
                ∷ [])),
        )
        ∷ [])))

abbrev signals : List (Signal trees simulator num)
signals = frame ∷ arrives (some toggle) ∷ arrives none ∷ arrives (some broken) ∷ frame ∷ []

live-IsSteady_example : IsSteady (new_state 15) (live trees simulator num signals gauge []).0.0
live-IsSteady_example = live-IsSteady trees num simulator signals gauge []

frame_tells_telemetry :
    (text : Printed) × (from_json trees text
      ≡ some (event (new_event "telemetry" (state_json trees num gauge.0))))
    × (update trees simulator num gauge [] ≡ (true, gauge, ("myaddon/bridge_resp", some text) ∷ []))
frame_tells_telemetry = update-called trees num simulator (new_state 15) bridge []
