-- ===== src/Gauge/System.antt =====
-- The gauge of examples/wasm_gauge_example.rs in the simulator: its backend, its construction and its life
-- cycle. The crate `msfs`, which speaks bytes, is a parameter; what is written to the console is left
-- out.
use infinity_wasm_bridge.Prelude.{
  String, ◌≡◌, Bool, true, Option, none, some, List, [], ◌∷◌, Result, ok, err,
}
use infinity_wasm_bridge.Wire.Json.{Json}
use infinity_wasm_bridge.Wasm.Handler.{BridgeHandler}
use infinity_wasm_bridge.Wasm.Router
use infinity_wasm_bridge.Wasm.Bus.{CommBus}
use infinity_wasm_bridge.Wasm.Bridge.{
  Bridge, BridgeConfig, new_bridge_config, new_bridge, emit, dispatch,
}
use infinity_wasm_bridge.Gauge.Sim.{SimState, new_state, state_json, gauge_router}

-- `msfs::comm_bus`, and the conversions of std between a text and its bytes.
pub record Msfs (Text : Type 0) : Type 1 where
  pub World : Type 0
  pub Subscription : Type 0
  pub Bytes : Type 0
  pub subscribe : String → World → Result String Subscription × World
  -- `BroadcastFlags::ALL`.
  pub call_all : String → Bytes → World → Result String (Unit {0}) × World
  pub as_bytes : Text → Bytes
  pub from_utf8 : Bytes → Option Text
  pub from_utf8-as_bytes : (t : Text) → from_utf8 (as_bytes t) ≡ some t

abbrev pub msfs_comm_bus : {Text : Type 0} → Msfs Text → CommBus Text
msfs_comm_bus m = record {
  World = m.World;
  Subscription = m.Subscription;
  subscribe = m.subscribe;
  call = λ event text w. m.call_all event (m.as_bytes text) w;
}

abbrev pub gauge_config : BridgeConfig
gauge_config = new_bridge_config "myaddon/bridge_call" "myaddon/bridge_resp"

module _ (j : Json) (m : Msfs j.Text) {F : Type 0} (f64 : F → j.Value) where
  open j use {Value, Text}
  open m use {World, Bytes, from_utf8}

  abbrev pub MyGauge : Type 0
  MyGauge = SimState F × Bridge m.Subscription

  abbrev pub gauge_handler : BridgeHandler Value (SimState F)
  gauge_handler = Router.router_handler (gauge_router j f64)

  -- `MyGauge::new`; `none` is the panic of `expect`.
  unfoldable pub new_gauge : F → World → Option MyGauge × World
  new_gauge temperature w =
      let (result, w') = new_bridge j (msfs_comm_bus m) gauge_config w in
      (elim result [ ok bridge ↦ some (new_state temperature, bridge) | err e ↦ none ], w')

  -- The callback that the backend hands to `msfs`: bytes that are no text are passed over.
  unfoldable pub callback : String → Bytes → SimState F → World → SimState F × World
  callback response_event bytes s w = elim (from_utf8 bytes) [
    | none ↦ (s, w)
    | some raw ↦ dispatch j (msfs_comm_bus m) gauge_handler response_event raw s w
  ]

  abbrev pub init : MyGauge → World → Bool × MyGauge × World
  init g w = (true, g, w)

  -- The result of `emit` is dropped.
  unfoldable pub update : MyGauge → World → Bool × MyGauge × World
  update (s, bridge) w =
      (true, (s, bridge), (emit j (msfs_comm_bus m) bridge "telemetry" (state_json j f64 s) w).1)

  abbrev pub kill : MyGauge → World → Bool × MyGauge × World
  kill g w = (true, g, w)

  -- What the simulator does with the gauge: a frame, or bytes on the event of its subscription.
  pub data Signal : Type 0 where
    frame : Signal
    arrives : Bytes → Signal

  unfoldable pub react : Signal → MyGauge → World → MyGauge × World
  unfolding update callback
  react frame g w = let (runs, g', w') = update g w in (g', w')
  react (arrives bytes) (s, bridge) w =
      let (s', w') = callback bridge.response_event bytes s w in ((s', bridge), w')

  unfoldable pub live : List Signal → MyGauge → World → MyGauge × World
  live [] g w = (g, w)
  live (signal ∷ signals) g w = let (g', w') = react signal g w in live signals g' w'
