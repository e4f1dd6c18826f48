-- ===== src/Wasm/Bus.antt =====
-- `CommBusBackend` of crates/infinity-bridge-wasm/src/backend.rs: the trait is the gauge author's to
-- implement, so it is a parameter. The simulator that a call acts on is the state `World`.
use infinity_wasm_bridge.Prelude.{String, Result}

pub record CommBus (Text : Type 0) : Type 1 where
  pub World : Type 0
  pub Subscription : Type 0
  -- An error is the text that it displays. The callback is handed to the simulator, which calls
  -- `Bridge::dispatch` with each raw text.
  pub subscribe : String → World → Result String Subscription × World
  pub call : String → Text → World → Result String (Unit {0}) × World
