-- ===== src/Wasm/Handler.antt =====
-- `BridgeHandler` of crates/infinity-bridge-wasm/src/bridge.rs. A handler's closures change state
-- that they share by `RefCell`: it is passed through them as `S`.
use infinity_wasm_bridge.Prelude.{String, Option, Result}

-- What a command returns, and the state after it.
abbrev pub Answer : Type 0 → Type 0 → Type 0
Answer V S = Result String V × S

pub record BridgeHandler (V S : Type 0) : Type 0 where
  pub on_command : Option String → V → S → Answer V S
  pub on_event : String → V → S → S

-- A closure is a handler of commands that hears no event.
abbrev pub closure_handler :
    {V S : Type 0} → (Option String → V → S → Answer V S) → BridgeHandler V S
closure_handler f = record { on_command = f; on_event = λ name payload s. s }
