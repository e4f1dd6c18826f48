-- ===== src/Wasm.antt =====
-- crates/infinity-bridge-wasm: the gauge's side, a command router behind a CommBus callback.
pub mod Handler
pub mod Router
pub mod Routing
pub mod Bus
pub mod Bridge
pub mod Dispatch
pub mod Relayed
pub mod Kept
mod Tests
