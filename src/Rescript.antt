-- ===== src/Rescript.antt =====
-- rescript/infinity-bridge-relay: the relay once more, in ReScript.
pub mod Bridge
pub mod Counter
pub mod Same
pub mod Runs
mod Tests
