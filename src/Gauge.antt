-- ===== src/Gauge.antt =====
-- examples/host-app/src/fake_gauge.rs: a gauge without the simulator, a client of the host's server.
pub mod Fake
pub mod Replies
pub mod Session
pub mod Sim
pub mod Equipment
pub mod System
pub mod Steady
pub mod Telemetry
pub mod Bounds
mod Tests
mod SessionTests
mod SystemTests
