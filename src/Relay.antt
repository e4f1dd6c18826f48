-- ===== src/Relay.antt =====
-- ts/infinity-bridge-relay: the relay between the host and the gauge, in the simulator's HTML engine.
pub mod Dedup
pub mod State
pub mod Bridge
pub mod Forwarded
pub mod Through
pub mod Life
pub mod Greeted
pub mod RetryTimer
pub mod Socket
pub mod Reconnect
pub mod Stays
pub mod Binding
pub mod Timers
pub mod Expiry
pub mod Ring
mod Tests
mod SocketTests
