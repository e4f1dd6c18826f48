-- ===== src/Wire.antt =====
-- crates/infinity-bridge-wire: the wire messages, their JSON form and the error type.
pub mod Json
pub mod Error
pub mod Msg
pub mod Encode
pub mod Decode
pub mod Fields
pub mod RoundTrip
pub mod Decoded
pub mod Sample
mod Tests
mod UnitTests
