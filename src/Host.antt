-- ===== src/Host.antt =====
-- crates/infinity-bridge-host: the host's side, the hub of connected gauges.
pub mod Runtime
pub mod Hub
pub mod Send
pub mod Command
pub mod Steps
pub mod Frame
pub mod Status
pub mod Ids
pub mod Reap
pub mod Kept
pub mod Targets
pub mod Delivery
pub mod Broadcasting
pub mod Server
pub mod Grows
pub mod Writer
pub mod Written
pub mod WriterEnd
pub mod Connection
pub mod Pings
pub mod Reader
pub mod Listening
pub mod Published
pub mod Own
pub mod Quiet
pub mod Machine
pub mod Tasks
pub mod Alive
pub mod Teardown
pub mod Served
pub mod Socket
pub mod Slots
pub mod Pending
pub mod Settled
pub mod Answered
pub mod Call
pub mod Waiting
pub mod Returned
pub mod Reachable
pub mod After
pub mod BridgeServer
pub mod Sample
mod Tests
mod UnitTests
mod ServerTests
mod WriterTests
mod CommandTests
mod MachineTests
