-- ===== src/App.antt =====
-- examples/host-app/src/main.rs: the application that demonstrates the host's side.
pub mod Demo
pub mod Listener
pub mod Listened
pub mod Entries
pub mod Answered
pub mod Announced
mod Tests
mod ListenerTests
