-- ===== src/Servers.antt =====
-- The example servers (examples/*/main.cpp), as compositions of the library's parts.
pub mod Echo
pub mod EchoBytes
pub mod EchoAll
pub mod Accept
pub mod AcceptAll
pub mod Datagrams
pub mod Replies
pub mod Startup
pub mod Bounds
pub mod Balanced
mod MainTests
mod Tests
