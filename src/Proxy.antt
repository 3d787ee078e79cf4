-- ===== src/Proxy.antt =====
-- The TCP proxy, examples/proxy-server/main.cpp.
pub mod Connect
pub mod MacConnect
pub mod Relay
pub mod Session
pub mod Copies
pub mod Server
mod Tests
