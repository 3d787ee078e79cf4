-- ===== src/Http.antt =====
-- examples/http-server/main.cpp: a minimal HTTP/1.1 server on `TcpSocket`.
pub mod Lines
pub mod Request
pub mod Parse
pub mod Response
pub mod Files
pub mod Client
pub mod Dialogue
pub mod Framing
pub mod Server
mod Tests
