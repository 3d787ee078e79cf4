-- ===== src/Tcp.antt =====
-- include/coro_epoll/tcp.hpp: `TcpSocket` and `TcpServer`.
pub mod Read
pub mod Drain
pub mod Write
pub mod Delivery
pub mod Server
pub mod MacServer
pub mod MacAccepted
pub mod Accepted
pub mod Single
mod Tests
