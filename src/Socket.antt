-- ===== src/Socket.antt =====
-- What the socket classes of include/coro_epoll/tcp.hpp and udp.hpp share: descriptors that move
-- between objects, and how a socket operation stands.
pub mod Io
pub mod Setup
pub mod Fcntl
pub mod Handle
pub mod Ownership
mod Tests
