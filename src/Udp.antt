-- ===== src/Udp.antt =====
-- include/coro_epoll/udp.hpp: `UdpEndpoint` and `UdpSocket`, and the edge-triggered echo server that
-- examples/udp-echo-server-et builds on them.
pub mod Endpoint
pub mod Datagrams
pub mod Batch
pub mod Bind
pub mod MacBind
mod Tests
