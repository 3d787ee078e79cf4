-- ===== src/WorkerGroup.antt =====
-- include/coro_epoll/worker_group.hpp: N event loops, each on its own thread, and round-robin access.
pub mod Group
pub mod RoundRobin
pub mod Shutdown
mod Tests
