-- ===== src/ThreadPool.antt =====
-- include/coro_epoll/thread_pool.hpp: a pool that runs jobs off the network threads and posts the
-- continuation of each back to the event loop that it came from.
pub mod Job
pub mod Pool
pub mod Conservation
pub mod Notified
pub mod Progress
pub mod Quiet
pub mod Joins
mod Tests
