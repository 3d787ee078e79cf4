-- ===== src/Offload.antt =====
-- include/coro_epoll/thread_pool.hpp and event_loop.hpp together: a job that a coroutine submits to the
-- pool, and the callback by which its result gets back to the event loop.
pub mod System
pub mod Once
pub mod Resumed
mod Tests
