-- ===== src/Wakeup.antt =====
-- The cross-thread side of include/coro_epoll/event_loop.hpp: `post` and `stop`, called by any number
-- of threads, against the loop of `run`, with the eventfd between them.
pub mod Protocol
pub mod Delivery
pub mod Takes
mod Tests
