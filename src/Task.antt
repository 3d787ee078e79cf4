-- ===== src/Task.antt =====
-- include/coro_epoll/task.hpp: the coroutine type.
pub mod Frames
pub mod Handles
pub mod Lifetime
pub mod Resumption
pub mod Void
pub mod VoidFrames
pub mod Class
pub mod Alike
pub mod Same
pub mod Await
mod Tests
