-- ===== src/EventLoop.antt =====
-- include/coro_epoll/event_loop.hpp: the single-threaded reactor.
pub mod State
pub mod Setup
pub mod Pipe
pub mod Kqueue
pub mod Deletion
pub mod MacLoop
pub mod Filters
pub mod MacKept
pub mod MacRegistered
pub mod MacStale
pub mod MacTasks
pub mod MacRun
pub mod MacRuns
pub mod MacWakes
pub mod MacRunRegistered
pub mod Interest
pub mod Tasks
pub mod Run
pub mod Registered
pub mod Resumes
pub mod Shown
pub mod Refines
pub mod RefinesTests
pub mod Pending
pub mod NoLostWaiter
pub mod Owned
pub mod Waiting
pub mod Spared
pub mod Waited
pub mod Fixture
pub mod MacFixture
mod MacTests
mod MacRunTests
mod Tests
