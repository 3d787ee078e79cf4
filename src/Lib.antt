-- ===== src/Lib.antt =====
-- Verification of cpp-coroutine-epoll, a header-only C++20 library of coroutines on epoll.
--
-- The program. `EventLoop` (include/coro_epoll/event_loop.hpp) is a reactor for one thread: coroutines
-- wait in it for descriptors, `run` waits in epoll_wait and resumes them, and other threads hand it
-- callbacks by `post`. `TcpSocket`, `TcpServer` (include/coro_epoll/tcp.hpp) and `UdpSocket`
-- (include/coro_epoll/udp.hpp) are coroutines on top of it that repeat a system call until it does
-- not say EAGAIN. `ThreadPool` (include/coro_epoll/thread_pool.hpp) runs jobs on other threads and
-- posts the continuation to the loop of the coroutine that submitted them. `WorkerGroup`
-- (include/coro_epoll/worker_group.hpp) has one loop for each of its threads. The examples are servers
-- made of these.
--
-- The files. System has what the kernel and the C++ runtime provide: errno values, exceptions, flags,
-- and `Epoll`, the interface of epoll_ctl(2), with the laws that the loop relies on; every model of
-- the loop takes it as an argument, and EventLoop/Fixture has an instance for tests.
-- EventLoop: State has the members of the class; Interest registration (`add_interest_impl`,
--   `update_or_remove_impl`, `active_events`, `remove`); Tasks what coroutines do to the loop and the
--   loop to its lists (`spawn`, `post`, `stop`, `drain_pending_tasks`, `compact_finished_tasks`); Run
--   `dispatch` and `run`. What a resumed coroutine does is an argument, `Program`: a list of calls on
--   the loop, which may depend on its whole state. `run` is a function of the answers that epoll_wait
--   gives, one after the other: when they are used up, it is blocked. Setup has the constructor and the
--   destructor, on Linux and on macOS; Pipe, Kqueue and MacLoop have what replaces the eventfd and epoll
--   on macOS, on a kqueue that is an interface like `Epoll`, with an instance for tests in MacFixture, and
--   MacTasks and MacRun the rest of the class there, up to `run`. MacRuns has the rule by which an
--   invariant of the calls of coroutines and of events is one of `run`. Waiting says what it is that a
--   coroutine waits, and which calls of others spare it.
-- Wakeup: the same class as a step relation, for the threads of `post` and `stop` beside that of
--   `run`: Protocol has the steps, between which all interleavings are possible; what the
--   kernel may do to a loop in epoll_wait is apart from what the loop does of its own. EventLoop/Shown
--   relates the two, and EventLoop/Refines has what epoll_wait may report of the eventfd.
-- ThreadPool: Pool is the class as a step relation on the queue, the workers and the condition variable,
--   whose notifications are steps of their own; Job is the state
--   by which a result gets back to its coroutine.
-- Offload: a pool and a loop together. System has what a worker does between the end of a job and the
--   wakeup of the loop, beside the steps of the loop and of all other threads. Each of its steps is one
--   of ThreadPool/Pool or of Wakeup/Protocol, or one of each, so that what is known of both holds there.
-- WorkerGroup: Group has the class; its counter is one of 64 bits and wraps around.
-- Socket: what the socket classes share: Handle has construction, move and close, Ownership any
--   sequence of those on any number of objects; Fcntl what prepares a new descriptor on macOS.
-- Tcp: Read, Write and Server have the coroutines and `listen`. A coroutine is a function of the
--   answers of its system calls, EAGAIN coming together with the end of the wait behind it; when the
--   answers are used up, it is pending. MacServer has what is built differently on macOS, where accept(2)
--   takes no flags and more calls can fail.
-- Udp: Endpoint, Datagrams and Bind (MacBind on macOS), and what the echo servers
--   (examples/udp-echo-server/main.cpp, examples/udp-echo-server-et/main.cpp) take out of the buffer.
-- Cli: the arguments of the examples. Numbers has std::from_chars on the whole of an argument, as each
--   `parse_…` function uses it, and Programs these functions, server by server.
-- Servers: the examples as compositions of the above. Echo has `handle_client` of the two TCP echo
--   servers, by rounds of read, job and write; Accept `accept_and_handle`; Datagrams the loops of the UDP
--   echo servers; Startup the six `main` functions. EchoBytes has an interface, `Reader`, which both ways
--   to read a socket fill.
-- Proxy: examples/proxy-server/main.cpp. Connect has `async_connect_to` (MacConnect on macOS), Relay one
--   direction of a session, Session both of them on the same two sockets, and Server the accept loop
--   with all sessions.
-- Http: examples/http-server/main.cpp. Lines has `read_line`, Request `parse_request`,
--   Response the routes and the text of responses, Files what is loaded at the start, and Client the loop
--   of a connection; std::to_string is an argument, and so are the contents of the disk, and Server the
--   accept loop with all connections of an event loop.
--   The loop over the header lines runs on fuel; one more than the number of bytes to come is
--   enough.
-- Task: include/coro_epoll/task.hpp. Frames has a chain of coroutines that await each other as a
--   machine: promises, `co_await`, and the continuation that `final_suspend` resumes. Handles has
--   the operations of `Task<T>` itself, on numbered coroutine frames, Void those of `Task<void>`, whose
--   continuations are in VoidFrames, and Class the interface that both fill, with the programs on task objects.
-- The other files of a folder have its proofs, and Tests what is run.
--
-- Bounds. Sizes, handles and descriptors are natural numbers, `int` where -1 matters is ℤ. The flags
-- of epoll are 32-bit numbers on which only bitwise operations act, so that nothing wraps around. The
-- byte counts of the socket loops are bounded by the size of the caller's buffer.
--
-- On fuel run also the loop of `delete_kqueue_filter`, where one more than the interruptions to come is
-- enough (Deletion), and that of `drain_wakeup_fd` on macOS, where the bytes in the pipe are.
--
-- Not modelled: output on std::cout and std::cerr; the disk, which is an argument;
-- `address` of an endpoint, which only calls inet_ntop; what becomes of a callback that refers to a socket which a failing `main` has destroyed;
-- running out of memory; the scheduler of the threads, of which every interleaving is allowed.
pub mod Common
pub mod System
pub mod EventLoop
pub mod Wakeup
pub mod ThreadPool
pub mod Offload
pub mod WorkerGroup
pub mod Socket
pub mod Tcp
pub mod Udp
pub mod Http
pub mod Task
pub mod Cli
pub mod Servers
pub mod Proxy
