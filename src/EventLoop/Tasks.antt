-- ===== src/EventLoop/Tasks.antt =====
-- What coroutines do to the loop between two suspensions, and the loop's own lists: `spawn`, `post`,
-- `stop`, `drain_pending_tasks` and `compact_finished_tasks` of include/coro_epoll/event_loop.hpp,
-- and the two orders in which the socket classes close a descriptor.
use cpp_coroutine_epoll.Common.{
  ℕ, Bool, true, false, Option, none, some, List, [], ◌∷◌, ◌++◌, ◌==◌, if◌then◌else◌, ℤ, pos,
  negsuc,
}
use cpp_coroutine_epoll.System.{Exception, is_std, epollin, epollout, Epoll}
use cpp_coroutine_epoll.EventLoop.State.{TaskEntry, EventLoop}
use cpp_coroutine_epoll.EventLoop.Interest.{add_interest_impl, remove}

pub data Direction : Type 0 where
  reading writing : Direction

-- The event of the awaiters `readable` and `readable_et`, `writable` and `writable_et`.
abbrev pub event_of : Direction → ℕ
event_of reading = epollin
event_of writing = epollout

-- A call that running coroutines make on their loop.
-- `waits d et fd h`: coroutine `h` does `co_await loop.readable(fd)` or one of its variants.
-- `spawns h fds`: `h` is spawned, and its frame holds sockets with the descriptors `fds`; it is resumed
-- at once, so that the calls that it makes until it suspends are the next ones.
-- `finishes h e`: the task of `h` comes to its end, with the exception `e` if it threw.
pub data Call : Type 0 where
  waits : Direction → Bool → ℤ → ℕ → Call
  removes closes_socket closes_server : ℤ → Call
  posts : ℕ → Call
  spawns : ℕ → List ℤ → Call
  finishes : ℕ → Option Exception → Call
  stops : Call

-- The user's code: what a resumed coroutine does until it suspends again, the coroutines that it
-- starts or continues meanwhile included; and what a posted callback does and throws.
pub record Program (K : Type 0) : Type 0 where
  pub segment : ℕ → EventLoop K → List Call
  pub callback : ℕ → EventLoop K → List Call × Option Exception

unfoldable pub finish : ℕ → Option Exception → List TaskEntry → List TaskEntry
finish h e [] = []
finish h e (t ∷ ts) =
    (if t.coroutine == h then record t { done = true; exception = e } else t) ∷ finish h e ts

-- The loop of `compact_finished_tasks`: an exception that is no std::exception leaves it.
unfoldable pub uncaught : List TaskEntry → Option Exception
uncaught [] = none
uncaught (t ∷ ts) = elim (if t.done then t.exception else none) [
  | none ↦ uncaught ts
  | some e ↦ if is_std e then uncaught ts else some e
]

-- std::remove_if with `task.done()`.
unfoldable pub unfinished : List TaskEntry → List TaskEntry
unfinished [] = []
unfinished (t ∷ ts) = let rest = unfinished ts in if t.done then rest else t ∷ rest

unfoldable pub sockets_of_finished : List TaskEntry → List ℤ
sockets_of_finished [] = []
sockets_of_finished (t ∷ ts) =
    let rest = sockets_of_finished ts in if t.done then t.sockets ++ rest else rest

module _ (epoll : Epoll) where
  abbrev Loop : Type 0
  Loop = EventLoop epoll.Kernel

  -- `TcpSocket::close` and `UdpSocket::close`, as far as the loop and the kernel see it.
  unfoldable pub close_socket : ℤ → Loop → Loop
  close_socket (negsuc n) l = l
  close_socket (pos fd) l =
      let l' = remove epoll (pos fd) l in record l' { kernel = epoll.close fd l'.kernel }

  -- `TcpServer::close` closes the descriptor first.
  unfoldable pub close_server : ℤ → Loop → Loop
  close_server (negsuc n) l = l
  close_server (pos fd) l = remove epoll (pos fd) (record l { kernel = epoll.close fd l.kernel })

  abbrev pub wakeup : Loop → Loop
  wakeup l = record l { signalled = true }

  unfoldable pub post : ℕ → Loop → Loop
  post callback l = wakeup (record l { pending = l.pending ++ callback ∷ [] })

  unfoldable pub stop : Loop → Loop
  stop l = wakeup (record l { stopped = true })

  -- `tasks_.emplace_back` in `spawn`.
  unfoldable pub add_task : ℕ → List ℤ → Loop → Loop
  add_task h fds l = record l {
    tasks = l.tasks ++ record { coroutine = h; done = false; exception = none; sockets = fds } ∷ [];
  }

  -- `spawn`, up to the first call that the coroutine makes.
  unfoldable pub begin_task : ℕ → List ℤ → Loop → Loop
  unfolding add_task
  begin_task h fds l = let l' = add_task h fds l in record l' { resumed = l'.resumed ++ h ∷ [] }

  unfoldable pub run_call : Call → Loop → Loop
  run_call (waits d et fd h) l = (add_interest_impl epoll fd (event_of d) h et l).0
  run_call (removes fd) l = remove epoll fd l
  run_call (closes_socket fd) l = close_socket fd l
  run_call (closes_server fd) l = close_server fd l
  run_call (posts callback) l = post callback l
  run_call (spawns h fds) l = begin_task h fds l
  run_call (finishes h e) l = record l { tasks = finish h e l.tasks }
  run_call stops l = stop l

  unfoldable pub run_calls : List Call → Loop → Loop
  run_calls [] l = l
  run_calls (c ∷ cs) l = run_calls cs (run_call c l)

  unfoldable pub close_sockets : List ℤ → Loop → Loop
  close_sockets [] l = l
  close_sockets (fd ∷ fds) l = close_sockets fds (close_socket fd l)

  -- Erasing a finished task destroys its frame, and with it the sockets among its parameters.
  unfoldable pub compact_finished_tasks : Loop → Loop × Option Exception
  compact_finished_tasks l = elim (uncaught l.tasks) [
    | some e ↦ (l, some e)
    | none ↦ (
      close_sockets (sockets_of_finished l.tasks) (record l { tasks = unfinished l.tasks }),
      none,
    )
  ]

  module _ (program : Program epoll.Kernel) where
    -- `handle.resume()`
    unfoldable pub resume : ℕ → Loop → Loop
    resume h l = run_calls (program.segment h l) (record l { resumed = l.resumed ++ h ∷ [] })

    unfoldable pub spawn : ℕ → List ℤ → Loop → Loop
    spawn h fds l = resume h (add_task h fds l)

    -- The `while` loop of `drain_pending_tasks`: an exception discards the callbacks that remain.
    unfoldable pub run_callbacks : List ℕ → Loop → Loop × Option Exception
    run_callbacks [] l = (l, none)
    run_callbacks (c ∷ cs) l =
        let (calls, thrown) = program.callback c l in
        let l' = run_calls calls l in
        elim thrown [ none ↦ run_callbacks cs l' | some e ↦ (l', some e) ]

    unfoldable pub drain_pending_tasks : Loop → Loop × Option Exception
    drain_pending_tasks l = run_callbacks l.pending (record l { pending = [] })
