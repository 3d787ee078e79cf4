-- ===== src/EventLoop/MacTasks.antt =====
-- What coroutines do to the loop between two suspensions, and `post`, `stop`, `spawn`,
-- `drain_pending_tasks` and `compact_finished_tasks` of include/coro_epoll/event_loop.hpp, on macOS.
use cpp_coroutine_epoll.Common.{
  ℕ, Bool, Option, none, some, List, [], ◌∷◌, ◌++◌, true, false, ℤ, pos, negsuc,
}
use cpp_coroutine_epoll.System.{Exception}
use cpp_coroutine_epoll.EventLoop.State.{TaskEntry}
use cpp_coroutine_epoll.EventLoop.Pipe.{Pipe, wakeup_mac}
use cpp_coroutine_epoll.EventLoop.Kqueue.{Filter, filter_read, filter_write, Kqueue, MacLoop}
use cpp_coroutine_epoll.EventLoop.MacLoop.{add_interest_mac, remove_mac}
use cpp_coroutine_epoll.EventLoop.Tasks.{
  Direction, reading, writing, Call, waits, removes, closes_socket, closes_server, posts, spawns,
  finishes, stops, finish, uncaught, unfinished, sockets_of_finished,
}

-- The event of the awaiters `readable` and `readable_et`, `writable` and `writable_et`.
abbrev pub filter_of : Direction → Filter
filter_of reading = filter_read
filter_of writing = filter_write

-- The members of `EventLoop` on macOS; `pipe` is the pipe behind `wakeup_pipe_`. `resumed` and `thrown`
-- are history: the handles that have been resumed, and what changes of the registrations have thrown.
pub record MacEventLoop (kqueue : Kqueue) : Type 0 where
  pub registrations : MacLoop kqueue
  pub pipe : Pipe
  pub stopped : Bool
  pub tasks : List TaskEntry
  pub pending : List ℕ
  pub resumed : List ℕ
  pub thrown : List Exception

-- The user's code, as on Linux, and how often signals interrupt the write(2) of a `wakeup`.
pub record MacProgram (kqueue : Kqueue) : Type 0 where
  pub segment : ℕ → MacEventLoop kqueue → List Call
  pub callback : ℕ → MacEventLoop kqueue → List Call × Option Exception
  pub interrupted : MacEventLoop kqueue → ℕ

abbrev pub noted : Option Exception → List Exception → List Exception
noted none es = es
noted (some e) es = e ∷ es

module _ (kqueue : Kqueue) (program : MacProgram kqueue) where
  abbrev Loop : Type 0
  Loop = MacEventLoop kqueue

  unfoldable pub wait_mac : ℤ → Filter → ℕ → Bool → Loop → Loop
  wait_mac fd f handle et l =
      let (m, e) = add_interest_mac kqueue fd f handle et l.registrations in
      record l { registrations = m; thrown = noted e l.thrown }

  -- `remove`
  unfoldable pub forget_mac : ℤ → Loop → Loop
  forget_mac fd l = record l { registrations = remove_mac kqueue fd l.registrations }

  unfoldable pub close_fd : ℕ → MacLoop kqueue → MacLoop kqueue
  close_fd fd m = record m { kernel = kqueue.close fd m.kernel }

  -- `TcpSocket::close` and `UdpSocket::close`
  unfoldable pub close_socket_mac : ℤ → Loop → Loop
  unfolding close_fd
  close_socket_mac (negsuc n) l = l
  close_socket_mac (pos fd) l = record l {
    registrations = close_fd fd (remove_mac kqueue (pos fd) l.registrations);
  }

  -- `TcpServer::close`
  unfoldable pub close_server_mac : ℤ → Loop → Loop
  unfolding close_fd
  close_server_mac (negsuc n) l = l
  close_server_mac (pos fd) l = record l {
    registrations = remove_mac kqueue (pos fd) (close_fd fd l.registrations);
  }

  unfoldable pub wake : Loop → Loop
  wake l = record l { pipe = wakeup_mac (program.interrupted l) l.pipe }

  unfoldable pub post_mac : ℕ → Loop → Loop
  unfolding wake
  post_mac callback l = wake (record l { pending = l.pending ++ callback ∷ [] })

  unfoldable pub stop_mac : Loop → Loop
  unfolding wake
  stop_mac l = wake (record l { stopped = true })

  unfoldable pub add_task_mac : ℕ → List ℤ → Loop → Loop
  add_task_mac h fds l = record l {
    tasks = l.tasks ++ record { coroutine = h; done = false; exception = none; sockets = fds } ∷ [];
  }

  unfoldable pub run_call_mac : Call → Loop → Loop
  run_call_mac (waits d et fd h) l = wait_mac fd (filter_of d) h et l
  run_call_mac (removes fd) l = forget_mac fd l
  run_call_mac (closes_socket fd) l = close_socket_mac fd l
  run_call_mac (closes_server fd) l = close_server_mac fd l
  run_call_mac (posts callback) l = post_mac callback l
  run_call_mac (spawns h fds) l =
      let l' = add_task_mac h fds l in record l' { resumed = l'.resumed ++ h ∷ [] }
  run_call_mac (finishes h e) l = record l { tasks = finish h e l.tasks }
  run_call_mac stops l = stop_mac l

  unfoldable pub run_calls_mac : List Call → Loop → Loop
  run_calls_mac [] l = l
  run_calls_mac (c ∷ cs) l = run_calls_mac cs (run_call_mac c l)

  unfoldable pub close_sockets_mac : List ℤ → Loop → Loop
  close_sockets_mac [] l = l
  close_sockets_mac (fd ∷ fds) l = close_sockets_mac fds (close_socket_mac fd l)

  unfoldable pub compact_mac : Loop → Loop × Option Exception
  compact_mac l = elim (uncaught l.tasks) [
    | some e ↦ (l, some e)
    | none ↦ (
      close_sockets_mac (sockets_of_finished l.tasks) (record l { tasks = unfinished l.tasks }),
      none,
    )
  ]

  -- `handle.resume()`
  unfoldable pub resume_mac : ℕ → Loop → Loop
  resume_mac h l = run_calls_mac (program.segment h l) (record l { resumed = l.resumed ++ h ∷ [] })

  unfoldable pub spawn_mac : ℕ → List ℤ → Loop → Loop
  spawn_mac h fds l = resume_mac h (add_task_mac h fds l)

  -- The loop of `drain_pending_tasks`.
  unfoldable pub run_callbacks_mac : List ℕ → Loop → Loop × Option Exception
  run_callbacks_mac [] l = (l, none)
  run_callbacks_mac (c ∷ cs) l =
      let (calls, thrown) = program.callback c l in
      let l' = run_calls_mac calls l in
      elim thrown [ none ↦ run_callbacks_mac cs l' | some e ↦ (l', some e) ]

  unfoldable pub drain_pending_mac : Loop → Loop × Option Exception
  drain_pending_mac l = run_callbacks_mac l.pending (record l { pending = [] })
