-- ===== src/EventLoop/State.antt =====
-- The members of `EventLoop` in include/coro_epoll/event_loop.hpp, and those of the top-level tasks
-- that it owns. A coroutine handle is a number and a null handle is `none`; `resumed` is a history
-- variable, the handles that have been resumed for an event or at a spawn, oldest first.
use cpp_coroutine_epoll.Common.{ℕ, Bool, false, Option, none, List, ℤ}
use cpp_coroutine_epoll.System.{Exception}

pub record FdState : Type 0 where
  pub read_handle : Option ℕ
  pub write_handle : Option ℕ
  pub edge_trigger : Bool

abbrev pub no_waiter : FdState
no_waiter = record { read_handle = none; write_handle = none; edge_trigger = false }

-- A `Task<void>` of `tasks_`: its coroutine, whether that has come to its end, and the exception
-- that its promise keeps, and the sockets that are parameters of the coroutine, by descriptor: they
-- live in its frame, until the task is destroyed.
pub record TaskEntry : Type 0 where
  pub coroutine : ℕ
  pub done : Bool
  pub exception : Option Exception
  pub sockets : List ℤ

-- `kernel` is the epoll instance behind `epoll_fd_`; `signalled` says that the counter of the
-- eventfd behind `wakeup_fd_` is not 0; a posted callback is a number.
pub record EventLoop (K : Type 0) : Type 0 where
  pub kernel : K
  pub wakeup_fd : ℕ
  pub signalled : Bool
  pub stopped : Bool
  pub states : List (ℕ × FdState)
  pub tasks : List TaskEntry
  pub pending : List ℕ
  pub resumed : List ℕ
