-- ===== src/EventLoop/Waited.antt =====
-- A coroutine that waits (EventLoop/Waiting) through whole turns of `run` of
-- include/coro_epoll/event_loop.hpp, on Linux.
use cpp_coroutine_epoll.Common.{ℕ, ◌≡◌, false, All}
use cpp_coroutine_epoll.System.{Epoll}
use cpp_coroutine_epoll.EventLoop.State.{EventLoop}
use cpp_coroutine_epoll.EventLoop.Tasks.{Direction, Program}
use cpp_coroutine_epoll.EventLoop.Run.{Event, WaitAnswer, ready, failed}
use cpp_coroutine_epoll.EventLoop.Waiting.{ready_for, Waits, Spares}

module _ (epoll : Epoll) (d : Direction) (fd h : ℕ) (program : Program epoll.Kernel) where
  abbrev Loop : Type 0
  Loop = EventLoop epoll.Kernel

  abbrev StillWaits : Loop → Type 0
  StillWaits l = Waits epoll d fd h l

  -- An event that does not report the direction for the descriptor.
  abbrev pub IsOther : Event → Type 0
  IsOther e = e.fd ≡ fd → ready_for d e.events ≡ false

  abbrev pub AllOther : WaitAnswer → Type 0
  AllOther (ready es) = All IsOther es
  AllOther (failed e) = Unit

  -- No coroutine and no callback closes or removes the descriptor or takes the wait from `h`.
  pub record SparesAll : Type 0 where
    pub segments : (h' : ℕ) (l : Loop) → All (Spares epoll d fd h) (program.segment h' l)
    pub callbacks : (c : ℕ) (l : Loop) → All (Spares epoll d fd h) (program.callback c l).0
