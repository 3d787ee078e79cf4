-- ===== src/Wakeup/Protocol.antt =====
-- The threads of `post`, `stop` and `run` (include/coro_epoll/event_loop.hpp) as one step relation.
-- A step is what happens between two points at which another thread can see a difference: the mutex
-- `pending_mutex_` makes `push` and `wakeup` of one `post` exclude the `swap` of the loop.
use cpp_coroutine_epoll.Common.{
  ℕ, suc, ◌+◌, ◌-◌, ◌^◌, ◌<◌, ◌≡◌, Bool, true, false, List, [], ◌∷◌, ◌++◌, ltb, if◌then◌else◌,
}

-- Where the thread of `run` stands.
pub data Pc : Type 0 where
  top : Pc  -- at the test `!stopped_`
  draining : Pc  -- before the swap of `drain_pending_tasks`
  waiting : Pc  -- in epoll_wait
  woken : Pc  -- in `dispatch` of the wakeup descriptor, before `drain_wakeup_fd`
  emptied : Pc  -- after `drain_wakeup_fd`, before the swap
  finished : Pc  -- `run` has returned

-- `counter` is the eventfd's; `posting` holds while a thread in `post` holds the mutex, after the
-- push and before its write to the eventfd is done; `stopping` counts the calls of `stop` that have
-- set `stopped_` and not yet written. `posted` and `taken` are history: all callbacks pushed, and
-- all that the loop has swapped out to run, oldest first.
pub record Shared : Type 0 where
  pub pc : Pc
  pub counter : ℕ
  pub stopped : Bool
  pub pending : List ℕ
  pub posting : Bool
  pub stopping : ℕ
  pub posted : List ℕ
  pub taken : List ℕ

abbrev pub start : Shared
start = record {
  pc = top;
  counter = 0;
  stopped = false;
  pending = [];
  posting = false;
  stopping = 0;
  posted = [];
  taken = [];
}

-- write(2) of 1 to a non-blocking eventfd: EAGAIN, and no change, if the counter is at its maximum.
abbrev pub bump : ℕ → ℕ
bump n = if ltb n (2 ^ 64 - 2) then n + 1 else n

-- `local_tasks.swap(pending_tasks_)`
abbrev pub swapped : Shared → Pc → Shared
swapped s pc = record s { pc = pc; pending = []; taken = s.taken ++ s.pending }

-- A step that the thread of `run` can make of its own. It leaves epoll_wait only for the eventfd.
pub data LoopStep (s : Shared) : Shared → Type 0 where
  ends : s.pc ≡ top → s.stopped ≡ true → LoopStep s (record s { pc = finished })
  goes_on : s.pc ≡ top → s.stopped ≡ false → LoopStep s (record s { pc = draining })
  drains : s.pc ≡ draining → s.posting ≡ false → LoopStep s (swapped s waiting)
  wakes : s.pc ≡ waiting → 0 < s.counter → LoopStep s (record s { pc = woken })
  empties : s.pc ≡ woken → LoopStep s (record s { pc = emptied; counter = 0 })
  redrains : s.pc ≡ emptied → s.posting ≡ false → LoopStep s (swapped s top)

-- What the kernel may do to a loop in epoll_wait, and need not: fail the call with EINTR, or report
-- events on other descriptors only.
pub data KernelStep (s : Shared) : Shared → Type 0 where
  interrupted : s.pc ≡ waiting → KernelStep s (record s { pc = top })
  elsewhere : s.pc ≡ waiting → KernelStep s (record s { pc = top })

-- A step of a thread in `post` or `stop`. An EINTR of its write changes nothing and is retried.
pub data CallerStep (s : Shared) : Shared → Type 0 where
  pushes :
      (callback : ℕ)
      → s.posting ≡ false
      → CallerStep s (record s {
        posting = true;
        pending = s.pending ++ callback ∷ [];
        posted = s.posted ++ callback ∷ [];
      })
  signals : s.posting ≡ true → CallerStep s (record s { posting = false; counter = bump s.counter })
  sets_stop : CallerStep s (record s { stopped = true; stopping = suc s.stopping })
  signals_stop :
      (n : ℕ)
      → s.stopping ≡ suc n
      → CallerStep s (record s { stopping = n; counter = bump s.counter })

pub data Reach : Shared → Type 0 where
  begin : Reach start
  loop : {s t : Shared} → Reach s → LoopStep s t → Reach t
  kernel : {s t : Shared} → Reach s → KernelStep s t → Reach t
  caller : {s t : Shared} → Reach s → CallerStep s t → Reach t

-- Steps of the loop alone, with no help of the kernel but the signal of the eventfd.
pub data LoopPath (s : Shared) : Shared → Type 0 where
  here : LoopPath s s
  then_step : {t u : Shared} → LoopPath s t → LoopStep t u → LoopPath s u
