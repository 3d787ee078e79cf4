-- ===== src/Offload/System.antt =====
-- A pool (include/coro_epoll/thread_pool.hpp) whose jobs post their continuations to one event loop
-- (include/coro_epoll/event_loop.hpp), with the threads that use both, as steps.
use cpp_coroutine_epoll.Common.{
  ℕ, suc, ◌<◌, ◌≡◌, true, false, Option, none, some, List, [], ◌∷◌, ◌++◌,
}
use cpp_coroutine_epoll.Common.Family.{update}
use cpp_coroutine_epoll.Wakeup.Protocol.{Shared, start, bump, LoopStep, KernelStep}
use cpp_coroutine_epoll.ThreadPool.Pool.{
  idle, asleep, running, Pool, fresh, take_or_exit, may_go_on, CallerStep,
}

-- `poster` is the worker that has pushed the callback of a job, with that job, and has not yet written
-- to the eventfd, so that it holds `pending_mutex_`. The callback of a job has the number of the job;
-- `foreign` is history, the callbacks that other threads have posted.
pub record Offload : Type 0 where
  pub pool : Pool
  pub loop : Shared
  pub poster : Option (ℕ × ℕ)
  pub foreign : List ℕ

abbrev pub begun : Offload
begun = record { pool = fresh; loop = start; poster = none; foreign = [] }

-- `pending_tasks_.push` in `post`
abbrev pub pushed : ℕ → Shared → Shared
pushed callback s = record s {
  posting = true;
  pending = s.pending ++ callback ∷ [];
  posted = s.posted ++ callback ∷ [];
}

-- `wakeup` in `post`, and the release of the mutex
abbrev pub signalled : Shared → Shared
signalled s = record s { posting = false; counter = bump s.counter }

-- The end of a job: `worker_loop` goes on.
abbrev pub finished_job : ℕ → ℕ → Pool → Pool
finished_job i job p = record p {
  workers = update p.workers i idle;
  completed = p.completed ++ job ∷ [];
}

-- What the workers of the pool, `n` of them, and the thread of `run` do.
pub data Work (n : ℕ) (s : Offload) : Offload → Type 0 where
  turns :
      (i : ℕ)
      → i < n
      → s.pool.workers i ≡ idle
      → may_go_on s.pool ≡ true
      → Work n s (record s { pool = take_or_exit i s.pool })
  sleeps :
      (i : ℕ)
      → i < n
      → s.pool.workers i ≡ idle
      → may_go_on s.pool ≡ false
      → Work n s (record s { pool = record s.pool { workers = update s.pool.workers i asleep } })
  -- The function of the job has returned or thrown, and `continuation_loop->post` is called.
  posts_result :
      (i job : ℕ)
      → i < n
      → s.pool.workers i ≡ running job
      → s.loop.posting ≡ false
      → Work n s (record s { loop = pushed job s.loop; poster = some (i, job) })
  ends_job :
      (i job : ℕ)
      → s.poster ≡ some (i, job)
      → Work n s
          (record s { pool = finished_job i job s.pool; loop = signalled s.loop; poster = none })
  loops : {l : Shared} → LoopStep s.loop l → Work n s (record s { loop = l })

-- What other threads do: `submit` and `stop` of the pool, with the notifications of its condition, and
-- `post` and `stop` of the loop; and what the kernel may do to the loop.
pub data Other (n : ℕ) (s : Offload) : Offload → Type 0 where
  calls_pool : {p : Pool} → CallerStep n s.pool p → Other n s (record s { pool = p })
  interrupts : {l : Shared} → KernelStep s.loop l → Other n s (record s { loop = l })
  pushes :
      (callback : ℕ)
      → s.loop.posting ≡ false
      → Other n s (record s { loop = pushed callback s.loop; foreign = s.foreign ++ callback ∷ [] })
  signals :
      s.loop.posting ≡ true → s.poster ≡ none → Other n s (record s { loop = signalled s.loop })
  sets_stop :
      Other n s
        (record s { loop = record s.loop { stopped = true; stopping = suc s.loop.stopping } })
  signals_stop :
      (k : ℕ)
      → s.loop.stopping ≡ suc k
      → Other n s
          (record s { loop = record s.loop { stopping = k; counter = bump s.loop.counter } })

pub data Reach (n : ℕ) : Offload → Type 0 where
  begin : Reach n begun
  works : {s t : Offload} → Reach n s → Work n s t → Reach n t
  others : {s t : Offload} → Reach n s → Other n s t → Reach n t

-- Steps of the workers and the loop alone.
pub data WorkPath (n : ℕ) : Offload → Offload → Type 0 where
  here : {s : Offload} → WorkPath n s s
  then_work : {s t u : Offload} → Work n s t → WorkPath n t u → WorkPath n s u
