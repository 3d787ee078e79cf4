-- ===== src/Offload/Tests.antt =====
-- A job that is submitted and run, and the wakeup for its continuation (include/coro_epoll/
-- thread_pool.hpp, event_loop.hpp).
use cpp_coroutine_epoll.Common.{ℕ, ◌+◌, ◌<◌, ◌≡◌, ◌≢◌, refl, some, arith}
use cpp_coroutine_epoll.Common.Family.{count, total}
use cpp_coroutine_epoll.ThreadPool.Pool.{
  enqueue, take_or_exit, pop, asleep, submits, notifies_nobody,
}
use cpp_coroutine_epoll.ThreadPool.Conservation.{runs}
use cpp_coroutine_epoll.Offload.System.{
  Offload, begun, pushed, turns, posts_result, calls_pool, Reach, begin, works, others, WorkPath,
}
use cpp_coroutine_epoll.Offload.Once.{unposted, jobs_resumed_once}
use cpp_coroutine_epoll.Offload.Resumed.{accepted_resumed}

abbrev submitted : Offload
submitted = record begun { pool = (enqueue 7 begun.pool).0 }

abbrev two_submitted : Offload
two_submitted = record submitted { pool = (enqueue 8 submitted.pool).0 }

abbrev taken : Offload
taken = record two_submitted { pool = take_or_exit 1 two_submitted.pool }

taken-Reach : Reach 2 taken
unfolding enqueue
taken-Reach =
    works (others (others begin (calls_pool (submits 7))) (calls_pool (submits 8)))
      (turns 1 (omega arith) refl refl)

-- The function of job 7 has returned, and its callback is in the queue of the loop.
abbrev posting : Offload
posting = record taken { loop = pushed 7 taken.loop; poster = some (1, 7) }

posting-Reach : Reach 2 posting
unfolding enqueue take_or_exit
posting-Reach = works taken-Reach (posts_result 1 7 (omega arith) refl refl)

jobs_resumed_once_example :
    count 7 posting.pool.accepted + count 7 posting.foreign
    ≡ count 7 posting.pool.tasks
      + total (runs 7) 2 (unposted posting)
      + count 7 posting.loop.pending
      + count 7 posting.loop.taken
jobs_resumed_once_example = jobs_resumed_once posting-Reach 7

-- Both submitters have notified, and no worker slept.
abbrev told : Offload
told = record taken { pool = record taken.pool { notifying = 0 } }

nobody_asleep : (i : ℕ) → i < 2 → taken.pool.workers i ≢ asleep
unfolding enqueue take_or_exit pop
nobody_asleep i lt e = ground arith

told-Reach : Reach 2 told
unfolding enqueue take_or_exit pop
told-Reach =
    others (others taken-Reach (calls_pool (notifies_nobody 1 refl nobody_asleep)))
      (calls_pool (notifies_nobody 0 refl nobody_asleep))

accepted_resumed_example :
    (t : Offload) × WorkPath 2 told t
    × ((a : ℕ) → count a t.loop.taken ≡ count a told.pool.accepted + count a told.foreign)
accepted_resumed_example = accepted_resumed told-Reach (omega arith) refl refl refl
