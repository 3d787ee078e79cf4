-- ===== src/ThreadPool/Tests.antt =====
-- A pool of one thread that runs a job and is stopped.
use cpp_coroutine_epoll.Common.{ℕ, ◌<◌, ◌≡◌, ◌≢◌, refl, true, [], ◌∷◌, arith}
use cpp_coroutine_epoll.Common.Family.{update, count}
use cpp_coroutine_epoll.ThreadPool.Pool.{
  idle, exited, Pool, fresh, enqueue, stop, take_or_exit, Reach, begin, later, submits, stops,
  calls, notifies_all, notify_all, works, WorkerStep, turns, completes,
}
use cpp_coroutine_epoll.ThreadPool.Conservation.{exited_completed}
use cpp_coroutine_epoll.ThreadPool.Joins.{WorkerSteps, stopped_joins}

abbrev queued : Pool
queued = (enqueue 7 fresh).0

queued-Reach : Reach 1 queued
queued-Reach = later begin (calls (submits 7))

abbrev taken : Pool
taken = take_or_exit 0 queued

takes : WorkerStep 1 queued taken
unfolding enqueue take_or_exit
takes = turns 0 (omega arith) refl refl

taken-Reach : Reach 1 taken
taken-Reach = later queued-Reach (works takes)

abbrev completed : Pool
completed = record taken { workers = update taken.workers 0 idle; completed = 7 ∷ [] }

-- The job has run, the pool is stopped, and its thread is gone.
abbrev ended : Pool
ended = take_or_exit 0 (stop completed)

ended-Reach : Reach 1 ended
unfolding enqueue take_or_exit stop
ended-Reach =
    later (later (later taken-Reach (works (completes 0 7 (omega arith) refl))) (calls stops))
      (works (turns 0 (omega arith) refl refl))

all_exited : (i : ℕ) → i < 1 → ended.workers i ≡ exited
unfolding enqueue take_or_exit stop
all_exited i lt = ground arith

job_queued : queued.tasks ≢ []
unfolding enqueue
job_queued e = cc

exited_completed_example :
    (ended.stopped ≡ true) × ((a : ℕ) → count a ended.completed ≡ count a ended.accepted)
exited_completed_example = exited_completed ended-Reach (omega arith) all_exited

abbrev stopped_queued : Pool
stopped_queued = notify_all (record (stop queued) { stopping = 0 })

stopped-Reach : Reach 1 stopped_queued
unfolding stop enqueue
stopped-Reach = later (later queued-Reach (calls stops)) (calls (notifies_all 0 refl))

stopped_joins_example :
    (q : Pool) × WorkerSteps 1 stopped_queued q
    × (((i : ℕ) → i < 1 → q.workers i ≡ exited)
        × ((a : ℕ) → count a q.completed ≡ count a q.accepted))
unfolding stop enqueue
stopped_joins_example = stopped_joins stopped-Reach (omega arith) refl refl
