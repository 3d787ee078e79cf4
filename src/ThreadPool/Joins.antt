-- ===== src/ThreadPool/Joins.antt =====
-- `stop` and `join` of a pool (include/coro_epoll/thread_pool.hpp): its workers finish what is queued,
-- and exit.
use cpp_coroutine_epoll.Common.{
  ℕ, zero, suc, ◌<◌, ◌≡◌, inl, inr, refl, true, ◌∙◌, List, [], ◌∷◌, arith,
}
use cpp_coroutine_epoll.Common.Family.{count}
use cpp_coroutine_epoll.ThreadPool.Pool.{
  exited, Pool, pop, take_or_exit, WorkerStep, turns, sleeps, completes, Reach, later, works,
}
use cpp_coroutine_epoll.ThreadPool.Conservation.{exited_completed}
use cpp_coroutine_epoll.ThreadPool.Notified
use cpp_coroutine_epoll.ThreadPool.Progress.{stopped_progress, measure, WorkerStep-measure}

-- A sequence of steps of the workers.
pub data WorkerSteps (n : ℕ) : Pool → Pool → Type 0 where
  here : {p : Pool} → WorkerSteps n p p
  then_works : {p q r : Pool} → WorkerStep n p q → WorkerSteps n q r → WorkerSteps n p r

pop-stopped : (i : ℕ) (tasks : List ℕ) (p : Pool) → (pop i tasks p).stopped ≡ p.stopped
unfolding pop
pop-stopped i [] p = refl
pop-stopped i (t ∷ ts) p = refl

WorkerStep-stopped : {n : ℕ} {p q : Pool} → WorkerStep n p q → p.stopped ≡ true → q.stopped ≡ true
unfolding take_or_exit
WorkerStep-stopped {n} {p} (turns i lt free go) stopped = ground (arith, pop-stopped i p.tasks p)
WorkerStep-stopped {n} {p} (sleeps i lt free stays) stopped = stopped
WorkerStep-stopped {n} {p} (completes i job lt busy) stopped = stopped

pop-stopping : (i : ℕ) (tasks : List ℕ) (p : Pool) → (pop i tasks p).stopping ≡ p.stopping
unfolding pop
pop-stopping i [] p = refl
pop-stopping i (t ∷ ts) p = refl

WorkerStep-stopping : {n : ℕ} {p q : Pool} → WorkerStep n p q → q.stopping ≡ p.stopping
unfolding take_or_exit
WorkerStep-stopping {n} {p} (turns i lt free go) = ground (arith, pop-stopping i p.tasks p)
WorkerStep-stopping (sleeps i lt free stays) = refl
WorkerStep-stopping (completes i job lt busy) = refl

-- The workers of a stopped pool have come to their end, and all jobs with them.
abbrev pub Joined : ℕ → Pool → Type 0
Joined n q =
    ((i : ℕ) → i < n → q.workers i ≡ exited) × ((a : ℕ) → count a q.completed ≡ count a q.accepted)

joins_within :
    (n k : ℕ) (p : Pool)
    → Reach n p
    → 0 < n
    → p.stopped ≡ true
    → p.stopping ≡ 0
    → measure n p < k
    → (q : Pool) × WorkerSteps n p q × Joined n q
joins_within n zero p reach some_thread stopped notified small = absurd (omega arith)
joins_within n (suc k) p reach some_thread stopped notified small =
    elim (stopped_progress n p stopped ((Notified.Reach-Inv reach).woken stopped notified)) [
      | inl all ↦ (p, here, (all, (exited_completed reach some_thread all).1))
      | inr (q, step) ↦
          let (r, steps, joined) =
            joins_within n k q (later reach (works step)) some_thread
              (WorkerStep-stopped step stopped) (WorkerStep-stopping step ∙ notified)
              (omega (arith, WorkerStep-measure step)) in
          (r, then_works step steps, joined)
    ]

-- From every reachable state in which a pool with at least one thread is stopped, and no call of `stop`
-- has still to notify, steps of its workers, none of them a spurious wakeup, lead to a state in which they have all exited, so that `join` returns, and in which every job that
-- the pool has accepted is completed, as often as it was accepted.
pub stopped_joins :
    {n : ℕ} {p : Pool}
    → Reach n p
    → 0 < n
    → p.stopped ≡ true
    → p.stopping ≡ 0
    → (q : Pool) × WorkerSteps n p q
      × (((i : ℕ) → i < n → q.workers i ≡ exited)
          × ((a : ℕ) → count a q.completed ≡ count a q.accepted))
stopped_joins {n} {p} reach some_thread stopped notified =
    joins_within n (suc (measure n p)) p reach some_thread stopped notified (omega arith)
