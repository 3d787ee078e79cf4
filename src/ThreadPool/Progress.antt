-- ===== src/ThreadPool/Progress.antt =====
-- The pool never gets stuck: there is always a worker for a queued job, and `join` returns.
use cpp_coroutine_epoll.Common.{
  List-cases, ℕ, zero, suc, ◌+◌, ◌*◌, ◌<◌, ◌≡◌, ◌≢◌, ◌⊎◌, inl, inr, refl, ap, true, List, [], ◌∷◌,
  arith, length, Bool-cases, ltb, ltb→lt,
}
use cpp_coroutine_epoll.Common.Family.{total, total-update, total-positive}
use cpp_coroutine_epoll.ThreadPool.Pool.{
  WorkerPc, idle, asleep, running, exited, Pool, pop, WorkerStep, turns, sleeps, completes, Reach,
  may_go_on,
}
use cpp_coroutine_epoll.ThreadPool.Notified
use cpp_coroutine_epoll.ThreadPool.Notified.{is_idle, is_asleep, asleep-total}
use cpp_coroutine_epoll.ThreadPool.Conservation.{Reach-Inv, take_or_exit_empty, take_or_exit_task}

-- A worker that neither sleeps nor has exited can take a step, where the predicate of the wait holds.
worker_steps :
    (n i : ℕ) (p : Pool) (pc : WorkerPc)
    → i < n
    → p.workers i ≡ pc
    → pc ≢ exited
    → pc ≢ asleep
    → may_go_on p ≡ true
    → (q : Pool) × WorkerStep n p q
worker_steps n i p idle lt e ne up go = (_, turns i lt e go)
worker_steps n i p (running job) lt e ne up go = (_, completes i job lt e)
worker_steps n i p exited lt e ne up go = absurd (ne refl)
worker_steps n i p asleep lt e ne up go = absurd (up refl)

asleep_cases : (pc : WorkerPc) → (pc ≡ asleep) ⊎ (pc ≢ asleep)
asleep_cases idle = inr (λ e. cc)
asleep_cases asleep = inl refl
asleep_cases (running job) = inr (λ e. cc)
asleep_cases exited = inr (λ e. cc)

is_idle-idle : (pc : WorkerPc) → 0 < is_idle pc → pc ≡ idle
is_idle-idle idle some = refl
is_idle-idle asleep some = absurd (omega arith)
is_idle-idle (running job) some = absurd (omega arith)
is_idle-idle exited some = absurd (omega arith)

-- In every reachable state of a pool with at least one thread: while a job is queued, and no call of
-- `enqueue` has still to notify, some worker can take a step without being notified.
pub queued_progress :
    {n : ℕ} {p : Pool}
    → Reach n p
    → 0 < n
    → p.notifying ≡ 0
    → p.tasks ≢ []
    → (q : Pool) × WorkerStep n p q
queued_progress {n} {p} r some_thread notified ne = elim (asleep_cases (p.workers 0)) [
  | inr up ↦
      worker_steps n 0 p (p.workers 0) some_thread refl (λ e. ne ((Reach-Inv r).exits 0 e).1) up
        (go p.tasks refl)
  | inl sleeping ↦
      let served = (Notified.Reach-Inv r).served (asleep-total n 0 p some_thread sleeping) in
      let (i, lt, has) =
        total-positive is_idle n p.workers (omega (arith, served, notified, queued p.tasks refl)) in
      (_, turns i lt (is_idle-idle (p.workers i) has) (go p.tasks refl))
]
  where
    go : (l : List ℕ) → p.tasks ≡ l → may_go_on p ≡ true
    go [] e = absurd (ne e)
    go (t ∷ ts) e = ground arith

    queued : (l : List ℕ) → p.tasks ≡ l → 0 < length p.tasks
    queued [] e = absurd (ne e)
    queued (t ∷ ts) e = ground (arith, ap (length {0}) e)

exited_cases : (pc : WorkerPc) → (pc ≡ exited) ⊎ (pc ≢ exited)
exited_cases idle = inr (λ e. cc)
exited_cases asleep = inr (λ e. cc)
exited_cases (running job) = inr (λ e. cc)
exited_cases exited = inl refl

all_below_suc :
    (w : ℕ → WorkerPc) (n i : ℕ)
    → i < suc n
    → w n ≡ exited
    → ((j : ℕ) → j < n → w j ≡ exited)
    → w i ≡ exited
all_below_suc w n i lt e all = elim (Bool-cases (ltb i n)) [
  | inl below ↦ all i (ltb→lt i n below)
  | inr last ↦ let same : i ≡ n = ground arith in rw same e
]

all_or_one :
    (w : ℕ → WorkerPc) (n : ℕ)
    → ((i : ℕ) → i < n → w i ≡ exited) ⊎ ((i : ℕ) × (i < n) × (w i ≢ exited))
all_or_one w zero = inl (λ i lt. absurd (omega arith))
all_or_one w (suc n) = elim (exited_cases (w n)) [
  | inr ne ↦ inr (n, omega arith, ne)
  | inl e ↦ elim (all_or_one w n) [
    | inl all ↦ inl (λ i lt. all_below_suc w n i lt e all)
    | inr (i, lt, ne) ↦ inr (i, omega arith, ne)
  ]
]

-- Once the pool is stopped and all that slept have been notified, either all its threads have exited, or some worker can take a step.
pub stopped_progress :
    (n : ℕ) (p : Pool)
    → p.stopped ≡ true
    → total is_asleep n p.workers ≡ 0
    → ((i : ℕ) → i < n → p.workers i ≡ exited) ⊎ ((q : Pool) × WorkerStep n p q)
stopped_progress n p stopped notified = elim (all_or_one p.workers n) [
  | inl all ↦ inl all
  | inr (i, lt, ne) ↦ inr (
      worker_steps n i p (p.workers i) lt refl ne
        (λ sleeping. absurd (omega (arith, notified, asleep-total n i p lt sleeping)))
        (ground arith))
]

abbrev pub work_left : WorkerPc → ℕ
work_left idle = 1
work_left asleep = 0
work_left (running job) = 2
work_left exited = 0

abbrev pub measure : ℕ → Pool → ℕ
measure n p = 3 * length p.tasks + total work_left n p.workers

-- Each step of a worker brings the pool nearer to its end: three times the length of the queue,
-- plus 2 for a worker that runs a job and 1 for an idle one, gets smaller, also when one goes to sleep.
pub WorkerStep-measure : {n : ℕ} {p q : Pool} → WorkerStep n p q → measure n q < measure n p
unfolding pop
WorkerStep-measure {n} {p} (turns i lt free go) = elim (List-cases p.tasks) [
  | inl e ↦
      rw (take_or_exit_empty i p e go).1
        (ground (arith, total-update work_left n i p.workers exited lt))
  | inr (t, ts, e) ↦
      rw (take_or_exit_task i t ts p e)
        (ground (arith, ap (length {0}) e, total-update work_left n i p.workers (running t) lt))
]
WorkerStep-measure {n} {p} (sleeps i lt free stays) =
    ground (arith, total-update work_left n i p.workers asleep lt)
WorkerStep-measure {n} {p} (completes i job lt busy) =
    ground (arith, total-update work_left n i p.workers idle lt)
