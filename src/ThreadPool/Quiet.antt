-- ===== src/ThreadPool/Quiet.antt =====
-- A pool whose workers have nothing to do (include/coro_epoll/thread_pool.hpp).
use cpp_coroutine_epoll.Common.{
  ℕ, zero, suc, ◌<◌, ◌≡◌, ◌≢◌, ◌⊎◌, inl, inr, refl, ap, ◌∙◌, [], ◌++◌, append-nil, arith,
  List-cases, Bool-cases, ltb, ltb→lt,
}
use cpp_coroutine_epoll.Common.Family.{count, total-zero}
use cpp_coroutine_epoll.ThreadPool.Pool.{
  WorkerPc, idle, asleep, running, exited, Pool, WorkerStep, completes, Reach,
}
use cpp_coroutine_epoll.ThreadPool.Conservation.{runs, jobs_conserved}
use cpp_coroutine_epoll.ThreadPool.Progress.{queued_progress}

-- No job is queued and no worker runs one.
abbrev pub Quiet : ℕ → Pool → Type 0
Quiet n p = (p.tasks ≡ []) × ((i job : ℕ) → i < n → p.workers i ≢ running job)

running_cases : (pc : WorkerPc) → ((job : ℕ) × (pc ≡ running job)) ⊎ ((job : ℕ) → pc ≢ running job)
running_cases idle = inr (λ job e. cc)
running_cases asleep = inr (λ job e. cc)
running_cases (running job) = inl (job, refl)
running_cases exited = inr (λ job e. cc)

none_or_one :
    (w : ℕ → WorkerPc) (n : ℕ)
    → ((i job : ℕ) → i < n → w i ≢ running job)
      ⊎ ((i : ℕ) × (job : ℕ) × (i < n) × (w i ≡ running job))
none_or_one w zero = inl (λ i job lt. absurd (omega arith))
none_or_one w (suc n) = elim (running_cases (w n)) [
  | inl (job, e) ↦ inr (n, job, omega arith, e)
  | inr quiet ↦ elim (none_or_one w n) [
    | inl all ↦ inl (λ i job lt e. elim (Bool-cases (ltb i n)) [
      | inl below ↦ all i job (ltb→lt i n below) e
      | inr last ↦ let same : i ≡ n = ground arith in quiet job (rw same at e)
    ])
    | inr (i, job, lt, e) ↦ inr (i, job, omega arith, e)
  ]
]

pub Quiet-or_step :
    (n : ℕ) (p : Pool)
    → Reach n p
    → 0 < n
    → p.notifying ≡ 0
    → Quiet n p ⊎ ((q : Pool) × WorkerStep n p q)
Quiet-or_step n p reach some_thread notified = elim (none_or_one p.workers n) [
  | inr (i, job, lt, e) ↦ inr (_, completes i job lt e)
  | inl all ↦ elim (List-cases p.tasks) [
    | inl empty ↦ inl (empty, all)
    | inr (x, xs, left) ↦ inr (queued_progress reach some_thread notified (λ e. cc))
  ]
]

-- In a quiet pool every accepted job is completed.
pub Quiet-completed :
    {n : ℕ} {p : Pool} → Reach n p → Quiet n p → (a : ℕ) → count a p.completed ≡ count a p.accepted
Quiet-completed {n} {p} reach (empty, all) a =
    let (in_order, balance) = jobs_conserved reach in
    omega (
      arith,
      ap (count a) (in_order ∙ ap (λ l. p.taken ++ l) empty ∙ append-nil p.taken),
      balance a,
      total-zero (runs a) n p.workers (λ i lt. runs_none a (p.workers i) (λ job. all i job lt)),
    )
  where
    runs_none : (a : ℕ) (pc : WorkerPc) → ((job : ℕ) → pc ≢ running job) → runs a pc ≡ 0
    runs_none a idle h = refl
    runs_none a asleep h = refl
    runs_none a (running job) h = absurd (h job refl)
    runs_none a exited h = refl
