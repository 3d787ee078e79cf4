-- ===== src/ThreadPool/Notified.antt =====
-- No notification of `condition_` (include/coro_epoll/thread_pool.hpp) is lost: neither a job nor a stop
-- can be left behind workers that all sleep.
use cpp_coroutine_epoll.Common.{
  ℕ, ◌+◌, ◌≤◌, ◌<◌, ◌≡◌, ◌≢◌, inl, inr, refl, ap, true, [], ◌∷◌, arith, length, length-append,
  List-cases, Bool-cases,
}
use cpp_coroutine_epoll.Common.Family.{total, total-update, total-zero}
use cpp_coroutine_epoll.ThreadPool.Pool.{
  WorkerPc, idle, asleep, running, exited, awake, Pool, pop, enqueue, stop, WorkerStep, turns,
  sleeps, completes, CallerStep, submits, stops, notifies, notifies_nobody, notifies_all, wakes_up,
  calls, works, Reach, begin, later,
}
use cpp_coroutine_epoll.ThreadPool.Conservation.{take_or_exit_empty, take_or_exit_task}

abbrev pub is_idle : WorkerPc → ℕ
is_idle idle = 1
is_idle asleep = 0
is_idle (running job) = 0
is_idle exited = 0

abbrev pub is_asleep : WorkerPc → ℕ
is_asleep idle = 0
is_asleep asleep = 1
is_asleep (running job) = 0
is_asleep exited = 0

pub record Inv (n : ℕ) (p : Pool) : Type 0 where
  -- While a worker sleeps, there is a worker that will test the predicate, or a notification to come,
  -- for each job in the queue.
  pub served :
      0 < total is_asleep n p.workers → length p.tasks ≤ p.notifying + total is_idle n p.workers
  -- No worker sleeps once a stop has been notified.
  pub woken : p.stopped ≡ true → p.stopping ≡ 0 → total is_asleep n p.workers ≡ 0

WorkerStep-Inv : {n : ℕ} {p q : Pool} → WorkerStep n p q → Inv n p → Inv n q
unfolding pop
WorkerStep-Inv {n} {p} (turns i lt free go) inv = elim (List-cases p.tasks) [
  | inl e ↦ rw (take_or_exit_empty i p e go).1 (record {
    served = λ some_asleep. ground (arith, ap (length {0}) e);
    woken = λ stopped done.
        ground (arith, inv.woken stopped done, total-update is_asleep n i p.workers exited lt);
  })
  | inr (t, ts, e) ↦ rw (take_or_exit_task i t ts p e) (record {
    served = λ some_asleep. ground (
      arith,
      ap (length {0}) e,
      inv.served,
      total-update is_asleep n i p.workers (running t) lt,
      total-update is_idle n i p.workers (running t) lt,
    );
    woken = λ stopped done.
        ground (arith, inv.woken stopped done, total-update is_asleep n i p.workers (running t) lt);
  })
]
WorkerStep-Inv {n} {p} (sleeps i lt free stays) inv = record {
  served = λ some_asleep. elim (List-cases p.tasks) [
    | inl e ↦ ground (arith, ap (length {0}) e)
    | inr (t, ts, e) ↦ absurd (ground arith)
  ];
  woken = λ stopped done. absurd (ground arith);
}
WorkerStep-Inv {n} {p} (completes i job lt busy) inv = record {
  served = λ some_asleep. ground (
    arith,
    inv.served,
    total-update is_asleep n i p.workers idle lt,
    total-update is_idle n i p.workers idle lt,
  );
  woken = λ stopped done.
      ground (arith, inv.woken stopped done, total-update is_asleep n i p.workers idle lt);
}

enqueue-Inv : (n job : ℕ) (p : Pool) → Inv n p → Inv n (enqueue job p).0
unfolding enqueue
enqueue-Inv n job p inv = elim (Bool-cases p.stopped) [
  | inl closed ↦ simp closed inv
  | inr running_pool ↦ simp running_pool (record {
    served = λ some_asleep. omega (arith, inv.served some_asleep, length-append p.tasks (job ∷ []));
    woken = λ stopped done. absurd (cc);
  })
]

awake-is_asleep : (pc : WorkerPc) → is_asleep (awake pc) ≡ 0
awake-is_asleep idle = refl
awake-is_asleep asleep = refl
awake-is_asleep (running job) = refl
awake-is_asleep exited = refl

none_asleep : (n : ℕ) (w : ℕ → WorkerPc) → total is_asleep n (λ i. awake (w i)) ≡ 0
none_asleep n w = total-zero is_asleep n (λ i. awake (w i)) (λ i lt. awake-is_asleep (w i))

not_asleep : (pc : WorkerPc) → pc ≢ asleep → is_asleep pc ≡ 0
not_asleep idle ne = refl
not_asleep asleep ne = absurd (ne refl)
not_asleep (running job) ne = refl
not_asleep exited ne = refl

CallerStep-Inv : {n : ℕ} {p q : Pool} → CallerStep n p q → Inv n p → Inv n q
unfolding stop
CallerStep-Inv {n} {p} (submits job) inv = enqueue-Inv n job p inv
CallerStep-Inv stops inv = record {
  served = inv.served;
  woken = λ stopped done. absurd (omega arith);
}
CallerStep-Inv {n} {p} (notifies k i some_call lt sleeping) inv = record {
  served = λ some_asleep. ground (
    arith,
    inv.served,
    total-update is_asleep n i p.workers idle lt,
    total-update is_idle n i p.workers idle lt,
  );
  woken = λ stopped done.
      ground (arith, inv.woken stopped done, total-update is_asleep n i p.workers idle lt);
}
CallerStep-Inv {n} {p} (notifies_nobody k some_call nobody) inv = record {
  served = λ some_asleep. absurd (
      omega
        (arith, total-zero is_asleep n p.workers (λ i lt. not_asleep (p.workers i) (nobody i lt))));
  woken = inv.woken;
}
CallerStep-Inv {n} {p} (notifies_all k some_call) inv = record {
  served = λ some_asleep. absurd (omega (arith, none_asleep n p.workers));
  woken = λ stopped done. none_asleep n p.workers;
}
CallerStep-Inv {n} {p} (wakes_up i lt sleeping) inv = record {
  served = λ some_asleep. ground (
    arith,
    inv.served,
    total-update is_asleep n i p.workers idle lt,
    total-update is_idle n i p.workers idle lt,
  );
  woken = λ stopped done.
      ground (arith, inv.woken stopped done, total-update is_asleep n i p.workers idle lt);
}

pub Reach-Inv : {n : ℕ} {p : Pool} → Reach n p → Inv n p
Reach-Inv {n} begin = record {
  served = λ some_asleep. omega arith;
  woken = λ stopped done. absurd (cc);
}
Reach-Inv (later r (calls st)) = CallerStep-Inv st (Reach-Inv r)
Reach-Inv (later r (works st)) = WorkerStep-Inv st (Reach-Inv r)

-- A worker that sleeps is one of those that do.
pub asleep-total :
    (n i : ℕ) (p : Pool) → i < n → p.workers i ≡ asleep → 0 < total is_asleep n p.workers
asleep-total n i p lt sleeping = ground (arith, total-update is_asleep n i p.workers idle lt)
