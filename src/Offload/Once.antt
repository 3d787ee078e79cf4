-- ===== src/Offload/Once.antt =====
-- Each accepted job is in one place on its way through the pool and back to the loop
-- (include/coro_epoll/thread_pool.hpp, event_loop.hpp).
use cpp_coroutine_epoll.Common.{
  ℕ, ◌+◌, ◌<◌, ◌≡◌, refl, Bool, ap, ◌∙◌, true, false, Option, none, some, arith, ◌==◌,
  if◌then◌else◌,
}
use cpp_coroutine_epoll.Common.Family.{update, count, count-snoc, count-append, total, total-update}
use cpp_coroutine_epoll.Wakeup.Protocol
use cpp_coroutine_epoll.Wakeup.Protocol.{Shared, LoopStep, KernelStep}
use cpp_coroutine_epoll.Wakeup.Delivery.{posted_in_order}
use cpp_coroutine_epoll.ThreadPool.Pool
use cpp_coroutine_epoll.ThreadPool.Pool.{
  WorkerPc, idle, running, awake, Pool, enqueue, take_or_exit, stop,
}
use cpp_coroutine_epoll.ThreadPool.Conservation.{runs, jobs_conserved}
use cpp_coroutine_epoll.Offload.System.{
  Offload, Work, turns, sleeps, posts_result, ends_job, loops, Other, calls_pool, interrupts,
  pushes, signals, sets_stop, signals_stop, Reach, begin, works, others,
}

-- Whether the callback of a job has been pushed by a worker that still holds the mutex.
abbrev pub in_post : ℕ → Option (ℕ × ℕ) → ℕ
in_post a none = 0
in_post a (some (i, job)) = if job == a then 1 else 0

pub record Inv (n : ℕ) (s : Offload) : Type 0 where
  pub pool : Pool.Reach n s.pool
  pub loop : Protocol.Reach s.loop
  -- What has been posted: the callbacks of completed jobs, of the one being posted, and the others.
  pub posted :
      (a : ℕ)
      → count a s.loop.posted ≡ count a s.foreign + count a s.pool.completed + in_post a s.poster
  pub holds :
      (i job : ℕ)
      → s.poster ≡ some (i, job)
      → (s.loop.posting ≡ true) × (i < n) × (s.pool.workers i ≡ running job)

take_or_exit-completed : (i : ℕ) (p : Pool) → (take_or_exit i p).completed ≡ p.completed
unfolding take_or_exit Pool.pop
take_or_exit-completed i p = ground arith

-- A worker that runs a job is not the one that was idle.
take_or_exit-running :
    (i j job : ℕ) (p : Pool)
    → p.workers i ≡ idle
    → p.workers j ≡ running job
    → (take_or_exit i p).workers j ≡ running job
unfolding take_or_exit Pool.pop
take_or_exit-running i j job p free busy = ground arith

pub LoopStep-posts : {s t : Shared} → LoopStep s t → (t.posted ≡ s.posted) × (t.posting ≡ s.posting)
LoopStep-posts (Protocol.ends p q) = (refl, refl)
LoopStep-posts (Protocol.goes_on p q) = (refl, refl)
LoopStep-posts (Protocol.drains p q) = (refl, refl)
LoopStep-posts (Protocol.wakes p q) = (refl, refl)
LoopStep-posts (Protocol.empties p) = (refl, refl)
LoopStep-posts (Protocol.redrains p q) = (refl, refl)

KernelStep-posts : {s t : Shared} → KernelStep s t → (t.posted ≡ s.posted) × (t.posting ≡ s.posting)
KernelStep-posts (Protocol.interrupted p) = (refl, refl)
KernelStep-posts (Protocol.elsewhere p) = (refl, refl)

enqueue_keeps :
    (job : ℕ) (p : Pool)
    → ((enqueue job p).0.completed ≡ p.completed) × ((enqueue job p).0.workers ≡ p.workers)
unfolding enqueue
enqueue_keeps job p = ground arith

-- The callers of the pool complete no job and take none from a worker.
CallerStep-keeps :
    {n : ℕ} {p q : Pool}
    → Pool.CallerStep n p q
    → (q.completed ≡ p.completed)
      × ((i job : ℕ) → p.workers i ≡ running job → q.workers i ≡ running job)
unfolding stop
CallerStep-keeps {p = p} (Pool.submits job) =
    ((enqueue_keeps job p).0, λ i k is. rw (enqueue_keeps job p).1 is)
CallerStep-keeps Pool.stops = (refl, λ i k is. is)
CallerStep-keeps (Pool.notifies k j some_call lt sleeping) = (refl, λ i job is. ground arith)
CallerStep-keeps (Pool.notifies_nobody k some_call nobody) = (refl, λ i job is. is)
CallerStep-keeps (Pool.notifies_all k some_call) = (refl, λ i job is. ap awake is)
CallerStep-keeps (Pool.wakes_up j lt sleeping) = (refl, λ i job is. ground arith)

-- While nobody holds the mutex, no worker is posting.
pub poster_free :
    {poster : Option (ℕ × ℕ)} {posting : Bool}
    → ((i job : ℕ) → poster ≡ some (i, job) → posting ≡ true)
    → posting ≡ false
    → poster ≡ none
poster_free {poster = none} h free = refl
poster_free {poster = some (i, job)} h free = absurd (ground (arith, h i job refl))

Work-Inv : {n : ℕ} {s t : Offload} → Work n s t → Inv n s → Inv n t
Work-Inv {n} {s} (turns i lt free go) inv = record {
  pool = Pool.later inv.pool (Pool.works (Pool.turns i lt free go));
  loop = inv.loop;
  posted = λ a. rw (take_or_exit-completed i s.pool) (inv.posted a);
  holds = λ j job is.
      let (held, below, busy) = inv.holds j job is in
      (held, below, take_or_exit-running i j job s.pool free busy);
}
Work-Inv {n} {s} (sleeps i lt free stays) inv = record {
  pool = Pool.later inv.pool (Pool.works (Pool.sleeps i lt free stays));
  loop = inv.loop;
  posted = inv.posted;
  holds = λ j job is. let (held, below, busy) = inv.holds j job is in (held, below, ground arith);
}
Work-Inv {n} {s} (posts_result i job lt busy free) inv = record {
  pool = inv.pool;
  loop = Protocol.caller inv.loop (Protocol.pushes job free);
  posted = λ a. ground (
    arith,
    inv.posted a,
    inv.holds,
    count-snoc a job s.loop.posted,
    poster_free (λ j k is. (inv.holds j k is).0) free,
  );
  holds = λ j k is. ground arith;
}
Work-Inv {n} {s} (ends_job i job is) inv = record {
  pool =
      Pool.later inv.pool
        (Pool.works (Pool.completes i job (inv.holds i job is).1 (inv.holds i job is).2));
  loop = Protocol.caller inv.loop (Protocol.signals (inv.holds i job is).0);
  posted = λ a. ground (arith, inv.posted a, count-snoc a job s.pool.completed);
  holds = λ j k never. absurd (cc);
}
Work-Inv {n} {s} (loops step) inv = record {
  pool = inv.pool;
  loop = Protocol.loop inv.loop step;
  posted = λ a. rw (LoopStep-posts step).0 (inv.posted a);
  holds = λ j job is. rw (LoopStep-posts step).1 (inv.holds j job is);
}

Other-Inv : {n : ℕ} {s t : Offload} → Other n s t → Inv n s → Inv n t
Other-Inv {n} {s} (calls_pool step) inv = record {
  pool = Pool.later inv.pool (Pool.calls step);
  loop = inv.loop;
  posted = λ a. rw (CallerStep-keeps step).0 (inv.posted a);
  holds = λ i k is.
      let (held, below, busy) = inv.holds i k is in
      (held, below, (CallerStep-keeps step).1 i k busy);
}
Other-Inv {n} {s} (interrupts step) inv = record {
  pool = inv.pool;
  loop = Protocol.kernel inv.loop step;
  posted = λ a. rw (KernelStep-posts step).0 (inv.posted a);
  holds = λ j job is. rw (KernelStep-posts step).1 (inv.holds j job is);
}
Other-Inv {n} {s} (pushes callback free) inv = record {
  pool = inv.pool;
  loop = Protocol.caller inv.loop (Protocol.pushes callback free);
  posted = λ a.
      ground
        (arith, inv.posted a, count-snoc a callback s.loop.posted, count-snoc a callback s.foreign);
  holds = λ i k is. (refl, (inv.holds i k is).1, (inv.holds i k is).2);
}
Other-Inv {n} {s} (signals posting unheld) inv = record {
  pool = inv.pool;
  loop = Protocol.caller inv.loop (Protocol.signals posting);
  posted = inv.posted;
  holds = λ i k is. absurd (cc);
}
Other-Inv {n} {s} sets_stop inv = record {
  pool = inv.pool;
  loop = Protocol.caller inv.loop Protocol.sets_stop;
  posted = inv.posted;
  holds = inv.holds;
}
Other-Inv {n} {s} (signals_stop k is) inv = record {
  pool = inv.pool;
  loop = Protocol.caller inv.loop (Protocol.signals_stop k is);
  posted = inv.posted;
  holds = inv.holds;
}

pub Reach-Inv : {n : ℕ} {s : Offload} → Reach n s → Inv n s
unfolding count
Reach-Inv begin = record {
  pool = Pool.begin;
  loop = Protocol.begin;
  posted = λ a. refl;
  holds = λ i k is. absurd (cc);
}
Reach-Inv (works r step) = Work-Inv step (Reach-Inv r)
Reach-Inv (others r step) = Other-Inv step (Reach-Inv r)

-- The workers, but that one which has posted the result of its job counts as idle.
abbrev pub unposted : Offload → ℕ → WorkerPc
unposted s = elim s.poster [ none ↦ s.pool.workers | some (i, job) ↦ update s.pool.workers i idle ]

unposted-total :
    (n a : ℕ) (s : Offload)
    → Inv n s
    → total (runs a) n (unposted s) + in_post a s.poster ≡ total (runs a) n s.pool.workers
unposted-total n a s inv = at s.poster refl
  where
    at :
        (poster : Option (ℕ × ℕ))
        → s.poster ≡ poster
        → total (runs a) n (unposted s) + in_post a s.poster ≡ total (runs a) n s.pool.workers
    at none is = rw is (omega arith)
    at (some (i, job)) is =
        let (held, below, busy) = inv.holds i job is in
        rw is
          (ground (arith, ap (runs a) busy, total-update (runs a) n i s.pool.workers idle below))

-- In every reachable state each accepted job is in exactly one place, and so is each callback that other
-- threads have posted: a job is in the queue of the pool, or with one worker that runs it and has
-- not posted its callback yet; a callback is in the queue of the loop, or has been taken by the loop.
pub jobs_resumed_once :
    {n : ℕ} {s : Offload}
    → Reach n s
    → (a : ℕ)
    → count a s.pool.accepted + count a s.foreign
      ≡ count a s.pool.tasks
        + total (runs a) n (unposted s)
        + count a s.loop.pending
        + count a s.loop.taken
jobs_resumed_once {n} {s} reach a =
    let inv = Reach-Inv reach in
    let (in_order, balance) = jobs_conserved inv.pool in
    omega (
      arith,
      ap (count a) in_order ∙ count-append a s.pool.taken s.pool.tasks,
      balance a,
      ap (count a) (posted_in_order inv.loop) ∙ count-append a s.loop.taken s.loop.pending,
      inv.posted a,
      unposted-total n a s inv,
    )
