-- ===== src/ThreadPool/Pool.antt =====
-- `ThreadPool` of include/coro_epoll/thread_pool.hpp: its queue, its worker threads and the callers of
-- `submit` and `stop`, as steps between which other threads run. A step is the end of a
-- job, one critical section of `mutex_`, or a notification of `condition_`: a worker that has found the
-- predicate of `condition_.wait` false sleeps until it is notified, or wakes up for no reason.
use cpp_coroutine_epoll.Common.{
  ℕ, zero, suc, ◌<◌, ◌≡◌, ◌≢◌, Bool, true, false, not, ◌&&◌, ◌||◌, Option, none, some, List, [],
  ◌∷◌, ◌++◌, if◌then◌else◌,
}
use cpp_coroutine_epoll.System.{Exception, runtime_error, invalid_argument}
use cpp_coroutine_epoll.Common.Family.{update}

pub data WorkerPc : Type 0 where
  idle : WorkerPc  -- before the predicate of `condition_.wait` is tested
  asleep : WorkerPc  -- in `condition_.wait`, which has found its predicate false
  running : ℕ → WorkerPc
  exited : WorkerPc

-- A job is a number. `accepted`, `taken` and `completed` are history: the jobs that `enqueue` has
-- pushed, those that a worker has popped, and those that have run to the post of their continuation.
-- `notifying` and `stopping` count the calls of `enqueue` and `stop` that have left their critical
-- section and have not notified `condition_` yet.
pub record Pool : Type 0 where
  pub stopped : Bool
  pub tasks : List ℕ
  pub workers : ℕ → WorkerPc
  pub accepted : List ℕ
  pub taken : List ℕ
  pub completed : List ℕ
  pub notifying : ℕ
  pub stopping : ℕ

abbrev pub fresh : Pool
fresh = record {
  stopped = false;
  tasks = [];
  workers = λ i. idle;
  accepted = [];
  taken = [];
  completed = [];
  notifying = 0;
  stopping = 0;
}

pub data Construction : Type 0 where
  constructed : ℕ → Pool → Construction
  refused : Exception → Construction

unfoldable pub construct : ℕ → Construction
construct zero = refused (invalid_argument "thread_count must be greater than zero")
construct (suc n) = constructed (suc n) fresh

abbrev pub is_empty : List ℕ → Bool
is_empty [] = true
is_empty (t ∷ ts) = false

-- Up to `condition_.notify_one()`.
unfoldable pub enqueue : ℕ → Pool → Pool × Option Exception
enqueue job p =
    if p.stopped then (p, some (runtime_error "cannot enqueue task on a stopped ThreadPool")) else (
      record p {
        tasks = p.tasks ++ job ∷ [];
        accepted = p.accepted ++ job ∷ [];
        notifying = suc p.notifying;
      },
      none,
    )

-- Up to `condition_.notify_all()`.
unfoldable pub stop : Pool → Pool
stop p = record p { stopped = true; stopping = suc p.stopping }

abbrev pub awake : WorkerPc → WorkerPc
awake asleep = idle
awake idle = idle
awake (running job) = running job
awake exited = exited

-- `condition_.notify_all()`
abbrev pub notify_all : Pool → Pool
notify_all p = record p { workers = λ i. awake (p.workers i) }

-- What `condition_.notify_one()` and a spurious wakeup do to a worker that sleeps.
abbrev pub wake : ℕ → Pool → Pool
wake i p = record p { workers = update p.workers i idle }

-- The predicate of `condition_.wait`.
abbrev pub may_go_on : Pool → Bool
may_go_on p = p.stopped || not (is_empty p.tasks)

-- `front` and `pop`, which are not reached with an empty queue.
unfoldable pub pop : ℕ → List ℕ → Pool → Pool
pop i [] p = p
pop i (t ∷ ts) p = record p {
  tasks = ts;
  workers = update p.workers i (running t);
  taken = p.taken ++ t ∷ [];
}

-- The rest of the critical section of `worker_loop`, after the wait.
unfoldable pub take_or_exit : ℕ → Pool → Pool
unfolding pop
take_or_exit i p =
    if p.stopped && is_empty p.tasks
    then record p { workers = update p.workers i exited }
    else pop i p.tasks p

-- A step of worker `i` of `n`.
pub data WorkerStep (n : ℕ) (p : Pool) : Pool → Type 0 where
  turns :
      (i : ℕ) → i < n → p.workers i ≡ idle → may_go_on p ≡ true → WorkerStep n p (take_or_exit i p)
  sleeps :
      (i : ℕ)
      → i < n
      → p.workers i ≡ idle
      → may_go_on p ≡ false
      → WorkerStep n p (record p { workers = update p.workers i asleep })
  completes :
      (i job : ℕ)
      → i < n
      → p.workers i ≡ running job
      → WorkerStep n p
          (record p { workers = update p.workers i idle; completed = p.completed ++ job ∷ [] })

-- A step of a thread in `submit` or `stop`, or of `condition_` itself. `notify_one` wakes a worker that
-- sleeps, if there is one, but not one of its choice.
pub data CallerStep (n : ℕ) (p : Pool) : Pool → Type 0 where
  submits : (job : ℕ) → CallerStep n p (enqueue job p).0
  stops : CallerStep n p (stop p)
  notifies :
      (k i : ℕ)
      → p.notifying ≡ suc k
      → i < n
      → p.workers i ≡ asleep
      → CallerStep n p (wake i (record p { notifying = k }))
  notifies_nobody :
      (k : ℕ)
      → p.notifying ≡ suc k
      → ((i : ℕ) → i < n → p.workers i ≢ asleep)
      → CallerStep n p (record p { notifying = k })
  notifies_all :
      (k : ℕ) → p.stopping ≡ suc k → CallerStep n p (notify_all (record p { stopping = k }))
  wakes_up : (i : ℕ) → i < n → p.workers i ≡ asleep → CallerStep n p (wake i p)

pub data Step (n : ℕ) (p : Pool) : Pool → Type 0 where
  calls : {q : Pool} → CallerStep n p q → Step n p q
  works : {q : Pool} → WorkerStep n p q → Step n p q

pub data Reach (n : ℕ) : Pool → Type 0 where
  begin : Reach n fresh
  later : {p q : Pool} → Reach n p → Step n p q → Reach n q
