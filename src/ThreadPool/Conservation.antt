-- ===== src/ThreadPool/Conservation.antt =====
-- Every accepted job is queued, being run, or completed, and stopping the pool loses none.
use cpp_coroutine_epoll.Common.{
  List-cases, ℕ, ◌+◌, ◌<◌, ◌≡◌, ◌≢◌, inl, inr, refl, sym, ap, subst, ◌∙◌, true, List, [], ◌∷◌, ◌++◌,
  append_assoc, append-nil, arith, ◌==◌, if◌then◌else◌, Bool-cases,
}
use cpp_coroutine_epoll.Common.Family.{
  update, count, count-snoc, total, total-update, total-zero, total-same,
}
use cpp_coroutine_epoll.ThreadPool.Pool.{
  WorkerPc, idle, running, exited, Pool, fresh, enqueue, stop, take_or_exit, pop, WorkerStep, turns,
  sleeps, completes, asleep, awake, wake, CallerStep, submits, stops, notifies, notifies_nobody,
  notifies_all, wakes_up, Step, calls, works, Reach, begin, later, may_go_on,
}

abbrev pub runs : ℕ → WorkerPc → ℕ
runs a (running job) = if job == a then 1 else 0
runs a pc = 0

pub record Inv (n : ℕ) (p : Pool) : Type 0 where
  pub in_order : p.accepted ≡ p.taken ++ p.tasks
  pub balance : (a : ℕ) → count a p.taken ≡ count a p.completed + total (runs a) n p.workers
  pub exits : (i : ℕ) → p.workers i ≡ exited → (p.stopped ≡ true) × (p.tasks ≡ [])

awake-runs : (a : ℕ) (pc : WorkerPc) → runs a (awake pc) ≡ runs a pc
awake-runs a idle = refl
awake-runs a asleep = refl
awake-runs a (running job) = refl
awake-runs a exited = refl

awake-exited : (pc : WorkerPc) → awake pc ≡ exited → pc ≡ exited
awake-exited idle e = e
awake-exited asleep e = absurd (cc)
awake-exited (running job) e = e
awake-exited exited e = refl

start-Inv : (n : ℕ) → Inv n fresh
unfolding count
start-Inv n = record {
  in_order = refl;
  balance = λ a. omega (arith, total-zero (runs a) n (λ i. idle) (λ i lt. refl));
  exits = λ i e. absurd (cc);
}

pop-Inv :
    (n i t : ℕ) (ts : List ℕ) (p : Pool)
    → i < n
    → p.workers i ≡ idle
    → p.tasks ≡ t ∷ ts
    → Inv n p
    → Inv n (pop i (t ∷ ts) p)
unfolding pop
pop-Inv n i t ts p lt free queue inv = record {
  in_order = inv.in_order ∙ ap (λ l. p.taken ++ l) queue ∙ sym (append_assoc p.taken (t ∷ []) ts);
  balance = λ a. ground (
    arith,
    inv.balance a,
    count-snoc a t p.taken,
    total-update (runs a) n i p.workers (running t) lt,
  );
  exits = λ j e. ground (arith, inv.exits j);
}

exit-Inv :
    (n i : ℕ) (p : Pool)
    → i < n
    → p.workers i ≡ idle
    → p.stopped ≡ true
    → p.tasks ≡ []
    → Inv n p
    → Inv n (record p { workers = update p.workers i exited })
exit-Inv n i p lt free stopped empty inv = record {
  in_order = inv.in_order;
  balance = λ a. ground (arith, inv.balance a, total-update (runs a) n i p.workers exited lt);
  exits = λ j e. ground (arith, inv.exits j);
}

-- A worker that leaves its wait with an empty queue exits, as the pool is stopped; any other takes
-- the oldest task.
pub take_or_exit_empty :
    (i : ℕ) (p : Pool)
    → p.tasks ≡ []
    → may_go_on p ≡ true
    → (p.stopped ≡ true) × (take_or_exit i p ≡ record p { workers = update p.workers i exited })
unfolding take_or_exit
take_or_exit_empty i p e go = (ground arith, ground arith)

pub take_or_exit_task :
    (i t : ℕ) (ts : List ℕ) (p : Pool) → p.tasks ≡ t ∷ ts → take_or_exit i p ≡ pop i (t ∷ ts) p
unfolding take_or_exit
take_or_exit_task i t ts p e = ground arith

-- A worker that runs nothing goes to another such state.
moved-Inv :
    (n i : ℕ) (pc : WorkerPc) (p : Pool)
    → i < n
    → ((a : ℕ) → runs a pc ≡ runs a (p.workers i))
    → pc ≢ exited
    → Inv n p
    → Inv n (record p { workers = update p.workers i pc })
moved-Inv n i pc p lt same stays inv = record {
  in_order = inv.in_order;
  balance = λ a. omega (arith, inv.balance a, same a, total-update (runs a) n i p.workers pc lt);
  exits = λ j e. ground (arith, inv.exits j, stays);
}

WorkerStep-Inv : {n : ℕ} {p q : Pool} → WorkerStep n p q → Inv n p → Inv n q
WorkerStep-Inv {n} {p} (turns i lt free go) inv = elim (List-cases p.tasks) [
  | inl e ↦
      let (stopped, eq) = take_or_exit_empty i p e go in
      subst (Inv n) (sym eq) (exit-Inv n i p lt free stopped e inv)
  | inr (t, ts, e) ↦
      subst (Inv n) (sym (take_or_exit_task i t ts p e)) (pop-Inv n i t ts p lt free e inv)
]
WorkerStep-Inv {n} {p} (sleeps i lt free stays) inv =
    moved-Inv n i asleep p lt (λ a. ground arith) (λ e. cc) inv
WorkerStep-Inv {n} {p} (completes i job lt busy) inv = record {
  in_order = inv.in_order;
  balance = λ a. ground (
    arith,
    inv.balance a,
    count-snoc a job p.completed,
    total-update (runs a) n i p.workers idle lt,
  );
  exits = λ j e. ground (arith, inv.exits j);
}

enqueue-Inv : (n job : ℕ) (p : Pool) → Inv n p → Inv n (enqueue job p).0
unfolding enqueue
enqueue-Inv n job p inv = elim (Bool-cases p.stopped) [
  | inl closed ↦ simp closed inv
  | inr running_pool ↦ simp running_pool (record {
    in_order = ap (λ l. l ++ job ∷ []) inv.in_order ∙ append_assoc p.taken p.tasks (job ∷ []);
    balance = inv.balance;
    exits = λ i e. ground (arith, inv.exits i e);
  })
]

wake-Inv : (n i : ℕ) (p : Pool) → i < n → p.workers i ≡ asleep → Inv n p → Inv n (wake i p)
wake-Inv n i p lt sleeping inv = moved-Inv n i idle p lt (λ a. ground arith) (λ e. cc) inv

CallerStep-Inv : {n : ℕ} {p q : Pool} → CallerStep n p q → Inv n p → Inv n q
unfolding stop
CallerStep-Inv {n} {p} (submits job) inv = enqueue-Inv n job p inv
CallerStep-Inv {n} {p} (notifies k i some_call lt sleeping) inv =
    wake-Inv n i (record p { notifying = k }) lt sleeping
      (record { in_order = inv.in_order; balance = inv.balance; exits = inv.exits })
CallerStep-Inv (notifies_nobody k some_call nobody) inv = record {
  in_order = inv.in_order;
  balance = inv.balance;
  exits = inv.exits;
}
CallerStep-Inv {n} {p} (notifies_all k some_call) inv = record {
  in_order = inv.in_order;
  balance = λ a. omega (
    arith,
    inv.balance a,
    total-same (runs a) n p.workers (λ i. awake (p.workers i)) (λ i. awake-runs a (p.workers i)),
  );
  exits = λ i e. inv.exits i (awake-exited (p.workers i) e);
}
CallerStep-Inv {n} {p} (wakes_up i lt sleeping) inv = wake-Inv n i p lt sleeping inv
CallerStep-Inv stops inv = record {
  in_order = inv.in_order;
  balance = inv.balance;
  exits = λ i e. (refl, (inv.exits i e).1);
}

Step-Inv : {n : ℕ} {p q : Pool} → Step n p q → Inv n p → Inv n q
Step-Inv (calls st) inv = CallerStep-Inv st inv
Step-Inv (works st) inv = WorkerStep-Inv st inv

pub Reach-Inv : {n : ℕ} {p : Pool} → Reach n p → Inv n p
Reach-Inv {n} begin = start-Inv n
Reach-Inv (later r st) = Step-Inv st (Reach-Inv r)

-- In every reachable state of a pool of `n` threads, the accepted jobs are those that workers have
-- taken, in the order of submission, followed by the queue; and each job has been taken as often as
-- it has been completed, plus once for each worker that is running it.
pub jobs_conserved :
    {n : ℕ} {p : Pool}
    → Reach n p
    → (p.accepted ≡ p.taken ++ p.tasks)
      × ((a : ℕ) → count a p.taken ≡ count a p.completed + total (runs a) n p.workers)
jobs_conserved r = ((Reach-Inv r).in_order, (Reach-Inv r).balance)

-- In every reachable state in which all threads of a pool have exited, and it has at least one, the
-- pool is stopped and every job that it ever accepted is completed, as often as it was accepted.
pub exited_completed :
    {n : ℕ} {p : Pool}
    → Reach n p
    → 0 < n
    → ((i : ℕ) → i < n → p.workers i ≡ exited)
    → (p.stopped ≡ true) × ((a : ℕ) → count a p.completed ≡ count a p.accepted)
exited_completed {n} {p} r some_thread all = (done.0, λ a. balanced a)
  where
    inv : Inv n p
    inv = Reach-Inv r

    done : (p.stopped ≡ true) × (p.tasks ≡ [])
    done = inv.exits 0 (all 0 some_thread)

    everything : p.accepted ≡ p.taken
    everything = inv.in_order ∙ ap (λ l. p.taken ++ l) done.1 ∙ append-nil p.taken

    balanced : (a : ℕ) → count a p.completed ≡ count a p.accepted
    balanced a = omega (
      arith,
      ap (count a) everything,
      inv.balance a,
      total-zero (runs a) n p.workers (λ i lt. ground (arith, all i lt)),
    )
