-- ===== src/Offload/Resumed.antt =====
-- Every accepted job gets its continuation resumed (include/coro_epoll/thread_pool.hpp, event_loop.hpp).
use cpp_coroutine_epoll.Common.{
  ℕ, zero, suc, ◌+◌, ◌<◌, ◌≡◌, inl, inr, refl, ap, ◌∙◌, false, none, arith,
}
use cpp_coroutine_epoll.Common.Family.{count}
use cpp_coroutine_epoll.Wakeup.Protocol
use cpp_coroutine_epoll.Wakeup.Protocol.{Shared, LoopStep, LoopPath}
use cpp_coroutine_epoll.Wakeup.Takes.{loop_takes}
use cpp_coroutine_epoll.ThreadPool.Pool
use cpp_coroutine_epoll.ThreadPool.Pool.{
  WorkerPc, idle, running, exited, Pool, take_or_exit, WorkerStep,
}
use cpp_coroutine_epoll.ThreadPool.Progress.{measure, WorkerStep-measure}
use cpp_coroutine_epoll.ThreadPool.Quiet.{Quiet, Quiet-or_step, Quiet-completed}
use cpp_coroutine_epoll.Offload.System.{
  Offload, turns, sleeps, posts_result, ends_job, loops, Reach, works, WorkPath, here, then_work,
}
use cpp_coroutine_epoll.Offload.Once.{Reach-Inv, in_post, poster_free}

WorkPath-trans : {n : ℕ} {s t u : Offload} → WorkPath n s t → WorkPath n t u → WorkPath n s u
WorkPath-trans here q = q
WorkPath-trans (then_work w p) q = then_work w (WorkPath-trans p q)

WorkPath-Reach : {n : ℕ} {s t : Offload} → WorkPath n s t → Reach n s → Reach n t
WorkPath-Reach here r = r
WorkPath-Reach (then_work w p) r = WorkPath-Reach p (works r w)

WorkPath-loop :
    {n : ℕ} (s : Offload) {m : Shared} → LoopPath s.loop m → WorkPath n s (record s { loop = m })
WorkPath-loop s Protocol.here = here
WorkPath-loop s (Protocol.then_step p step) =
    WorkPath-trans (WorkPath-loop s p) (then_work (loops step) here)

-- The work of the pool alone, which leaves the mutex of the loop free.
record Worked (n : ℕ) (s t : Offload) : Type 0 where
  path : WorkPath n s t
  free : t.loop.posting ≡ false
  going : t.loop.stopped ≡ s.loop.stopped
  same_foreign : t.foreign ≡ s.foreign
  notified : t.pool.notifying ≡ s.pool.notifying
  same_accepted : t.pool.accepted ≡ s.pool.accepted

take_or_exit-accepted : (i : ℕ) (p : Pool) → (take_or_exit i p).accepted ≡ p.accepted
unfolding take_or_exit Pool.pop
take_or_exit-accepted i p = ground arith

take_or_exit-notifying : (i : ℕ) (p : Pool) → (take_or_exit i p).notifying ≡ p.notifying
unfolding take_or_exit Pool.pop
take_or_exit-notifying i p = ground arith

-- What a worker does in the pool alone, it does here.
lift :
    {n : ℕ} (s : Offload) {q : Pool}
    → s.loop.posting ≡ false
    → WorkerStep n s.pool q
    → (t : Offload) × Worked n s t × (t.pool ≡ q)
lift s free (Pool.turns i lt rests go) = (
  record s { pool = take_or_exit i s.pool },
  record {
    path = then_work (turns i lt rests go) here;
    free = free;
    going = refl;
    same_foreign = refl;
    notified = take_or_exit-notifying i s.pool;
    same_accepted = take_or_exit-accepted i s.pool;
  },
  refl,
)
lift s free (Pool.sleeps i lt rests stays) = (
  _,
  record {
    path = then_work (sleeps i lt rests stays) here;
    free = free;
    going = refl;
    same_foreign = refl;
    notified = refl;
    same_accepted = refl;
  },
  refl,
)
lift s free (Pool.completes i job lt busy) = (
  _,
  record {
    path = then_work (posts_result i job lt busy free) (then_work (ends_job i job refl) here);
    free = refl;
    going = refl;
    same_foreign = refl;
    notified = refl;
    same_accepted = refl;
  },
  refl,
)

-- The workers come to have nothing to do.
settles :
    (n k : ℕ) (s : Offload)
    → Reach n s
    → 0 < n
    → s.loop.posting ≡ false
    → s.pool.notifying ≡ 0
    → measure n s.pool < k
    → (t : Offload) × Worked n s t × Quiet n t.pool
settles n zero s reach some_thread free notified small = absurd (omega arith)
settles n (suc k) s reach some_thread free notified small =
    elim (Quiet-or_step n s.pool (Reach-Inv reach).pool some_thread notified) [
      | inl quiet ↦ (
        s,
        record {
          path = here;
          free = free;
          going = refl;
          same_foreign = refl;
          notified = refl;
          same_accepted = refl;
        },
        quiet,
      )
      | inr (q, step) ↦
          let (t, first, is) = lift s free step in
          let smaller : measure n t.pool < k = rw is (omega (arith, WorkerStep-measure step)) in
          let (u, rest, quiet) =
            settles n k t (WorkPath-Reach first.path reach) some_thread first.free
              (first.notified ∙ notified) smaller in
          (
            u,
            record {
              path = WorkPath-trans first.path rest.path;
              free = rest.free;
              going = rest.going ∙ first.going;
              same_foreign = rest.same_foreign ∙ first.same_foreign;
              notified = rest.notified ∙ first.notified;
              same_accepted = rest.same_accepted ∙ first.same_accepted;
            },
            quiet,
          )
    ]

-- A quiet pool and a free mutex: what has been posted are the callbacks of all accepted jobs, and what
-- other threads have posted.
Quiet-posted :
    {n : ℕ} {t : Offload}
    → Reach n t
    → t.loop.posting ≡ false
    → Quiet n t.pool
    → (a : ℕ) → count a t.loop.posted ≡ count a t.pool.accepted + count a t.foreign
Quiet-posted {n} {t} reach free quiet a =
    let inv = Reach-Inv reach in
    let nobody : t.poster ≡ none = poster_free (λ i job is. (inv.holds i job is).0) free in
    omega (arith, inv.posted a, ap (in_post a) nobody, Quiet-completed inv.pool quiet a)

-- From every reachable state of a pool with at least one thread and a loop that is not stopped, with no
-- `post` under way and no call of `enqueue` that has still to notify, steps of the workers and of the
-- loop alone, without interruptions and spurious wakeups, lead to a state in which the loop
-- has taken the callback of each job that the pool has accepted, as often as it was accepted, and each
-- callback that other threads have posted, and nothing else.
pub accepted_resumed :
    {n : ℕ} {s : Offload}
    → Reach n s
    → 0 < n
    → s.loop.stopped ≡ false
    → s.loop.posting ≡ false
    → s.pool.notifying ≡ 0
    → (t : Offload) × WorkPath n s t
      × ((a : ℕ) → count a t.loop.taken ≡ count a s.pool.accepted + count a s.foreign)
accepted_resumed {n} {s} reach some_thread going free notified =
    let (t, work, quiet) =
      settles n (suc (measure n s.pool)) s reach some_thread free notified (omega arith) in
    let reached = WorkPath-Reach work.path reach in
    let (l, path, taken) = loop_takes (Reach-Inv reached).loop (work.going ∙ going) work.free in
    (
      record t { loop = l },
      WorkPath-trans work.path (WorkPath-loop t path),
      λ a.
          ap (count a) taken
          ∙ Quiet-posted reached work.free quiet a
          ∙ ap (λ jobs. count a jobs + count a t.foreign) work.same_accepted
          ∙ ap (λ fs. count a s.pool.accepted + count a fs) work.same_foreign,
    )
