-- ===== src/WorkerGroup/Shutdown.antt =====
-- The destructor of `WorkerGroup` (include/coro_epoll/worker_group.hpp).
use cpp_coroutine_epoll.Common.{◌≡◌, refl, true, false, some, List, [], ◌∷◌, All, arith}
use cpp_coroutine_epoll.WorkerGroup.Group.{
  Worker, WorkerGroup, stop, stop_loops, join, join_threads, destroy,
}

join_threads-stop_loops :
    (ws : List Worker)
    → (ws' : List Worker) × (join_threads (stop_loops ws) ≡ some ws')
      × All (λ w. (w.stopped ≡ true) × (w.joinable ≡ false)) ws'
unfolding join_threads stop_loops
join_threads-stop_loops [] = ([], refl, tt)
join_threads-stop_loops (w ∷ ws) =
    let (ws', joined, done) = join_threads-stop_loops ws in
    (
      record w { stopped = true; joinable = false } ∷ ws',
      ground (arith, joined),
      ((refl, refl), done),
    )

-- The destructor returns, whatever had been stopped or joined before: no join waits for ever, and
-- afterwards all loops are stopped and no thread is joinable.
pub destroy_joins :
    (g : WorkerGroup)
    → (g' : WorkerGroup) × (destroy g ≡ some g')
      × All (λ w. (w.stopped ≡ true) × (w.joinable ≡ false)) g'.loops
unfolding destroy stop join
destroy_joins g =
    let (ws, joined, done) = join_threads-stop_loops g.loops in
    (record g { loops = ws }, rw (joined, destroy, join, stop), done)
