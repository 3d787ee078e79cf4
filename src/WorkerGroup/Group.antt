-- ===== src/WorkerGroup/Group.antt =====
-- `WorkerGroup` of include/coro_epoll/worker_group.hpp. A loop is an index into `loops_`; of each the
-- group sees whether it has been stopped and whether its thread still has to be joined.
use cpp_coroutine_epoll.Common.{
  ℕ, zero, suc, ◌+◌, ◌%◌, ◌^◌, Bool, true, false, not, ◌&&◌, if◌then◌else◌, Option, none, some,
  List, [], ◌∷◌, length,
}
use cpp_coroutine_epoll.System.{Exception, invalid_argument}

pub record Worker : Type 0 where
  pub stopped : Bool
  pub joinable : Bool

-- `next_index` is a std::size_t, of 64 bits.
pub record WorkerGroup : Type 0 where
  pub loops : List Worker
  pub next_index : ℕ

pub data Construction : Type 0 where
  constructed : WorkerGroup → Construction
  refused : Exception → Construction

unfoldable pub started : ℕ → List Worker
started zero = []
started (suc n) = record { stopped = false; joinable = true } ∷ started n

unfoldable pub construct : ℕ → Construction
construct zero = refused (invalid_argument "worker_count must be greater than zero")
construct (suc n) = constructed (record { loops = started (suc n); next_index = 0 })

unfoldable pub size : WorkerGroup → ℕ
size g = length g.loops

-- `fetch_add` wraps around, and returns the old value.
unfoldable pub next : WorkerGroup → ℕ × WorkerGroup
unfolding size
next g = (g.next_index % size g, record g { next_index = (g.next_index + 1) % 2 ^ 64 })

unfoldable pub stop_loops : List Worker → List Worker
stop_loops [] = []
stop_loops (w ∷ ws) = record w { stopped = true } ∷ stop_loops ws

unfoldable pub stop : WorkerGroup → WorkerGroup
unfolding stop_loops
stop g = record g { loops = stop_loops g.loops }

-- `thread.join()` of the joinable threads returns when `run` of their loops has: `none` is a join that
-- waits for ever, on a loop that nobody has stopped.
unfoldable pub join_threads : List Worker → Option (List Worker)
join_threads [] = some []
join_threads (w ∷ ws) =
    let rest = join_threads ws in
    if w.joinable && not w.stopped
    then none
    else elim rest [ none ↦ none | some ws' ↦ some (record w { joinable = false } ∷ ws') ]

unfoldable pub join : WorkerGroup → Option WorkerGroup
unfolding join_threads
join g = elim (join_threads g.loops) [ none ↦ none | some ws ↦ some (record g { loops = ws }) ]

-- `~WorkerGroup`
unfoldable pub destroy : WorkerGroup → Option WorkerGroup
unfolding stop join
destroy g = join (stop g)

-- The loops that `k` calls of `next` return, and the group after them.
unfoldable pub nexts : ℕ → WorkerGroup → List ℕ
nexts zero g = []
nexts (suc k) g = (next g).0 ∷ nexts k (next g).1
