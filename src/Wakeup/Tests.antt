-- ===== src/Wakeup/Tests.antt =====
-- Short runs of the threads of `post`, `stop` and `run`.
use cpp_coroutine_epoll.Common.{◌≡◌, refl, true, false, [], ◌∷◌}
use cpp_coroutine_epoll.Wakeup.Protocol.{
  Shared, waiting, finished, start, Reach, begin, loop, caller, goes_on, drains, pushes, signals,
  sets_stop, signals_stop, LoopPath,
}
use cpp_coroutine_epoll.Wakeup.Takes.{loop_takes}
use cpp_coroutine_epoll.Wakeup.Delivery.{blocked_is_idle, stopped_finishes}

-- The loop is in epoll_wait, and nobody has called it.
abbrev blocked : Shared
blocked = record start { pc = waiting }

blocked-Reach : Reach blocked
blocked-Reach = loop (loop begin (goes_on refl refl)) (drains refl refl)

abbrev posted_once : Shared
posted_once = record start { pc = waiting; counter = 1; pending = 7 ∷ []; posted = 7 ∷ [] }

posted_once-Reach : Reach posted_once
posted_once-Reach = caller (caller blocked-Reach (pushes 7 refl)) (signals refl)

abbrev stopped_once : Shared
stopped_once = record start {
  pc = waiting;
  counter = 2;
  stopped = true;
  pending = 7 ∷ [];
  posted = 7 ∷ [];
}

stopped_once-Reach : Reach stopped_once
stopped_once-Reach = caller (caller posted_once-Reach sets_stop) (signals_stop 0 refl)

blocked_is_idle_example : (blocked.pending ≡ []) × (blocked.stopped ≡ false)
blocked_is_idle_example = blocked_is_idle blocked-Reach refl refl refl refl

stopped_finishes_example : (t : Shared) × LoopPath stopped_once t × (t.pc ≡ finished)
stopped_finishes_example = stopped_finishes stopped_once-Reach refl refl refl

loop_takes_example : (t : Shared) × LoopPath posted_once t × (t.taken ≡ posted_once.posted)
loop_takes_example = loop_takes posted_once-Reach refl refl
