-- ===== src/Socket/Tests.antt =====
-- A descriptor that is moved from one object to another, and closed.
use cpp_coroutine_epoll.Common.{ℕ, ◌<◌, true, pos, ◌≡◌, refl, ◌∷◌, [], arith}
use cpp_coroutine_epoll.Common.Family.{update, count}
use cpp_coroutine_epoll.Socket.Handle.{Handle, unset, move, close}
use cpp_coroutine_epoll.Socket.Ownership.{
  Sockets, no_sockets, Reach, begin, later, constructs, moves, closes, owns, closed_once,
}

abbrev holding : Handle
holding = record { has_loop = true; fd = pos 5 }

abbrev moved : Sockets
moved = record no_sockets {
  objects = update (update (update no_sockets.objects 0 holding) 1 holding) 0 unset;
  opened = 5 ∷ [];
}

moved-Reach : Reach 2 moved
unfolding move
moved-Reach =
    later (later begin (constructs 0 5 (omega arith) refl))
      (moves 1 0 (omega arith) (omega arith) refl (omega arith))

abbrev moved_and_closed : Sockets
moved_and_closed = record moved {
  objects = update moved.objects 1 unset;
  log = record { removed = 5 ∷ []; closed = 5 ∷ [] };
}

moved_and_closed-Reach : Reach 2 moved_and_closed
unfolding close
moved_and_closed-Reach = later moved-Reach (closes 1 (omega arith))

nobody_owns : (i : ℕ) → i < 2 → owns 5 (moved_and_closed.objects i) ≡ 0
nobody_owns i lt = ground arith

closed_once_example : count 5 moved_and_closed.log.closed ≡ count 5 moved_and_closed.opened
closed_once_example = closed_once moved_and_closed-Reach 5 nobody_owns
