-- ===== src/EventLoop/RefinesTests.antt =====
-- A run of the event loop on the instance and the program of EventLoop/Fixture.antt, beside the threads
-- of Wakeup/Protocol.
use cpp_coroutine_epoll.Common.{◌≡◌, refl, true, false, none, some, List, [], ◌∷◌, find, put, erase}
use cpp_coroutine_epoll.System.{epollin, epollout}
use cpp_coroutine_epoll.EventLoop.State.{EventLoop}
use cpp_coroutine_epoll.EventLoop.Interest.{
  both_directions, update_or_remove_impl, add_interest_impl, register, remove,
}
use cpp_coroutine_epoll.EventLoop.Tasks.{
  run_call, run_calls, post, resume, run_callbacks, drain_pending_tasks, compact_finished_tasks,
  uncaught, unfinished, sockets_of_finished, close_sockets,
}
use cpp_coroutine_epoll.EventLoop.Run.{
  Event, WaitAnswer, ready, run, dispatch, dispatch_entry, dispatch_all, drain_and_compact,
  resume_if_set,
}
use cpp_coroutine_epoll.EventLoop.Shown.{Shows}
use cpp_coroutine_epoll.EventLoop.Refines.{
  Reported, no_more, batch, ends, other, wakeup, run-Stands, run-blocked,
}
use cpp_coroutine_epoll.EventLoop.Fixture.{Table, table_ctl, table_epoll, test_program}
use cpp_coroutine_epoll.Wakeup.Protocol
use cpp_coroutine_epoll.Wakeup.Protocol.{top, waiting}

-- Coroutine 2 waits for 5 to become writable, and callback 7 has been posted.
abbrev posted_loop : EventLoop Table
posted_loop = record {
  kernel = (3, epollin) ∷ (5, both_directions true) ∷ [];
  wakeup_fd = 3;
  signalled = true;
  stopped = false;
  states = (5, record { read_handle = none; write_handle = some 2; edge_trigger = true }) ∷ [];
  tasks = [];
  pending = 7 ∷ [];
  resumed = [];
}

posted_loop-Shows : Shows table_epoll top posted_loop
posted_loop-Shows = record {
  state = _;
  reach =
      Protocol.caller (Protocol.caller Protocol.begin (Protocol.pushes 7 refl))
        (Protocol.signals refl);
  at = refl;
  pending = refl;
  stopped = refl;
  signalled = refl;
  free = refl;
  quiet = refl;
}

abbrev woken_3 : Event
woken_3 = record { fd = 3; events = epollin }

abbrev writable_5 : Event
writable_5 = record { fd = 5; events = epollout }

-- The coroutine that the second event resumes posts another callback, which wakes the loop up again.
abbrev woken_twice : List WaitAnswer
woken_twice = ready (woken_3 ∷ writable_5 ∷ []) ∷ ready (woken_3 ∷ []) ∷ []

posted_loop-Reported : Reported table_epoll test_program woken_twice posted_loop
unfolding dispatch dispatch_entry dispatch_all drain_and_compact resume_if_set update_or_remove_impl
    add_interest_impl register remove run_call run_calls post resume run_callbacks
    drain_pending_tasks compact_finished_tasks close_sockets table_ctl find uncaught
    sockets_of_finished unfinished put erase
posted_loop-Reported =
    batch (wakeup refl refl refl (other refl ends)) (batch (wakeup refl refl refl ends) no_more)

run-Stands_example :
    Shows table_epoll waiting (run table_epoll test_program woken_twice posted_loop).0
unfolding dispatch dispatch_entry dispatch_all drain_and_compact resume_if_set update_or_remove_impl
    add_interest_impl register remove run_call run_calls post resume run_callbacks
    drain_pending_tasks compact_finished_tasks close_sockets table_ctl find uncaught
    sockets_of_finished unfinished put erase run
run-Stands_example = run-Stands table_epoll test_program posted_loop-Reported posted_loop-Shows

run-blocked_example :
    ((run table_epoll test_program woken_twice posted_loop).0.pending ≡ [])
    × ((run table_epoll test_program woken_twice posted_loop).0.stopped ≡ false)
unfolding dispatch dispatch_entry dispatch_all drain_and_compact resume_if_set update_or_remove_impl
    add_interest_impl register remove run_call run_calls post resume run_callbacks
    drain_pending_tasks compact_finished_tasks close_sockets table_ctl find uncaught
    sockets_of_finished unfinished put erase run
run-blocked_example =
    run-blocked table_epoll test_program posted_loop-Reported posted_loop-Shows refl refl
