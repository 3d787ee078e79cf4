-- ===== src/EventLoop/Tests.antt =====
-- Runs of the event loop on the instance and the program of EventLoop/Fixture.antt.
use cpp_coroutine_epoll.Common.{
  ℕ, ◌≡◌, refl, true, false, none, some, List, [], ◌∷◌, pos, find, arith,
}
use cpp_coroutine_epoll.System.{
  other_errno, eintr, system_error, runtime_error, unknown_exception, epollin, epollhup,
}
use cpp_coroutine_epoll.EventLoop.State.{FdState, TaskEntry, EventLoop}
use cpp_coroutine_epoll.EventLoop.Interest.{update_or_remove_impl, both_directions}
use cpp_coroutine_epoll.EventLoop.Run.{Event, WaitAnswer, ready, failed, dispatch, dispatch_entry}
use cpp_coroutine_epoll.EventLoop.Tasks.{Program, waits, reading}
use cpp_coroutine_epoll.EventLoop.Resumes.{dispatch_fatal}
use cpp_coroutine_epoll.EventLoop.Fixture.{Table, table_ctl, table_epoll, test_program}

abbrev both_wait : FdState
both_wait = record { read_handle = some 1; write_handle = some 2; edge_trigger = true }

abbrev reader_waits : FdState
reader_waits = record { read_handle = some 1; write_handle = none; edge_trigger = true }

abbrev ended : TaskEntry
ended = record {
  coroutine = 8;
  done = true;
  exception = some (runtime_error "task");
  sockets = pos 7 ∷ [];
}

abbrev going_on : TaskEntry
going_on = record { coroutine = 1; done = false; exception = none; sockets = pos 5 ∷ [] }

abbrev odd : TaskEntry
odd = record { coroutine = 4; done = true; exception = some (unknown_exception 0); sockets = [] }

-- The wakeup descriptor is 3; on `fd` the coroutines of `st` wait.
abbrev loop_on : ℕ → FdState → List TaskEntry → List ℕ → EventLoop Table
loop_on fd st tasks pending = record {
  kernel = (3, epollin) ∷ (fd, both_directions true) ∷ [];
  wakeup_fd = 3;
  signalled = false;
  stopped = false;
  states = (fd, st) ∷ [];
  tasks = tasks;
  pending = pending;
  resumed = [];
}

-- Coroutine 1 waits to read from descriptor 5 again and again; callbacks do nothing.
abbrev reader : Program Table
reader = record { segment = λ h l. waits reading true (pos 5) 1 ∷ []; callback = λ c l. ([], none) }

-- Only the reader of descriptor 5 is resumed; the writer goes on waiting.
abbrev readable_twice : List WaitAnswer
readable_twice =
    ready (record { fd = 5; events = epollin } ∷ [])
    ∷ failed eintr
    ∷ ready (record { fd = 5; events = epollin } ∷ [])
    ∷ []

abbrev hangup_5 : Event
hangup_5 = record { fd = 5; events = epollhup }

abbrev readable_9 : Event
readable_9 = record { fd = 9; events = epollin }

-- The reader of descriptor 9 is gone from the table, and has not been resumed.
dispatch_fatal_example :
    (find 9 (dispatch table_epoll test_program readable_9 (loop_on 9 both_wait [] [])).0.states
      ≡ some (record both_wait { read_handle = none }))
    × ((dispatch table_epoll test_program readable_9 (loop_on 9 both_wait [] [])).0.resumed ≡ [])
unfolding find dispatch dispatch_entry update_or_remove_impl table_ctl
dispatch_fatal_example =
    dispatch_fatal table_epoll test_program readable_9 both_wait (loop_on 9 both_wait [] [])
      (system_error (other_errno 12) "epoll_ctl mod") (omega arith) refl refl
