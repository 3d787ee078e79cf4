-- ===== src/EventLoop/MacRunTests.antt =====
-- A run of the loop on macOS (include/coro_epoll/event_loop.hpp).
use cpp_coroutine_epoll.Common.{
  ℕ, ◌≡◌, refl, true, false, none, List, [], ◌∷◌, arith, ◌==◌, pos, find, put, erase, if◌then◌else◌,
}
use cpp_coroutine_epoll.EventLoop.Pipe.{wakeup_mac, drain_wakeup_mac}
use cpp_coroutine_epoll.EventLoop.Kqueue.{filter_read, update_kqueue_filter_impl, delete_both}
use cpp_coroutine_epoll.EventLoop.MacLoop.{add_interest_mac, dispatch_mac, remove_mac}
use cpp_coroutine_epoll.EventLoop.MacKept.{AllMatch, nothing_found}
use cpp_coroutine_epoll.EventLoop.Tasks.{
  Call, reading, waits, closes_socket, posts, uncaught, unfinished, sockets_of_finished,
}
use cpp_coroutine_epoll.EventLoop.MacTasks.{
  MacEventLoop, MacProgram, run_calls_mac, run_call_mac, wait_mac, post_mac, close_socket_mac,
  close_sockets_mac, compact_mac, resume_mac, run_callbacks_mac, drain_pending_mac, wake,
}
use cpp_coroutine_epoll.EventLoop.MacRun.{
  KeventAnswer, ready, run_mac, drain_and_compact_mac, resume_all, dispatch_event, dispatch_events,
}
use cpp_coroutine_epoll.EventLoop.MacWakes.{run_mac-blocked}
use cpp_coroutine_epoll.EventLoop.MacRunRegistered.{run_mac-AllMatch}
use cpp_coroutine_epoll.EventLoop.MacFixture.{change, close, two_tables, empty_loop}

-- Callback 5 lets coroutine 1 wait for descriptor 7, and coroutine 2 for descriptor 8; coroutine 1
-- closes its socket when it is resumed, and posts callback 6.
abbrev calls_of : ℕ → List Call
calls_of h =
    if h == 5 then waits reading false (pos 7) 1 ∷ waits reading true (pos 8) 2 ∷ [] else []

abbrev two_clients : MacProgram two_tables
two_clients = record {
  segment = λ h l. if h == 1 then closes_socket (pos 7) ∷ posts 6 ∷ [] else [];
  callback = λ c l. (calls_of c, none);
  interrupted = λ l. 2;
}

abbrev posted : MacEventLoop two_tables
posted = record {
  registrations = empty_loop;
  pipe = record { bytes = 1; capacity = 16 };
  stopped = false;
  tasks = [];
  pending = 5 ∷ [];
  resumed = [];
  thrown = [];
}

-- The event on the pipe, then one on descriptor 7, then the wakeup for callback 6.
abbrev answers : List KeventAnswer
answers =
    ready (record { ident = 3; filter = filter_read; has_error = false } ∷ [])
    ∷ ready (record { ident = 7; filter = filter_read; has_error = false } ∷ [])
    ∷ ready (record { ident = 3; filter = filter_read; has_error = false } ∷ [])
    ∷ []

run_mac-AllMatch_example :
    AllMatch two_tables (run_mac two_tables two_clients answers posted).0.registrations
unfolding run_mac add_interest_mac dispatch_mac remove_mac find change close
    update_kqueue_filter_impl put erase run_calls_mac run_call_mac wait_mac post_mac
    close_socket_mac close_sockets_mac compact_mac resume_mac run_callbacks_mac drain_pending_mac
    wake drain_and_compact_mac resume_all dispatch_event dispatch_events uncaught unfinished
    sockets_of_finished delete_both wakeup_mac drain_wakeup_mac
run_mac-AllMatch_example =
    run_mac-AllMatch two_tables two_clients answers posted
      (λ j s found. absurd (nothing_found j s found), λ j other absent. (refl, refl)) refl

run_mac-blocked_example :
    ((run_mac two_tables two_clients answers posted).0.pending ≡ [])
    × ((run_mac two_tables two_clients answers posted).0.stopped ≡ false)
unfolding run_mac add_interest_mac dispatch_mac remove_mac find change close
    update_kqueue_filter_impl put erase run_calls_mac run_call_mac wait_mac post_mac
    close_socket_mac close_sockets_mac compact_mac resume_mac run_callbacks_mac drain_pending_mac
    wake drain_and_compact_mac resume_all dispatch_event dispatch_events uncaught unfinished
    sockets_of_finished delete_both wakeup_mac drain_wakeup_mac
run_mac-blocked_example =
    run_mac-blocked two_tables two_clients answers posted (omega arith) (λ ne. omega arith) refl
      refl
