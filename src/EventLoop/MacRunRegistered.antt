-- ===== src/EventLoop/MacRunRegistered.antt =====
-- The registrations behind a `run` on macOS (include/coro_epoll/event_loop.hpp).
use cpp_coroutine_epoll.Common.{ℕ, ◌≡◌, refl, ◌∙◌, Option, none, some, List, [], pos, negsuc, erase}
use cpp_coroutine_epoll.System.{Exception}
use cpp_coroutine_epoll.EventLoop.Kqueue.{
  filter_read, filter_write, Kqueue, Kevent, MacLoop, delete_both,
}
use cpp_coroutine_epoll.EventLoop.MacLoop.{remove_mac}
use cpp_coroutine_epoll.EventLoop.Filters.{delete_both-elsewhere, delete_both-Unregistered}
use cpp_coroutine_epoll.EventLoop.MacKept.{AllMatch, erase-AllMatch}
use cpp_coroutine_epoll.EventLoop.MacRegistered.{
  add_interest-AllMatch, remove-AllMatch, dispatch-AllMatch,
}
use cpp_coroutine_epoll.EventLoop.Tasks.{
  Call, waits, removes, closes_socket, closes_server, posts, spawns, finishes, stops,
}
use cpp_coroutine_epoll.EventLoop.MacTasks.{
  MacEventLoop, MacProgram, noted, filter_of, run_call_mac, wait_mac, forget_mac, close_fd,
  close_socket_mac, close_server_mac, post_mac, stop_mac, add_task_mac, wake,
}
use cpp_coroutine_epoll.EventLoop.MacRun.{KeventAnswer, run_mac}
use cpp_coroutine_epoll.EventLoop.MacRuns.{KeepsEvents, dispatched, run-Keeps}

module _ (kqueue : Kqueue) where
  close_socket-AllMatch :
      (fd : ℕ) (m : MacLoop kqueue)
      → AllMatch kqueue m
      → AllMatch kqueue (record m {
        kernel = kqueue.close fd (delete_both kqueue fd m.kernel);
        states = erase fd m.states;
      })
  close_socket-AllMatch fd m inv =
      erase-AllMatch kqueue fd _ m.states m inv
        (record {
          old = λ j apart. refl;
          same = λ j g apart.
              kqueue.close_elsewhere fd (delete_both kqueue fd m.kernel) j g apart
              ∙ delete_both-elsewhere kqueue fd m.kernel j g apart;
        })
        (
          kqueue.close_unsets fd (delete_both kqueue fd m.kernel) filter_read,
          kqueue.close_unsets fd (delete_both kqueue fd m.kernel) filter_write,
        )

  close_server-AllMatch :
      (fd : ℕ) (m : MacLoop kqueue)
      → AllMatch kqueue m
      → AllMatch kqueue (record m {
        kernel = delete_both kqueue fd (kqueue.close fd m.kernel);
        states = erase fd m.states;
      })
  close_server-AllMatch fd m inv =
      erase-AllMatch kqueue fd _ m.states m inv
        (record {
          old = λ j apart. refl;
          same = λ j g apart.
              delete_both-elsewhere kqueue fd (kqueue.close fd m.kernel) j g apart
              ∙ kqueue.close_elsewhere fd m.kernel j g apart;
        })
        (delete_both-Unregistered kqueue fd (kqueue.close fd m.kernel))

  module _ (program : MacProgram kqueue) where
    abbrev Loop : Type 0
    Loop = MacEventLoop kqueue

    -- While nothing has thrown, the table matches the registrations.
    abbrev Registered : Loop → Type 0
    Registered l = l.thrown ≡ [] → AllMatch kqueue l.registrations

    noted-nil :
        (e : Option Exception) (es : List Exception) → noted e es ≡ [] → (e ≡ none) × (es ≡ [])
    noted-nil none es h = (refl, h)
    noted-nil (some e) es h = absurd (cc)

    call-Registered :
        (c : Call) (l : Loop) → Registered l → Registered (run_call_mac kqueue program c l)
    unfolding run_call_mac wait_mac forget_mac close_socket_mac close_server_mac close_fd post_mac
        stop_mac add_task_mac wake remove_mac
    call-Registered (waits d et fd h) l inv = λ fine.
        let (ok, before) = noted-nil _ l.thrown fine in
        add_interest-AllMatch kqueue fd (filter_of d) h et l.registrations (inv before) ok
    call-Registered (removes fd) l inv =
        λ fine. remove-AllMatch kqueue fd l.registrations (inv fine)
    call-Registered (closes_socket (pos fd)) l inv =
        λ fine. close_socket-AllMatch fd l.registrations (inv fine)
    call-Registered (closes_socket (negsuc n)) l inv = inv
    call-Registered (closes_server (pos fd)) l inv =
        λ fine. close_server-AllMatch fd l.registrations (inv fine)
    call-Registered (closes_server (negsuc n)) l inv = inv
    call-Registered (posts c) l inv = inv
    call-Registered (spawns h fds) l inv = inv
    call-Registered (finishes h e) l inv = inv
    call-Registered stops l inv = inv

    dispatched-Registered :
        (event : Kevent) (l : Loop) → Registered l → Registered (dispatched kqueue program event l)
    dispatched-Registered event l inv fine =
        let (ok, before) = noted-nil _ l.thrown fine in
        dispatch-AllMatch kqueue event l.registrations (inv before) ok

    Registered-KeepsEvents : KeepsEvents kqueue program Registered
    Registered-KeepsEvents = record {
      keeps = record {
        calls = call-Registered;
        notes = λ hs l inv. inv;
        erases = λ ts l inv. inv;
        swaps = λ l inv. inv;
      };
      changes = dispatched-Registered;
      empties = dispatched-Registered;
    }

    -- However long `run` goes on, and whatever the coroutines and callbacks do and kevent(2) answers: if
    -- the table matches the registrations when `run` begins, and no change of the registrations has
    -- thrown, it matches them when `run` blocks, returns or throws: for each entry the read filter of its
    -- descriptor is registered, with EV_CLEAR as its `edge_trigger` says, if a coroutine waits to
    -- read, and else it is not; likewise for writing; and for a descriptor without an entry, other than
    -- the read end of the pipe, neither filter is registered.
    pub run_mac-AllMatch :
        (answers : List KeventAnswer) (l : Loop)
        → AllMatch kqueue l.registrations
        → (run_mac kqueue program answers l).0.thrown ≡ []
        → AllMatch kqueue (run_mac kqueue program answers l).0.registrations
    run_mac-AllMatch answers l inv =
        run-Keeps kqueue program Registered Registered-KeepsEvents answers l (λ fine. inv)
