-- ===== src/EventLoop/MacWakes.antt =====
-- What holds whenever `run` blocks, returns or throws on macOS (include/coro_epoll/event_loop.hpp).
use cpp_coroutine_epoll.Common.{
  ℕ, ◌<◌, ◌≡◌, Bool, Bool-cases, List-cases, subst, sym, ltb, ltb→lt, ap, ◌∙◌, ◌≢◌, refl, inl, inr,
  true, false, List, [], arith, pos, negsuc,
}
use cpp_coroutine_epoll.EventLoop.Pipe.{
  Pipe, wakeup_mac, drain_wakeup_mac_lem, wakeup_mac-capacity, wakeup_mac-readable,
}
use cpp_coroutine_epoll.EventLoop.Kqueue.{Kqueue}
use cpp_coroutine_epoll.EventLoop.Tasks.{
  Call, waits, removes, closes_socket, closes_server, posts, spawns, finishes, stops,
}
use cpp_coroutine_epoll.EventLoop.MacTasks.{
  MacEventLoop, MacProgram, run_call_mac, wait_mac, forget_mac, close_socket_mac, close_server_mac,
  post_mac, stop_mac, add_task_mac, wake,
}
use cpp_coroutine_epoll.EventLoop.Run.{blocked}
use cpp_coroutine_epoll.EventLoop.MacRun.{KeventAnswer, run_mac}
use cpp_coroutine_epoll.EventLoop.MacRuns.{Keeps, KeepsEvents, drained-Keeps, run-blocked}

module _ (kqueue : Kqueue) (program : MacProgram kqueue) where
  abbrev Loop : Type 0
  Loop = MacEventLoop kqueue

  -- A queued callback has put a byte into the pipe; so has a stop, where `stops_too` says so.
  record Woken (stops_too : Bool) (l : Loop) : Type 0 where
    room : 0 < l.pipe.capacity
    posted : l.pending ≢ [] → 0 < l.pipe.bytes
    stopping : stops_too ≡ true → l.stopped ≡ true → 0 < l.pipe.bytes

  wake-Woken :
      (b : Bool) (n : ℕ) (l l' : Loop)
      → 0 < l.pipe.capacity
      → l'.pipe ≡ wakeup_mac n l.pipe
      → Woken b l'
  wake-Woken b n l l' room is =
      let some_byte =
        ltb→lt 0 _ (ap (λ (p : Pipe). ltb 0 p.bytes) is ∙ wakeup_mac-readable n l.pipe room) in
      record {
        room = omega (arith, ap (λ (p : Pipe). p.capacity) is ∙ wakeup_mac-capacity n l.pipe);
        posted = λ _. some_byte;
        stopping = λ _ _. some_byte;
      }

  call-Woken :
      (b : Bool) (c : Call) (l : Loop) → Woken b l → Woken b (run_call_mac kqueue program c l)
  unfolding run_call_mac wait_mac forget_mac close_socket_mac close_server_mac post_mac stop_mac
      add_task_mac wake
  call-Woken b (posts c) l w = wake-Woken b _ l _ w.room refl
  call-Woken b stops l w = wake-Woken b _ l _ w.room refl
  call-Woken b (closes_socket (negsuc fd)) l w = w
  call-Woken b (closes_server (negsuc fd)) l w = w
  call-Woken b (closes_socket (pos fd)) l w = ground (arith, w.stopping)
  call-Woken b (closes_server (pos fd)) l w = ground (arith, w.stopping)
  call-Woken b (waits d et fd h) l w = ground (arith, w.stopping)
  call-Woken b (removes fd) l w = ground (arith, w.stopping)
  call-Woken b (spawns h fds) l w = ground (arith, w.stopping)
  call-Woken b (finishes h e) l w = ground (arith, w.stopping)

  Woken-Keeps : (b : Bool) → Keeps kqueue program (Woken b)
  Woken-Keeps b = record {
    calls = call-Woken b;
    notes = λ hs l w. ground (arith, w.stopping);
    erases = λ ts l w. ground (arith, w.stopping);
    swaps = λ l w. record { room = w.room; posted = λ ne. absurd (ne refl); stopping = w.stopping };
  }

  Woken-KeepsEvents : KeepsEvents kqueue program (Woken false)
  Woken-KeepsEvents = record {
    keeps = Woken-Keeps false;
    changes = λ event l w. ground (arith, w.stopping);
    empties = λ event l w. record {
      room = omega (arith, w.room, ap (λ (p : Pipe). p.capacity) (drain_wakeup_mac_lem l.pipe));
      posted = λ ne. absurd (ne refl);
      stopping = λ f. absurd (cc);
    };
  }

  Woken-idle : (l : Loop) → Woken true l → l.pipe.bytes ≡ 0 → (l.pending ≡ []) × (l.stopped ≡ false)
  Woken-idle l w empty = (
    (elim (List-cases l.pending) [
      | inl none_left ↦ none_left
      | inr (x, xs, some_left) ↦ absurd (omega (arith, w.posted (λ e. cc)))
    ]),
    (elim (Bool-cases l.stopped) [
      | inl on ↦ absurd (omega (arith, w.stopping refl on))
      | inr off ↦ off
    ]),
  )

  -- With room in the pipe for a byte, and a byte in it if callbacks are queued when `run` begins: a
  -- `run` that is blocked in kevent(2) with an empty pipe has no callback queued and is not stopped,
  -- whatever the coroutines and callbacks do, kevent(2) answers and signals interrupt.
  pub run_mac-blocked :
      (answers : List KeventAnswer) (l : Loop)
      → 0 < l.pipe.capacity
      → (l.pending ≢ [] → 0 < l.pipe.bytes)
      → (run_mac kqueue program answers l).1 ≡ blocked
      → (run_mac kqueue program answers l).0.pipe.bytes ≡ 0
      → ((run_mac kqueue program answers l).0.pending ≡ [])
        × ((run_mac kqueue program answers l).0.stopped ≡ false)
  run_mac-blocked answers l room posted is_blocked empty =
      let (m, w, going, same) =
        run-blocked kqueue program (Woken false) Woken-KeepsEvents answers l
          (record { room = room; posted = posted; stopping = λ f. absurd (cc) }) is_blocked in
      let after = drained-Keeps kqueue program (Woken true) (Woken-Keeps true) m (record {
        room = w.room;
        posted = λ ne. absurd (ne refl);
        stopping = λ _ on. absurd (cc);
      }) in
      Woken-idle _ (subst (Woken true) (sym same) after) empty
