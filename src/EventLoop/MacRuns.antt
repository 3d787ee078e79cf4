-- ===== src/EventLoop/MacRuns.antt =====
-- Invariants of `run` on macOS (include/coro_epoll/event_loop.hpp): what every step of the loop keeps.
use cpp_coroutine_epoll.Common.{
  ℕ, ◌≡◌, Bool, if◌then◌else◌, inl, inr, true, false, Option, none, some, List, [], ◌∷◌, arith, ℤ,
  Bool-cases, Option-cases,
}
use cpp_coroutine_epoll.System.{Exception}
use cpp_coroutine_epoll.EventLoop.State.{TaskEntry}
use cpp_coroutine_epoll.EventLoop.Pipe.{drain_wakeup_mac}
use cpp_coroutine_epoll.EventLoop.Kqueue.{Kqueue, Kevent}
use cpp_coroutine_epoll.EventLoop.MacLoop.{dispatch_mac}
use cpp_coroutine_epoll.EventLoop.Tasks.{
  Call, closes_socket, uncaught, unfinished, sockets_of_finished,
}
use cpp_coroutine_epoll.EventLoop.MacTasks.{
  MacEventLoop, MacProgram, noted, run_call_mac, run_calls_mac, close_sockets_mac, compact_mac,
  resume_mac, run_callbacks_mac, drain_pending_mac,
}
use cpp_coroutine_epoll.EventLoop.Run.{Outcome, blocked, threw, escaping, is_eintr}
use cpp_coroutine_epoll.EventLoop.MacRun.{
  KeventAnswer, ready, failed, drain_and_compact_mac, resume_all, after_dispatch, dispatch_event,
  dispatch_events, run_mac,
}

module _ (kqueue : Kqueue) (program : MacProgram kqueue) where
  abbrev Loop : Type 0
  Loop = MacEventLoop kqueue

  -- The loop after `dispatch_mac`, before what follows.
  abbrev pub dispatched : Kevent → Loop → Loop
  dispatched event l =
      let d = dispatch_mac kqueue event l.registrations in
      record l { registrations = d.loop; thrown = noted d.thrown l.thrown }

  module _ (P : Loop → Type 0) where
    -- What coroutines do, and the loop's own changes between events, keeps `P`.
    pub record Keeps : Type 0 where
      pub calls : (c : Call) (l : Loop) → P l → P (run_call_mac kqueue program c l)
      pub notes : (hs : List ℕ) (l : Loop) → P l → P (record l { resumed = hs })
      pub erases : (ts : List TaskEntry) (l : Loop) → P l → P (record l { tasks = ts })
      pub swaps : (l : Loop) → P l → P (record l { pending = [] })

    -- And so do events: the wakeup empties the pipe and takes the queue.
    pub record KeepsEvents : Type 0 where
      pub keeps : Keeps
      pub changes : (event : Kevent) (l : Loop) → P l → P (dispatched event l)
      pub empties :
          (event : Kevent) (l : Loop)
          → P l
          → P (record (dispatched event l) { pipe = drain_wakeup_mac l.pipe; pending = [] })

    module _ (k : Keeps) where
      run_calls-Keeps : (cs : List Call) (l : Loop) → P l → P (run_calls_mac kqueue program cs l)
      unfolding run_calls_mac
      run_calls-Keeps [] l p = p
      run_calls-Keeps (c ∷ cs) l p = run_calls-Keeps cs _ (k.calls c l p)

      close_sockets-Keeps :
          (fds : List ℤ) (l : Loop) → P l → P (close_sockets_mac kqueue program fds l)
      unfolding close_sockets_mac run_call_mac
      close_sockets-Keeps [] l p = p
      close_sockets-Keeps (fd ∷ fds) l p =
          close_sockets-Keeps fds _ (k.calls (closes_socket fd) l p)

      compact-Keeps : (l : Loop) → P l → P (compact_mac kqueue program l).0
      unfolding compact_mac
      compact-Keeps l p = elim (Option-cases (uncaught l.tasks)) [
        | inl e ↦
            rw (e, compact_mac)
              (close_sockets-Keeps (sockets_of_finished l.tasks) _
                (k.erases (unfinished l.tasks) l p))
        | inr (x, e) ↦ rw (e, compact_mac) p
      ]

      run_callbacks-Keeps :
          (cs : List ℕ) (l : Loop) → P l → P (run_callbacks_mac kqueue program cs l).0
      unfolding run_callbacks_mac
      run_callbacks-Keeps [] l p = p
      run_callbacks-Keeps (c ∷ cs) l p =
          let kept = run_calls-Keeps (program.callback c l).0 l p in
          elim (Option-cases (program.callback c l).1) [
            | inl e ↦ rw (e, run_callbacks_mac) (run_callbacks-Keeps cs _ kept)
            | inr (x, e) ↦ rw (e, run_callbacks_mac) kept
          ]

      -- It is enough that `P` holds when the queue has been taken.
      pub drained-Keeps :
          (l : Loop) → P (record l { pending = [] }) → P (drain_and_compact_mac kqueue program l).0
      unfolding drain_and_compact_mac drain_pending_mac
      drained-Keeps l p =
          let kept = run_callbacks-Keeps l.pending (record l { pending = [] }) p in
          elim (Option-cases (drain_pending_mac kqueue program l).1) [
            | inl e ↦ rw (e, drain_and_compact_mac) (compact-Keeps _ kept)
            | inr (x, e) ↦ rw (e, drain_and_compact_mac) kept
          ]

      resume_all-Keeps : (hs : List ℕ) (l : Loop) → P l → P (resume_all kqueue program hs l)
      unfolding resume_all resume_mac
      resume_all-Keeps [] l p = p
      resume_all-Keeps (h ∷ hs) l p =
          resume_all-Keeps hs _ (run_calls-Keeps (program.segment h l) _ (k.notes _ l p))

    if-Keeps : (b : Bool) (x y : Loop × Outcome) → P x.0 → P y.0 → P (if b then x else y).0
    if-Keeps true x y p q = p
    if-Keeps false x y p q = q

    escaping-Keeps :
        (e : Option Exception) (l' : Loop) (r : Loop × Outcome)
        → P l'
        → P r.0
        → P (elim e as (λ x. Loop × Outcome) [ none ↦ r | some x ↦ (l', threw x) ]).0
    escaping-Keeps none l' r p q = q
    escaping-Keeps (some x) l' r p q = p

    module _ (k : KeepsEvents) where
      dispatch_event-Keeps :
          (event : Kevent) (l : Loop) → P l → P (dispatch_event kqueue program event l).0
      unfolding dispatch_event after_dispatch
      dispatch_event-Keeps event l p =
          let d = dispatch_mac kqueue event l.registrations in
          elim (Bool-cases d.drains) [
            | inl e ↦ rw (e, after_dispatch) (drained-Keeps k.keeps _ (k.empties event l p))
            | inr e ↦
                rw (e, after_dispatch)
                  (resume_all-Keeps k.keeps d.resumes (dispatched event l) (k.changes event l p))
          ]

      dispatch_events-Keeps :
          (es : List Kevent) (l : Loop) → P l → P (dispatch_events kqueue program es l)
      unfolding dispatch_events
      dispatch_events-Keeps [] l p = p
      dispatch_events-Keeps (e ∷ es) l p = dispatch_events-Keeps es _ (dispatch_event-Keeps e l p)

      pub run-Keeps :
          (answers : List KeventAnswer) (l : Loop) → P l → P (run_mac kqueue program answers l).0
      unfolding run_mac
      run-Keeps [] l p =
          let l' = (drain_and_compact_mac kqueue program l).0 in
          let kept = drained-Keeps k.keeps l (k.keeps.swaps l p) in
          if-Keeps l.stopped _ _ p (escaping-Keeps (escaping _) l' (l', blocked) kept kept)
      run-Keeps (ready es ∷ answers) l p =
          let l' = (drain_and_compact_mac kqueue program l).0 in
          let kept = drained-Keeps k.keeps l (k.keeps.swaps l p) in
          if-Keeps l.stopped _ _ p (
            escaping-Keeps (escaping _) l' _ kept (
              run-Keeps answers (dispatch_events kqueue program es l')
                (dispatch_events-Keeps es l' kept)))
      run-Keeps (failed e ∷ answers) l p =
          let l' = (drain_and_compact_mac kqueue program l).0 in
          let kept = drained-Keeps k.keeps l (k.keeps.swaps l p) in
          if-Keeps l.stopped _ _ p (
            escaping-Keeps (escaping _) l' _ kept
              (if-Keeps (is_eintr e) _ _ (run-Keeps answers l' kept) kept))

      -- A `run` that is blocked has just drained and compacted a loop that was not stopped.
      pub run-blocked :
          (answers : List KeventAnswer) (l : Loop)
          → P l
          → (run_mac kqueue program answers l).1 ≡ blocked
          → (m : Loop) × P m
            × (m.stopped ≡ false)
            × ((run_mac kqueue program answers l).0 ≡ (drain_and_compact_mac kqueue program m).0)
      unfolding run_mac
      run-blocked [] l p h = (l, p, ground arith, ground arith)
      run-blocked (ready es ∷ answers) l p h =
          let l' = (drain_and_compact_mac kqueue program l).0 in
          let kept = drained-Keeps k.keeps l (k.keeps.swaps l p) in
          let (m, q, going, same) =
            run-blocked answers (dispatch_events kqueue program es l')
              (dispatch_events-Keeps es l' kept) (ground arith) in
          (m, q, going, ground arith)
      run-blocked (failed e ∷ answers) l p h =
          let kept = drained-Keeps k.keeps l (k.keeps.swaps l p) in
          let (m, q, going, same) =
            run-blocked answers (drain_and_compact_mac kqueue program l).0 kept (ground arith) in
          (m, q, going, ground arith)
