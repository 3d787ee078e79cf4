-- ===== src/EventLoop/NoLostWaiter.antt =====
-- The invariant of EventLoop/Registered.antt through whole turns of `run`, whatever the coroutines
-- and callbacks do and whatever epoll_wait answers.
use cpp_coroutine_epoll.Common.{
  ℕ, ◌≡◌, inl, inr, false, Option, none, some, List, [], ◌∷◌, arith, ◌==◌, ℤ, find, put, Bool-cases,
  Option-cases,
}
use cpp_coroutine_epoll.System.{Epoll}
use cpp_coroutine_epoll.EventLoop.State.{FdState, EventLoop}
use cpp_coroutine_epoll.EventLoop.Interest.{update_or_remove_impl}
use cpp_coroutine_epoll.EventLoop.Tasks.{
  Call, waits, removes, closes_socket, closes_server, posts, spawns, finishes, stops, Program,
  close_socket, run_call, run_calls, close_sockets, compact_finished_tasks, resume, run_callbacks,
  drain_pending_tasks, post, stop, begin_task, uncaught, sockets_of_finished, unfinished,
}
use cpp_coroutine_epoll.EventLoop.Run.{
  Event, WaitAnswer, ready, failed, exchanged, taken_read, taken_write, resume_if_set,
  drain_and_compact, dispatch_entry, dispatch, dispatch_all, run,
}
use cpp_coroutine_epoll.EventLoop.Registered.{
  Inv, add_interest-Inv, remove-Inv, close_socket-Inv, close_server-Inv, update-Inv,
}

module _ (epoll : Epoll) where
  run_call-Inv :
      (c : Call) (l : EventLoop epoll.Kernel) → Inv epoll l → Inv epoll (run_call epoll c l)
  unfolding run_call post stop begin_task
  run_call-Inv (waits d et fd h) l inv = add_interest-Inv epoll d fd h et l inv
  run_call-Inv (removes fd) l inv = remove-Inv epoll fd l inv
  run_call-Inv (closes_socket fd) l inv = close_socket-Inv epoll fd l inv
  run_call-Inv (closes_server fd) l inv = close_server-Inv epoll fd l inv
  run_call-Inv (posts callback) l inv = inv
  run_call-Inv (spawns h fds) l inv = inv
  run_call-Inv (finishes h e) l inv = inv
  run_call-Inv stops l inv = inv

  run_calls-Inv :
      (cs : List Call) (l : EventLoop epoll.Kernel) → Inv epoll l → Inv epoll (run_calls epoll cs l)
  unfolding run_calls
  run_calls-Inv [] l inv = inv
  run_calls-Inv (c ∷ cs) l inv = run_calls-Inv cs (run_call epoll c l) (run_call-Inv c l inv)

  close_sockets-Inv :
      (fds : List ℤ) (l : EventLoop epoll.Kernel)
      → Inv epoll l
      → Inv epoll (close_sockets epoll fds l)
  unfolding close_sockets
  close_sockets-Inv [] l inv = inv
  close_sockets-Inv (fd ∷ fds) l inv =
      close_sockets-Inv fds (close_socket epoll fd l) (close_socket-Inv epoll fd l inv)

  compact-Inv :
      (l : EventLoop epoll.Kernel) → Inv epoll l → Inv epoll (compact_finished_tasks epoll l).0
  unfolding compact_finished_tasks
  compact-Inv l inv = elim (Option-cases (uncaught l.tasks)) [
    | inl e ↦
        rw (e, compact_finished_tasks)
          (close_sockets-Inv (sockets_of_finished l.tasks) (record l { tasks = unfinished l.tasks })
            inv)
    | inr (x, e) ↦ rw (e, compact_finished_tasks) inv
  ]

  module _ (program : Program epoll.Kernel) where
    resume-Inv :
        (h : ℕ) (l : EventLoop epoll.Kernel) → Inv epoll l → Inv epoll (resume epoll program h l)
    unfolding resume
    resume-Inv h l inv = run_calls-Inv _ _ inv

    run_callbacks-Inv :
        (cs : List ℕ) (l : EventLoop epoll.Kernel)
        → Inv epoll l
        → Inv epoll (run_callbacks epoll program cs l).0
    unfolding run_callbacks
    run_callbacks-Inv [] l inv = inv
    run_callbacks-Inv (c ∷ cs) l inv =
        let kept = run_calls-Inv (program.callback c l).0 l inv in
        elim (Option-cases (program.callback c l).1) [
          | inl e ↦ rw (e, run_callbacks) (run_callbacks-Inv cs _ kept)
          | inr (x, e) ↦ rw (e, run_callbacks) kept
        ]

    drain_and_compact-Inv :
        (l : EventLoop epoll.Kernel) → Inv epoll l → Inv epoll (drain_and_compact epoll program l).0
    unfolding drain_and_compact drain_pending_tasks
    drain_and_compact-Inv l inv =
        let drained = drain_pending_tasks epoll program l in
        let kept = run_callbacks-Inv l.pending (record l { pending = [] }) inv in
        elim (Option-cases drained.1) [
          | inl e ↦ rw (e, drain_and_compact) (compact-Inv drained.0 kept)
          | inr (x, e) ↦ rw (e, drain_and_compact) kept
        ]

    resume_if_set-Inv :
        (h : Option ℕ) (l : EventLoop epoll.Kernel)
        → Inv epoll l
        → Inv epoll (resume_if_set epoll program h l)
    unfolding resume_if_set
    resume_if_set-Inv none l inv = inv
    resume_if_set-Inv (some h) l inv = resume-Inv h l inv

    dispatch_entry-Inv :
        (fd events : ℕ) (st : FdState) (l : EventLoop epoll.Kernel)
        → find fd l.states ≡ some st
        → Inv epoll l
        → Inv epoll (dispatch_entry epoll program fd events st l).0
    unfolding dispatch_entry
    dispatch_entry-Inv fd events st l q inv =
        let st' = exchanged events st in
        let narrowed = record l { states = put fd st' l.states } in
        let updated = update_or_remove_impl epoll fd st' st'.edge_trigger narrowed in
        let kept =
          update-Inv epoll fd st l st' st'.edge_trigger q (ground arith) (ground arith) inv in
        elim (Option-cases updated.1) [
          | inl e ↦
              rw (e, dispatch_entry)
                (resume_if_set-Inv (taken_write events st) _
                  (resume_if_set-Inv (taken_read events st) updated.0 kept))
          | inr (x, e) ↦ rw (e, dispatch_entry) kept
        ]

    -- Whatever a ready descriptor makes the loop do, every entry stays watched for what it waits for.
    pub dispatch-Inv :
        (event : Event) (l : EventLoop epoll.Kernel)
        → Inv epoll l
        → Inv epoll (dispatch epoll program event l).0
    unfolding dispatch
    dispatch-Inv event l inv = elim (Bool-cases (event.fd == l.wakeup_fd)) [
      | inl e ↦ rw e (drain_and_compact-Inv (record l { signalled = false }) inv)
      | inr e ↦ elim (Option-cases (find event.fd l.states)) [
        | inl missing ↦ rw (e, missing) inv
        | inr (st, found) ↦ rw (e, found) (dispatch_entry-Inv event.fd event.events st l found inv)
      ]
    ]

    dispatch_all-Inv :
        (es : List Event) (l : EventLoop epoll.Kernel)
        → Inv epoll l
        → Inv epoll (dispatch_all epoll program es l)
    unfolding dispatch_all
    dispatch_all-Inv [] l inv = inv
    dispatch_all-Inv (e ∷ es) l inv = dispatch_all-Inv es _ (dispatch-Inv e l inv)

    -- However long `run` goes on, whatever the coroutines and callbacks do and epoll_wait and
    -- epoll_ctl answer: if every entry of `states_` is watched for what its coroutines wait for when
    -- `run` begins, so is every entry when it blocks, returns or throws.
    pub run-Inv :
        (answers : List WaitAnswer) (l : EventLoop epoll.Kernel)
        → Inv epoll l
        → Inv epoll (run epoll program answers l).0
    unfolding run
    run-Inv [] l inv j s = ground (arith, inv j s, drain_and_compact-Inv l inv j s)
    run-Inv (ready es ∷ answers) l inv j s =
        let l' = (drain_and_compact epoll program l).0 in
        let kept = drain_and_compact-Inv l inv in
        let rest =
          run-Inv answers (dispatch_all epoll program es l') (dispatch_all-Inv es l' kept) in
        ground (arith, inv j s, kept j s, rest j s)
    run-Inv (failed e ∷ answers) l inv j s =
        let l' = (drain_and_compact epoll program l).0 in
        let kept = drain_and_compact-Inv l inv in
        ground (arith, inv j s, kept j s, run-Inv answers l' kept j s)
