-- ===== src/EventLoop/Shown.antt =====
-- The class `EventLoop` of include/coro_epoll/event_loop.hpp as one thread (EventLoop/Run) and as many
-- (Wakeup/Protocol): each state of the first is shown by a reachable one of the second.
use cpp_coroutine_epoll.Common.{
  ℕ, ◌≡◌, refl, ◌∙◌, ap, Bool, true, false, List, [], ◌∷◌, ◌++◌, ltb, arith, ℤ, pos, negsuc,
  Option-cases, inl, inr,
}
use cpp_coroutine_epoll.System.{Epoll}
use cpp_coroutine_epoll.EventLoop.State.{EventLoop, FdState}
use cpp_coroutine_epoll.EventLoop.Interest.{
  add_interest_impl, register, update_or_remove_impl, remove,
}
use cpp_coroutine_epoll.EventLoop.Tasks.{
  Call, waits, removes, closes_socket, closes_server, posts, spawns, finishes, stops, Program,
  event_of, run_call, run_calls, post, stop, begin_task, close_socket, close_server, close_sockets,
  compact_finished_tasks, uncaught, unfinished, sockets_of_finished, resume, run_callbacks,
  drain_pending_tasks,
}
use cpp_coroutine_epoll.EventLoop.Run.{drain_and_compact}
use cpp_coroutine_epoll.Wakeup.Protocol
use cpp_coroutine_epoll.Wakeup.Protocol.{Pc, Shared, Reach, bump}

bump_pos : (n : ℕ) → true ≡ ltb 0 (bump n)
bump_pos n = ground arith

module _ (epoll : Epoll) where
  abbrev Loop : Type 0
  Loop = EventLoop epoll.Kernel

  -- A reachable state of the threads, with the loop at `pc` and no call of `post` or `stop` under way,
  -- that has the queue, the stop flag and the signal of `l`.
  pub record Shows (pc : Pc) (l : Loop) : Type 0 where
    pub state : Shared
    pub reach : Reach state
    pub at : state.pc ≡ pc
    pub pending : state.pending ≡ l.pending
    pub stopped : state.stopped ≡ l.stopped
    pub signalled : l.signalled ≡ ltb 0 state.counter
    pub free : state.posting ≡ false
    pub quiet : state.stopping ≡ 0

  -- What the threads see is the same in both.
  pub record Unseen (l l' : Loop) : Type 0 where
    pub pending : l.pending ≡ l'.pending
    pub stopped : l.stopped ≡ l'.stopped
    pub signalled : l'.signalled ≡ l.signalled

  pub Shows-Unseen : (pc : Pc) (l l' : Loop) → Unseen l l' → Shows pc l → Shows pc l'
  Shows-Unseen pc l l' same shown = record {
    state = shown.state;
    reach = shown.reach;
    at = shown.at;
    pending = shown.pending ∙ same.pending;
    stopped = shown.stopped ∙ same.stopped;
    signalled = same.signalled ∙ shown.signalled;
    free = shown.free;
    quiet = shown.quiet;
  }

  post-Shows : (pc : Pc) (c : ℕ) (l : Loop) → Shows pc l → Shows pc (post epoll c l)
  unfolding post
  post-Shows pc c l shown = record {
    state = _;
    reach =
        Protocol.caller (Protocol.caller shown.reach (Protocol.pushes c shown.free))
          (Protocol.signals refl);
    at = shown.at;
    pending = ap (λ cs. cs ++ c ∷ []) shown.pending;
    stopped = shown.stopped;
    signalled = bump_pos shown.state.counter;
    free = refl;
    quiet = shown.quiet;
  }

  stop-Shows : (pc : Pc) (l : Loop) → Shows pc l → Shows pc (stop epoll l)
  unfolding stop
  stop-Shows pc l shown = record {
    state = _;
    reach =
        Protocol.caller (Protocol.caller shown.reach Protocol.sets_stop)
          (Protocol.signals_stop shown.state.stopping refl);
    at = shown.at;
    pending = shown.pending;
    stopped = refl;
    signalled = bump_pos shown.state.counter;
    free = shown.free;
    quiet = shown.quiet;
  }

  add_interest-Unseen :
      (fd : ℤ) (event handle : ℕ) (et : Bool) (l : Loop)
      → Unseen l (add_interest_impl epoll fd event handle et l).0
  unfolding add_interest_impl register
  add_interest-Unseen (negsuc n) event handle et l = record {
    pending = refl;
    stopped = refl;
    signalled = refl;
  }
  add_interest-Unseen (pos fd) event handle et l = ground arith

  pub update-Unseen :
      (fd : ℕ) (st : FdState) (et : Bool) (l : Loop)
      → Unseen l (update_or_remove_impl epoll fd st et l).0
  unfolding update_or_remove_impl
  update-Unseen fd st et l = ground arith

  close_socket-Unseen : (fd : ℤ) (l : Loop) → Unseen l (close_socket epoll fd l)
  unfolding close_socket remove
  close_socket-Unseen (negsuc n) l = record { pending = refl; stopped = refl; signalled = refl }
  close_socket-Unseen (pos fd) l = record { pending = refl; stopped = refl; signalled = refl }

  call-Shows : (pc : Pc) (c : Call) (l : Loop) → Shows pc l → Shows pc (run_call epoll c l)
  unfolding run_call remove close_server begin_task
  call-Shows pc (waits d et fd h) l shown =
      Shows-Unseen pc l _ (add_interest-Unseen fd (event_of d) h et l) shown
  call-Shows pc (removes (pos fd)) l shown =
      Shows-Unseen pc l _ (record { pending = refl; stopped = refl; signalled = refl }) shown
  call-Shows pc (removes (negsuc n)) l shown = shown
  call-Shows pc (closes_socket fd) l shown = Shows-Unseen pc l _ (close_socket-Unseen fd l) shown
  call-Shows pc (closes_server (pos fd)) l shown =
      Shows-Unseen pc l _ (record { pending = refl; stopped = refl; signalled = refl }) shown
  call-Shows pc (closes_server (negsuc n)) l shown = shown
  call-Shows pc (posts c) l shown = post-Shows pc c l shown
  call-Shows pc (spawns h fds) l shown =
      Shows-Unseen pc l _ (record { pending = refl; stopped = refl; signalled = refl }) shown
  call-Shows pc (finishes h e) l shown =
      Shows-Unseen pc l _ (record { pending = refl; stopped = refl; signalled = refl }) shown
  call-Shows pc stops l shown = stop-Shows pc l shown

  pub calls-Shows :
      (pc : Pc) (cs : List Call) (l : Loop) → Shows pc l → Shows pc (run_calls epoll cs l)
  unfolding run_calls
  calls-Shows pc [] l shown = shown
  calls-Shows pc (c ∷ cs) l shown = calls-Shows pc cs _ (call-Shows pc c l shown)

  close_sockets-Shows :
      (pc : Pc) (fds : List ℤ) (l : Loop) → Shows pc l → Shows pc (close_sockets epoll fds l)
  unfolding close_sockets
  close_sockets-Shows pc [] l shown = shown
  close_sockets-Shows pc (fd ∷ fds) l shown =
      close_sockets-Shows pc fds _ (Shows-Unseen pc l _ (close_socket-Unseen fd l) shown)

  compact-Shows : (pc : Pc) (l : Loop) → Shows pc l → Shows pc (compact_finished_tasks epoll l).0
  unfolding compact_finished_tasks
  compact-Shows pc l shown = elim (Option-cases (uncaught l.tasks)) [
    | inl e ↦
        rw (e, compact_finished_tasks)
          (close_sockets-Shows pc (sockets_of_finished l.tasks)
            (record l { tasks = unfinished l.tasks })
            (Shows-Unseen pc l _ (record { pending = refl; stopped = refl; signalled = refl })
              shown))
    | inr (x, e) ↦ rw (e, compact_finished_tasks) shown
  ]

  module _ (program : Program epoll.Kernel) where
    pub resume-Shows :
        (pc : Pc) (h : ℕ) (l : Loop) → Shows pc l → Shows pc (resume epoll program h l)
    unfolding resume
    resume-Shows pc h l shown =
        calls-Shows pc (program.segment h l) _
          (Shows-Unseen pc l _ (record { pending = refl; stopped = refl; signalled = refl }) shown)

    callbacks-Shows :
        (pc : Pc) (cs : List ℕ) (l : Loop)
        → Shows pc l
        → Shows pc (run_callbacks epoll program cs l).0
    unfolding run_callbacks
    callbacks-Shows pc [] l shown = shown
    callbacks-Shows pc (c ∷ cs) l shown =
        let called = calls-Shows pc (program.callback c l).0 l shown in
        elim (Option-cases (program.callback c l).1) [
          | inl e ↦ rw (e, run_callbacks) (callbacks-Shows pc cs _ called)
          | inr (x, e) ↦ rw (e, run_callbacks) called
        ]

    -- It is enough that the loop is shown with its queue taken.
    pub drained-Shows :
        (pc : Pc) (l : Loop)
        → Shows pc (record l { pending = [] })
        → Shows pc (drain_and_compact epoll program l).0
    unfolding drain_and_compact drain_pending_tasks
    drained-Shows pc l shown =
        let called = callbacks-Shows pc l.pending (record l { pending = [] }) shown in
        elim (Option-cases (drain_pending_tasks epoll program l).1) [
          | inl e ↦ rw (e, drain_and_compact) (compact-Shows pc _ called)
          | inr (x, e) ↦ rw (e, drain_and_compact) called
        ]
