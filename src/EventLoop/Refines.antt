-- ===== src/EventLoop/Refines.antt =====
-- `run` of include/coro_epoll/event_loop.hpp in detail (EventLoop/Run) implements the loop of the
-- threads (Wakeup/Protocol).
use cpp_coroutine_epoll.Common.{
  ℕ, ◌≡◌, inl, inr, refl, sym, subst, ◌∙◌, Bool, true, false, Option, some, none, List, [], ◌∷◌,
  ◌==◌, ltb, ltb→lt, if◌then◌else◌, arith, find, put, Option-cases,
}
use cpp_coroutine_epoll.System.{Epoll, Errno, Exception, system_error}
use cpp_coroutine_epoll.EventLoop.State.{EventLoop, FdState}
use cpp_coroutine_epoll.EventLoop.Interest.{update_or_remove_impl}
use cpp_coroutine_epoll.EventLoop.Tasks.{Program}
use cpp_coroutine_epoll.EventLoop.Run.{
  Event, WaitAnswer, ready, failed, Outcome, returned, blocked, threw, escaping, is_eintr,
  exchanged, taken_read, taken_write, resume_if_set, drain_and_compact, dispatch_entry, dispatch,
  dispatch_all, run,
}
use cpp_coroutine_epoll.Wakeup.Protocol
use cpp_coroutine_epoll.Wakeup.Protocol.{Pc, top, waiting, finished}
use cpp_coroutine_epoll.Wakeup.Delivery.{blocked_is_idle}
use cpp_coroutine_epoll.EventLoop.Shown.{
  Shows, Shows-Unseen, update-Unseen, resume-Shows, drained-Shows,
}

module _ (epoll : Epoll) (program : Program epoll.Kernel) where
  abbrev Loop : Type 0
  Loop = EventLoop epoll.Kernel

  -- epoll_wait reports the eventfd only when it has been signalled, and once in a batch; `woken` says
  -- that it has been in this one.
  pub data Batch : Bool → List Event → Loop → Type 0 where
    ends : {woken : Bool} {l : Loop} → Batch woken [] l
    other :
        {woken : Bool} {l : Loop} {e : Event} {es : List Event}
        → (e.fd == l.wakeup_fd) ≡ false
        → Batch woken es (dispatch epoll program e l).0
        → Batch woken (e ∷ es) l
    wakeup :
        {woken : Bool} {l : Loop} {e : Event} {es : List Event}
        → (e.fd == l.wakeup_fd) ≡ true
        → woken ≡ false
        → l.signalled ≡ true
        → Batch true es (dispatch epoll program e l).0
        → Batch woken (e ∷ es) l

  -- So do all answers that a run gets.
  pub data Reported : List WaitAnswer → Loop → Type 0 where
    no_more : {l : Loop} → Reported [] l
    batch :
        {l : Loop} {es : List Event} {answers : List WaitAnswer}
        → Batch false es (drain_and_compact epoll program l).0
        → Reported answers (dispatch_all epoll program es (drain_and_compact epoll program l).0)
        → Reported (ready es ∷ answers) l
    failure :
        {l : Loop} {e : Errno} {answers : List WaitAnswer}
        → Reported answers (drain_and_compact epoll program l).0
        → Reported (failed e ∷ answers) l

  resume_if_set-Shows :
      (pc : Pc) (h : Option ℕ) (l : Loop)
      → Shows epoll pc l
      → Shows epoll pc (resume_if_set epoll program h l)
  unfolding resume_if_set
  resume_if_set-Shows pc none l shown = shown
  resume_if_set-Shows pc (some h) l shown = resume-Shows epoll program pc h l shown

  dispatch_entry-Shows :
      (pc : Pc) (fd events : ℕ) (st : FdState) (l : Loop)
      → Shows epoll pc l
      → Shows epoll pc (dispatch_entry epoll program fd events st l).0
  unfolding dispatch_entry
  dispatch_entry-Shows pc fd events st l shown =
      let st' = exchanged events st in
      let narrowed = record l { states = put fd st' l.states } in
      let updated = update_or_remove_impl epoll fd st' st'.edge_trigger narrowed in
      let kept =
        Shows-Unseen epoll pc narrowed updated.0
          (update-Unseen epoll fd st' st'.edge_trigger narrowed)
          (Shows-Unseen epoll pc l narrowed
            (record { pending = refl; stopped = refl; signalled = refl }) shown) in
      elim (Option-cases updated.1) [
        | inl e ↦
            rw (e, dispatch_entry)
              (resume_if_set-Shows pc (taken_write events st) _
                (resume_if_set-Shows pc (taken_read events st) updated.0 kept))
        | inr (x, e) ↦ rw (e, dispatch_entry) kept
      ]

  dispatch_other-Shows :
      (pc : Pc) (e : Event) (l : Loop)
      → (e.fd == l.wakeup_fd) ≡ false
      → Shows epoll pc l
      → Shows epoll pc (dispatch epoll program e l).0
  unfolding dispatch
  dispatch_other-Shows pc e l other_fd shown = elim (Option-cases (find e.fd l.states)) [
    | inl missing ↦ rw (other_fd, missing) shown
    | inr (st, found) ↦ rw (other_fd, found) (dispatch_entry-Shows pc e.fd e.events st l shown)
  ]

  -- The swap of the queue at the beginning of a round.
  begins :
      (l : Loop)
      → l.stopped ≡ false
      → Shows epoll top l
      → Shows epoll waiting (record l { pending = [] })
  begins l going shown = record {
    state = _;
    reach =
        Protocol.loop
          (Protocol.loop shown.reach (Protocol.goes_on shown.at (shown.stopped ∙ going)))
          (Protocol.drains refl shown.free);
    at = refl;
    pending = refl;
    stopped = shown.stopped;
    signalled = shown.signalled;
    free = shown.free;
    quiet = shown.quiet;
  }

  dispatch_wakeup-Shows :
      (e : Event) (l : Loop)
      → (e.fd == l.wakeup_fd) ≡ true
      → l.signalled ≡ true
      → Shows epoll waiting l
      → Shows epoll top (dispatch epoll program e l).0
  unfolding dispatch
  dispatch_wakeup-Shows e l own_fd signal shown = rw own_fd (
      drained-Shows epoll program top (record l { signalled = false })
        (record {
          state = _;
          reach =
              Protocol.loop
                (Protocol.loop
                  (Protocol.loop shown.reach
                    (Protocol.wakes shown.at (ltb→lt 0 _ (sym shown.signalled ∙ signal))))
                  (Protocol.empties refl))
                (Protocol.redrains refl shown.free);
          at = refl;
          pending = refl;
          stopped = shown.stopped;
          signalled = refl;
          free = shown.free;
          quiet = shown.quiet;
        }))

  -- Within a batch the loop is in epoll_wait until the wakeup, and then at the top.
  abbrev within : Bool → Pc
  within true = top
  within false = waiting

  -- A batch without a wakeup ends the wait.
  at_top : (woken : Bool) (l : Loop) → Shows epoll (within woken) l → Shows epoll top l
  at_top true l shown = shown
  at_top false l shown = record {
    state = _;
    reach = Protocol.kernel shown.reach (Protocol.elsewhere shown.at);
    at = refl;
    pending = shown.pending;
    stopped = shown.stopped;
    signalled = shown.signalled;
    free = shown.free;
    quiet = shown.quiet;
  }

  dispatch_all-Shows :
      {woken : Bool} {es : List Event} {l : Loop}
      → Batch woken es l
      → Shows epoll (within woken) l
      → Shows epoll top (dispatch_all epoll program es l)
  unfolding dispatch_all
  dispatch_all-Shows {woken = w} ends shown = at_top w _ shown
  dispatch_all-Shows {woken = w} (other other_fd rest) shown =
      dispatch_all-Shows rest (dispatch_other-Shows (within w) _ _ other_fd shown)
  dispatch_all-Shows {woken = w} {l = l} (wakeup {e = e} own_fd first signal rest) shown =
      dispatch_all-Shows rest (
        dispatch_wakeup-Shows e l own_fd signal (subst (λ v. Shows epoll (within v) l) first shown))

  -- What the threads show when `run` has come to a stand.
  abbrev pub Stands : Outcome → Loop → Type 0
  Stands returned l = Shows epoll finished l
  Stands blocked l = Shows epoll waiting l
  Stands (threw e) l = Shows epoll waiting l

  if-Stands :
      (b : Bool) (x y : Loop × Outcome)
      → Stands x.1 x.0
      → Stands y.1 y.0
      → Stands (if b then x else y).1 (if b then x else y).0
  if-Stands true x y p q = p
  if-Stands false x y p q = q

  escaping-Stands :
      (e : Option Exception) (l : Loop) (r : Loop × Outcome)
      → Shows epoll waiting l
      → Stands r.1 r.0
      → (let s = elim e as (λ x. Loop × Outcome) [ none ↦ r | some x ↦ (l, threw x) ] in
          Stands s.1 s.0)
  escaping-Stands none l r p q = q
  escaping-Stands (some x) l r p q = p

  -- The test at the top of a round.
  ends_run : (l : Loop) → l.stopped ≡ true → Shows epoll top l → Shows epoll finished l
  ends_run l on shown = record {
    state = _;
    reach = Protocol.loop shown.reach (Protocol.ends shown.at (shown.stopped ∙ on));
    at = refl;
    pending = shown.pending;
    stopped = shown.stopped;
    signalled = shown.signalled;
    free = shown.free;
    quiet = shown.quiet;
  }

  tested-Stands :
      (b : Bool) (l : Loop) (r : Loop × Outcome)
      → l.stopped ≡ b
      → Shows epoll top l
      → (Shows epoll waiting (drain_and_compact epoll program l).0 → Stands r.1 r.0)
      → (let s = if b then (l, returned) else r in Stands s.1 s.0)
  tested-Stands true l r on shown round = ends_run l on shown
  tested-Stands false l r going shown round =
      round (drained-Shows epoll program waiting l (begins l going shown))

  -- When epoll_wait reports the eventfd only if it has been signalled, and at most once in a batch, and
  -- the threads of the protocol can be at the top of the loop with the queue, the stop flag and the
  -- signal of `l` and no `post` or `stop` under way, they can be so with those that `run` leaves, after
  -- the loop's end if `run` returned, and in epoll_wait if it blocked or threw.
  pub run-Stands :
      {answers : List WaitAnswer} {l : Loop}
      → Reported answers l
      → Shows epoll top l
      → Stands (run epoll program answers l).1 (run epoll program answers l).0
  unfolding run
  run-Stands {l = l} no_more shown =
      let drained = drain_and_compact epoll program l in
      tested-Stands l.stopped l _ refl shown
        (λ kept. escaping-Stands (escaping drained.1) drained.0 (drained.0, blocked) kept kept)
  run-Stands {l = l} (batch reported rest) shown =
      let drained = drain_and_compact epoll program l in
      tested-Stands l.stopped l _ refl shown (λ kept.
        escaping-Stands (escaping drained.1) drained.0 _ kept
          (run-Stands rest (dispatch_all-Shows reported kept)))
  run-Stands {l = l} (failure {e = e} rest) shown =
      let drained = drain_and_compact epoll program l in
      tested-Stands l.stopped l _ refl shown (λ kept.
        escaping-Stands (escaping drained.1) drained.0 _ kept (
          if-Stands (is_eintr e) _ (drained.0, threw (system_error e "epoll_wait"))
            (run-Stands rest (at_top false drained.0 kept)) kept))

  blocked-Stands :
      (r : Loop × Outcome)
      → Stands r.1 r.0
      → r.1 ≡ blocked
      → r.0.signalled ≡ false
      → (r.0.pending ≡ []) × (r.0.stopped ≡ false)
  blocked-Stands (l, returned) stands stood silent = ground arith
  blocked-Stands (l, blocked) shown stood silent =
      let idle =
        blocked_is_idle shown.reach shown.at (empty (sym shown.signalled ∙ silent)) shown.free
          shown.quiet in
      (sym shown.pending ∙ idle.0, sym shown.stopped ∙ idle.1)
    where
      empty : {n : ℕ} → ltb 0 n ≡ false → n ≡ 0
      empty {n} e = ground arith
  blocked-Stands (l, threw e) stands stood silent = ground arith

  -- When epoll_wait reports the eventfd only if it has been signalled, and at most once in a batch, and
  -- the threads of the protocol can be at the top of the loop with the queue, the stop flag and the
  -- signal of `l` and no `post` or `stop` under way: a run that is blocked in epoll_wait with no signal
  -- has no callback queued and is not stopped.
  pub run-blocked :
      {answers : List WaitAnswer} {l : Loop}
      → Reported answers l
      → Shows epoll top l
      → (run epoll program answers l).1 ≡ blocked
      → (run epoll program answers l).0.signalled ≡ false
      → ((run epoll program answers l).0.pending ≡ [])
        × ((run epoll program answers l).0.stopped ≡ false)
  run-blocked reported shown = blocked-Stands _ (run-Stands reported shown)
