-- ===== src/EventLoop/Resumes.antt =====
-- Which coroutines `dispatch` resumes, and which the loop forgets.
use cpp_coroutine_epoll.Common.{
  if◌then◌else◌, ℕ, ◌≡◌, ◌≢◌, Bool, Option, none, some, List, [], ◌∷◌, ◌++◌, arith, pos, find, put,
  find-put, find-erase,
}
use cpp_coroutine_epoll.System.{Errno, Exception, system_error, Epoll, ctl_mod}
use cpp_coroutine_epoll.EventLoop.State.{FdState, EventLoop}
use cpp_coroutine_epoll.EventLoop.Interest.{
  update_or_remove_impl, add_interest_impl, register, remove, both_directions,
}
use cpp_coroutine_epoll.EventLoop.Tasks.{writing, event_of, Call, spawns, Program}
use cpp_coroutine_epoll.EventLoop.Run.{
  Event, exchanged, read_ready, write_ready, dispatch_entry, dispatch,
}

-- The coroutines that are spawned, each of which is resumed at that.
abbrev spawned_by : Call → List ℕ
spawned_by (spawns h fds) = h ∷ []
spawned_by c = []

unfoldable pub spawned : List Call → List ℕ
spawned [] = []
spawned (c ∷ cs) = spawned_by c ++ spawned cs

module _ (epoll : Epoll) where
  module _ (program : Program epoll.Kernel) where
    -- The coroutines that are resumed when `handle` is, if it is not null: itself, and those that it
    -- spawns until it suspends.
    abbrev pub started : Option ℕ → EventLoop epoll.Kernel → List ℕ
    started none l = []
    started (some h) l = h ∷ spawned (program.segment h l)

    -- The loop when `dispatch` has narrowed the entry `st` of `fd`, before it resumes anything.
    abbrev pub narrowed : ℕ → ℕ → FdState → EventLoop epoll.Kernel → EventLoop epoll.Kernel
    narrowed fd events st l =
        let st' = exchanged events st in
        (update_or_remove_impl epoll fd st' st'.edge_trigger
          (record l { states = put fd st' l.states })).0

    dispatch_entry_fatal :
        (fd events : ℕ) (st : FdState) (l : EventLoop epoll.Kernel) (e : Exception)
        → (dispatch_entry epoll program fd events st l).1 ≡ some e
        → (find fd (dispatch_entry epoll program fd events st l).0.states
            ≡ some (exchanged events st))
          × ((dispatch_entry epoll program fd events st l).0.resumed ≡ l.resumed)
    unfolding dispatch_entry update_or_remove_impl
    dispatch_entry_fatal fd events st l e thrown =
        ground (arith, find-put fd fd (exchanged events st) l.states)

    dispatch-entry :
        (event : Event) (st : FdState) (l : EventLoop epoll.Kernel)
        → event.fd ≢ l.wakeup_fd
        → find event.fd l.states ≡ some st
        → dispatch epoll program event l ≡ dispatch_entry epoll program event.fd event.events st l
    unfolding dispatch
    dispatch-entry event st l other found = ground arith

    -- What waits on a removed descriptor is forgotten: no event on it resumes anything, or changes
    -- the loop at all.
    pub dispatch-remove :
        (event : Event) (l : EventLoop epoll.Kernel)
        → event.fd ≢ l.wakeup_fd
        → dispatch epoll program event (remove epoll (pos event.fd) l)
          ≡ (remove epoll (pos event.fd) l, none)
    unfolding dispatch remove
    dispatch-remove event l other = ground (arith, find-erase event.fd event.fd l.states)

    -- When `dispatch` throws on an event for a descriptor that is not the wakeup one and has an
    -- entry, no coroutine has been resumed, and the entry that stays in the table has lost the
    -- handle of each direction that was ready.
    pub dispatch_fatal :
        (event : Event) (st : FdState) (l : EventLoop epoll.Kernel) (e : Exception)
        → event.fd ≢ l.wakeup_fd
        → find event.fd l.states ≡ some st
        → (dispatch epoll program event l).1 ≡ some e
        → (find event.fd (dispatch epoll program event l).0.states
            ≡ some (record st {
              read_handle = if read_ready event.events then none else st.read_handle;
              write_handle = if write_ready event.events then none else st.write_handle;
            }))
          × ((dispatch epoll program event l).0.resumed ≡ l.resumed)
    dispatch_fatal event st l e other found thrown =
        let eq = dispatch-entry event st l other found in
        let (kept, same) = dispatch_entry_fatal event.fd event.events st l e (rw eq at thrown) in
        (rw eq kept, rw eq same)

  -- `add_interest_impl` for writing on a descriptor that has a waiting reader: when the MOD fails, the
  -- reader is out of the table too, though the descriptor stays registered as it was.
  pub add_interest_mod_failed :
      (fd r h : ℕ) (et : Bool) (st : FdState) (l : EventLoop epoll.Kernel) (e : Errno)
      → find fd l.states ≡ some st
      → st.read_handle ≡ some r
      → (epoll.ctl ctl_mod fd (both_directions et) l.kernel).0 ≡ some e
      → let l' = (add_interest_impl epoll (pos fd) (event_of writing) h et l).0 in
        ((add_interest_impl epoll (pos fd) (event_of writing) h et l).1
          ≡ some (system_error e "epoll_ctl"))
        × (find fd l'.states ≡ none)
        × (epoll.interest l'.kernel fd ≡ epoll.interest l.kernel fd)
  unfolding add_interest_impl register
  add_interest_mod_failed fd r h et st l e found reader failed = ground (
    arith,
    find-erase fd fd l.states,
    epoll.failed_keeps ctl_mod fd (both_directions et) l.kernel e fd failed,
  )
