-- ===== src/EventLoop/MacLoop.antt =====
-- `add_interest_impl`, `update_or_remove_impl`, `dispatch` and `remove` of
-- include/coro_epoll/event_loop.hpp, on macOS.
use cpp_coroutine_epoll.Common.{
  ℕ, Bool, true, false, not, ◌&&◌, Option, none, some, List, [], ◌==◌, if◌then◌else◌, ℤ, pos,
  negsuc, find, put, erase,
}
use cpp_coroutine_epoll.System.{Exception, invalid_argument}
use cpp_coroutine_epoll.EventLoop.State.{FdState}
use cpp_coroutine_epoll.EventLoop.Interest.{is_absent, entry_of}
use cpp_coroutine_epoll.EventLoop.Kqueue.{
  Filter, filter_read, filter_write, filter_other, Kqueue, Kevent, is_set, exchanged_by, taken_by,
  update_kqueue_filter_impl, MacLoop, delete_both,
}

module _ (kqueue : Kqueue) where
  -- The two calls of `update_kqueue_filter_impl`.
  unfoldable pub update_both : ℕ → FdState → Bool → kqueue.Kernel → Option Exception × kqueue.Kernel
  update_both fd st et k =
      let (thrown, k') =
        update_kqueue_filter_impl kqueue fd filter_read (is_set st.read_handle) et k in
      elim thrown [
        | some e ↦ (some e, k')
        | none ↦ update_kqueue_filter_impl kqueue fd filter_write (is_set st.write_handle) et k'
      ]

  abbrev pub waits_for_nothing : FdState → Bool
  waits_for_nothing st = not (is_set st.read_handle) && not (is_set st.write_handle)

  -- `update_or_remove_impl`, whose `state` is the entry of `fd`.
  unfoldable pub update_or_remove_mac :
      ℕ → FdState → Bool → MacLoop kqueue → MacLoop kqueue × Option Exception
  unfolding update_both
  update_or_remove_mac fd st et l =
      let (thrown, k) = update_both fd st et l.kernel in
      if waits_for_nothing st
      then (record l { kernel = delete_both kqueue fd l.kernel; states = erase fd l.states }, none)
      else (record l { kernel = k }, thrown)

  -- The end of `add_interest_impl`, by what `update_or_remove_impl` does.
  unfoldable pub after_update :
      ℕ
      → FdState
      → Bool
      → Bool
      → MacLoop kqueue × Option Exception
      → MacLoop kqueue × Option Exception
  after_update fd st inserted et (l, none) =
      (record l { states = put fd (record st { edge_trigger = et }) l.states }, none)
  after_update fd st inserted et (l, some e) =
      ((if inserted then record l { states = erase fd l.states } else l), some e)

  -- Its `try` block and what follows, when the handle is in the entry `st`.
  unfoldable pub register_mac :
      ℕ → FdState → Bool → Bool → MacLoop kqueue → MacLoop kqueue × Option Exception
  unfolding update_or_remove_mac after_update
  register_mac fd st inserted et l =
      after_update fd st inserted et
        (update_or_remove_mac fd st et (record l { states = put fd st l.states }))

  unfoldable pub add_interest_mac :
      ℤ → Filter → ℕ → Bool → MacLoop kqueue → MacLoop kqueue × Option Exception
  unfolding register_mac
  add_interest_mac (negsuc n) event handle et l =
      (l, some (invalid_argument "cannot wait on an invalid file descriptor"))
  add_interest_mac (pos fd) filter_read handle et l =
      let old = find fd l.states in
      register_mac fd (record (entry_of old) { read_handle = some handle }) (is_absent old) et l
  add_interest_mac (pos fd) filter_write handle et l =
      let old = find fd l.states in
      register_mac fd (record (entry_of old) { write_handle = some handle }) (is_absent old) et l
  add_interest_mac (pos fd) filter_other handle et l = (
    record l { states = put fd (entry_of (find fd l.states)) l.states },
    some (invalid_argument "unsupported kqueue event interest"),
  )

  unfoldable pub remove_mac : ℤ → MacLoop kqueue → MacLoop kqueue
  remove_mac (negsuc n) l = l
  remove_mac (pos fd) l = record l {
    kernel = delete_both kqueue fd l.kernel;
    states = erase fd l.states;
  }

  -- What `dispatch` does: the loop, the handles that it resumes then, in order, what it throws, and
  -- whether it drains the pipe and runs the posted callbacks.
  pub record Dispatched : Type 0 where
    pub loop : MacLoop kqueue
    pub resumes : List ℕ
    pub thrown : Option Exception
    pub drains : Bool

  unfoldable pub dispatch_entry_mac : Kevent → FdState → MacLoop kqueue → Dispatched
  unfolding update_or_remove_mac
  dispatch_entry_mac event st l =
      let st' = exchanged_by event st in
      let (l', thrown) =
        update_or_remove_mac event.ident st' st'.edge_trigger
          (record l { states = put event.ident st' l.states }) in
      record {
        loop = l';
        resumes = elim thrown [ none ↦ taken_by event st | some e ↦ [] ];
        thrown = thrown;
        drains = false;
      }

  unfoldable pub dispatch_mac : Kevent → MacLoop kqueue → Dispatched
  unfolding dispatch_entry_mac
  dispatch_mac event l =
      if event.ident == l.wakeup_read_fd
      then record { loop = l; resumes = []; thrown = none; drains = true }
      else elim (find event.ident l.states) [
        | none ↦ record { loop = l; resumes = []; thrown = none; drains = false }
        | some st ↦ dispatch_entry_mac event st l
      ]
