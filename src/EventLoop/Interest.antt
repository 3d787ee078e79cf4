-- ===== src/EventLoop/Interest.antt =====
-- Registration of waiting coroutines: `add_interest_impl`, `active_events`, `update_or_remove_impl`
-- and `remove` of include/coro_epoll/event_loop.hpp, on Linux.
use cpp_coroutine_epoll.Common.{
  ℕ, Bool, true, false, Option, none, some, bit_or, ◌==◌, if◌then◌else◌, ℤ, pos, negsuc, find, put,
  erase,
}
use cpp_coroutine_epoll.System.{
  Errno, ebadf, enoent, Exception, system_error, invalid_argument, epollin, epollout, epollrdhup,
  epollet, ctl_add, ctl_mod, ctl_del, Epoll,
}
use cpp_coroutine_epoll.EventLoop.State.{FdState, no_waiter, EventLoop}

-- `bool inserted` of `try_emplace`, and the entry that it yields.
abbrev pub is_absent : Option FdState → Bool
is_absent none = true
is_absent (some st) = false

abbrev pub entry_of : Option FdState → FdState
entry_of none = no_waiter
entry_of (some st) = st

abbrev pub et_flag : Bool → ℕ
et_flag true = epollet
et_flag false = 0

-- EPOLLIN | EPOLLOUT | (et ? EPOLLET : 0U)
abbrev pub both_directions : Bool → ℕ
both_directions et = bit_or (bit_or epollin epollout) (et_flag et)

abbrev pub flag_of : Option ℕ → ℕ → ℕ
flag_of none flag = 0
flag_of (some h) flag = flag

unfoldable pub active_events : FdState → ℕ
active_events st =
    let events = bit_or (flag_of st.read_handle epollin) (flag_of st.write_handle epollout) in
    if events == epollrdhup then 0 else events

-- `errno != EBADF && errno != ENOENT`, the failures of MOD that are thrown.
abbrev pub is_fatal : Errno → Bool
is_fatal ebadf = false
is_fatal enoent = false
is_fatal e = true

module _ (epoll : Epoll) where
  abbrev Loop : Type 0
  Loop = EventLoop epoll.Kernel

  -- The epoll_ctl call of `add_interest_impl` and what follows it.
  unfoldable pub register : ℕ → FdState → Bool → Bool → Loop → Loop × Option Exception
  register fd st inserted et l =
      let (answer, k) =
        epoll.ctl (if inserted then ctl_add else ctl_mod) fd (both_directions et) l.kernel in
      elim answer [
        | none ↦ (
          record l { kernel = k; states = put fd (record st { edge_trigger = et }) l.states },
          none,
        )
        | some e ↦
            (record l { kernel = k; states = erase fd l.states }, some (system_error e "epoll_ctl"))
      ]

  unfoldable pub add_interest_impl : ℤ → ℕ → ℕ → Bool → Loop → Loop × Option Exception
  unfolding register
  add_interest_impl (negsuc n) event handle et l =
      (l, some (invalid_argument "cannot wait on an invalid file descriptor"))
  add_interest_impl (pos fd) event handle et l =
      let old = find fd l.states in
      let st = entry_of old in
      if event == epollin
      then register fd (record st { read_handle = some handle }) (is_absent old) et l
      else if event == epollout
      then register fd (record st { write_handle = some handle }) (is_absent old) et l
      else (
        record l { states = put fd st l.states },
        some (invalid_argument "unsupported epoll event interest"),
      )

  -- `update_or_remove_impl`, whose `state` is the entry of `fd`.
  unfoldable pub update_or_remove_impl : ℕ → FdState → Bool → Loop → Loop × Option Exception
  unfolding active_events
  update_or_remove_impl fd st et l =
      let events = active_events st in
      let (deleted, k_del) = epoll.ctl ctl_del fd 0 l.kernel in
      let (answer, k) = epoll.ctl ctl_mod fd (bit_or events (et_flag et)) l.kernel in
      if events == 0
      then (record l { kernel = k_del; states = erase fd l.states }, none)
      else elim answer [
        | none ↦ (record l { kernel = k }, none)
        | some e ↦ (
          record l { kernel = k },
          (if is_fatal e then some (system_error e "epoll_ctl mod") else none),
        )
      ]

  unfoldable pub remove : ℤ → Loop → Loop
  remove (negsuc n) l = l
  remove (pos fd) l = record l {
    kernel = (epoll.ctl ctl_del fd 0 l.kernel).1;
    states = erase fd l.states;
  }
