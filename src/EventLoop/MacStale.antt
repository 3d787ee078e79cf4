-- ===== src/EventLoop/MacStale.antt =====
-- A failed registration on macOS (include/coro_epoll/event_loop.hpp).
use cpp_coroutine_epoll.Common.{
  ℕ, ◌≡◌, refl, sym, subst, Bool, false, Option, none, some, arith, pos, find, put, find-put,
}
use cpp_coroutine_epoll.System.{Exception}
use cpp_coroutine_epoll.EventLoop.State.{FdState}
use cpp_coroutine_epoll.EventLoop.Kqueue.{filter_read, Kqueue, MacLoop}
use cpp_coroutine_epoll.EventLoop.MacLoop.{
  waits_for_nothing, after_update, register_mac, add_interest_mac,
}
use cpp_coroutine_epoll.EventLoop.MacRegistered.{update_waiting}

module _ (kqueue : Kqueue) where
  after_update_stale :
      (fd : ℕ) (st : FdState) (et : Bool) (l : MacLoop kqueue) (k : kqueue.Kernel)
      (thrown : Option Exception) (e : Exception)
      → (let r =
            after_update kqueue fd st false et
              (record l { kernel = k; states = put fd st l.states }, thrown) in
          r.1 ≡ some e → find fd r.0.states ≡ some st)
  unfolding after_update
  after_update_stale fd st et l k none e fails = absurd (cc)
  after_update_stale fd st et l k (some x) e fails = ground (arith, find-put fd fd st l.states)

  register_stale :
      (fd : ℕ) (st : FdState) (et : Bool) (l : MacLoop kqueue) (e : Exception)
      → waits_for_nothing kqueue st ≡ false
      → (register_mac kqueue fd st false et l).1 ≡ some e
      → find fd (register_mac kqueue fd st false et l).0.states ≡ some st
  unfolding register_mac
  register_stale fd st et l e waits =
      subst
        (λ r.
          (after_update kqueue fd st false et r).1 ≡ some e
          → find fd (after_update kqueue fd st false et r).0.states ≡ some st)
        (sym (update_waiting kqueue fd st et (record l { states = put fd st l.states }) waits))
        (after_update_stale fd st et l _ _ e)

  -- A coroutine that is to wait for reading on a descriptor that has an entry already, and whose
  -- registration throws: the entry is still there, with the handle of that coroutine as its reader.
  pub add_interest_stale :
      (fd : ℕ) (handle : ℕ) (et : Bool) (l : MacLoop kqueue) (st : FdState) (e : Exception)
      → find fd l.states ≡ some st
      → (add_interest_mac kqueue (pos fd) filter_read handle et l).1 ≡ some e
      → find fd (add_interest_mac kqueue (pos fd) filter_read handle et l).0.states
        ≡ some (record st { read_handle = some handle })
  unfolding add_interest_mac
  add_interest_stale fd handle et l st e old =
      rw (old) (register_stale fd (record st { read_handle = some handle }) et l e refl)
