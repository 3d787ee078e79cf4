-- ===== src/EventLoop/MacRegistered.antt =====
-- On macOS each descriptor is registered exactly for the coroutines that wait on it
-- (include/coro_epoll/event_loop.hpp).
use cpp_coroutine_epoll.Common.{
  ℕ, ◌≡◌, ◌≢◌, inl, inr, refl, sym, subst, Bool, false, Option, none, some, [], ◌==◌, arith, ℤ, pos,
  negsuc, find, put, Bool-cases, Option-cases,
}
use cpp_coroutine_epoll.System.{Exception}
use cpp_coroutine_epoll.EventLoop.State.{FdState}
use cpp_coroutine_epoll.EventLoop.Interest.{entry_of}
use cpp_coroutine_epoll.EventLoop.Kqueue.{
  Filter, filter_read, filter_write, filter_other, Kqueue, Kevent, exchanged_by, MacLoop,
  delete_both,
}
use cpp_coroutine_epoll.EventLoop.MacLoop.{
  update_both, waits_for_nothing, update_or_remove_mac, after_update, register_mac,
  add_interest_mac, remove_mac, dispatch_mac, dispatch_entry_mac,
}
use cpp_coroutine_epoll.EventLoop.MacKept.{
  nothing_found, AllMatch, put-AllMatch, erase-AllMatch, put_old, update-Kept, delete-Kept,
}
use cpp_coroutine_epoll.EventLoop.Filters.{
  Unregistered, update_both-Matches, delete_both-Unregistered,
}

module _ (kqueue : Kqueue) where
  pub update_waiting :
      (fd : ℕ) (st : FdState) (et : Bool) (l : MacLoop kqueue)
      → waits_for_nothing kqueue st ≡ false
      → update_or_remove_mac kqueue fd st et l ≡ (
        record l { kernel = (update_both kqueue fd st et l.kernel).1 },
        (update_both kqueue fd st et l.kernel).0,
      )
  unfolding update_or_remove_mac
  update_waiting fd st et l waits = rw waits refl

  after_update-AllMatch :
      (fd : ℕ) (st : FdState) (inserted et : Bool) (l : MacLoop kqueue) (thrown : Option Exception)
      → AllMatch kqueue l
      → (update_both kqueue fd st et l.kernel).0 ≡ thrown
      → (let r = after_update kqueue fd st inserted et (
        record l { kernel = (update_both kqueue fd st et l.kernel).1; states = put fd st l.states },
        thrown,
      ) in
          r.1 ≡ none → AllMatch kqueue r.0)
  unfolding after_update
  after_update-AllMatch fd st inserted et l (some e) inv is fine = absurd (cc)
  after_update-AllMatch fd st inserted et l none inv is fine =
      put-AllMatch kqueue fd (record st { edge_trigger = et })
        (update_both kqueue fd st et l.kernel).1 (put fd st l.states) l inv
        (update-Kept kqueue fd st et l) (update_both-Matches kqueue fd st et l.kernel is)

  register-AllMatch :
      (fd : ℕ) (st : FdState) (inserted et : Bool) (l : MacLoop kqueue)
      → AllMatch kqueue l
      → waits_for_nothing kqueue st ≡ false
      → (register_mac kqueue fd st inserted et l).1 ≡ none
      → AllMatch kqueue (register_mac kqueue fd st inserted et l).0
  unfolding register_mac
  register-AllMatch fd st inserted et l inv waits =
      subst
        (λ r.
          (after_update kqueue fd st inserted et r).1 ≡ none
          → AllMatch kqueue (after_update kqueue fd st inserted et r).0)
        (sym (update_waiting fd st et (record l { states = put fd st l.states }) waits))
        (after_update-AllMatch fd st inserted et l _ inv refl)

  dispatch_entry-AllMatch :
      (event : Kevent) (st : FdState) (l : MacLoop kqueue)
      → AllMatch kqueue l
      → (dispatch_entry_mac kqueue event st l).thrown ≡ none
      → AllMatch kqueue (dispatch_entry_mac kqueue event st l).loop
  unfolding dispatch_entry_mac update_or_remove_mac
  dispatch_entry-AllMatch event st l inv =
      let fd = event.ident in
      let st' = exchanged_by event st in
      let (thrown, k') = update_both kqueue fd st' st'.edge_trigger l.kernel in
      elim (Bool-cases (waits_for_nothing kqueue st')) [
        | inl nothing ↦ rw nothing (λ fine.
            erase-AllMatch kqueue fd _ (put fd st' l.states) l inv
              (delete-Kept kqueue fd (put fd st' l.states) l (put_old kqueue fd st' l))
              (delete_both-Unregistered kqueue fd l.kernel))
        | inr waits ↦ rw waits (λ fine.
            put-AllMatch kqueue fd st' k' l.states l inv
              (record {
                old = λ j apart. refl;
                same = (update-Kept kqueue fd st' st'.edge_trigger l).same;
              })
              (update_both-Matches kqueue fd st' st'.edge_trigger l.kernel fine))
      ]

  pub add_interest-AllMatch :
      (fd : ℤ) (f : Filter) (handle : ℕ) (et : Bool) (l : MacLoop kqueue)
      → AllMatch kqueue l
      → (add_interest_mac kqueue fd f handle et l).1 ≡ none
      → AllMatch kqueue (add_interest_mac kqueue fd f handle et l).0
  unfolding add_interest_mac
  add_interest-AllMatch (negsuc n) f handle et l inv fine = inv
  add_interest-AllMatch (pos fd) filter_read handle et l inv fine =
      register-AllMatch fd (record (entry_of (find fd l.states)) { read_handle = some handle }) _ et
        l inv refl fine
  add_interest-AllMatch (pos fd) filter_write handle et l inv fine =
      register-AllMatch fd (record (entry_of (find fd l.states)) { write_handle = some handle }) _
        et l inv (ground arith) fine
  add_interest-AllMatch (pos fd) filter_other handle et l inv fine = absurd (cc)

  pub dispatch-AllMatch :
      (event : Kevent) (l : MacLoop kqueue)
      → AllMatch kqueue l
      → (dispatch_mac kqueue event l).thrown ≡ none
      → AllMatch kqueue (dispatch_mac kqueue event l).loop
  unfolding dispatch_mac
  dispatch-AllMatch event l inv = elim (Bool-cases (event.ident == l.wakeup_read_fd)) [
    | inl woken ↦ rw (woken, dispatch_mac) (λ fine. inv)
    | inr other ↦ elim (Option-cases (find event.ident l.states)) [
      | inl absent ↦ rw (other, dispatch_mac, absent) (λ fine. inv)
      | inr (st, is) ↦ rw (other, dispatch_mac, is) (dispatch_entry-AllMatch event st l inv)
    ]
  ]

  pub remove-AllMatch :
      (fd : ℤ) (l : MacLoop kqueue) → AllMatch kqueue l → AllMatch kqueue (remove_mac kqueue fd l)
  unfolding remove_mac
  remove-AllMatch (negsuc n) l inv = inv
  remove-AllMatch (pos fd) l inv =
      erase-AllMatch kqueue fd (delete_both kqueue fd l.kernel) l.states l inv
        (delete-Kept kqueue fd l.states l (λ j apart. refl))
        (delete_both-Unregistered kqueue fd l.kernel)

  -- What changes the table: a wait, an event, a removal. The first two do not throw.
  pub data MacStep (l : MacLoop kqueue) : MacLoop kqueue → Type 0 where
    waits :
        (fd : ℤ) (f : Filter) (handle : ℕ) (et : Bool)
        → (add_interest_mac kqueue fd f handle et l).1 ≡ none
        → MacStep l (add_interest_mac kqueue fd f handle et l).0
    dispatches :
        (event : Kevent)
        → (dispatch_mac kqueue event l).thrown ≡ none
        → MacStep l (dispatch_mac kqueue event l).loop
    removes : (fd : ℤ) → MacStep l (remove_mac kqueue fd l)

  pub data MacReach : MacLoop kqueue → Type 0 where
    begin :
        (k : kqueue.Kernel) (fd : ℕ)
        → ((j : ℕ) → j ≢ fd → Unregistered kqueue k j)
        → MacReach (record { kernel = k; wakeup_read_fd = fd; states = [] })
    later : {l m : MacLoop kqueue} → MacReach l → MacStep l m → MacReach m

  -- Over any sequence of waits, events and removals of which none throws, starting with an empty table
  -- and with no registration but on the pipe: for each entry of the table the read filter of its
  -- descriptor is registered, with EV_CLEAR as its `edge_trigger` says, if a coroutine waits to read, and
  -- else it is not; likewise for writing; and without an entry there is no registration, the read end
  -- of the pipe apart.
  pub mac-AllMatch : {l : MacLoop kqueue} → MacReach l → AllMatch kqueue l
  mac-AllMatch (begin k fd empty) =
      (λ j s found. absurd (nothing_found j s found), λ j other absent. empty j other)
  mac-AllMatch (later reach (waits fd f handle et fine)) =
      add_interest-AllMatch fd f handle et _ (mac-AllMatch reach) fine
  mac-AllMatch (later reach (dispatches event fine)) =
      dispatch-AllMatch event _ (mac-AllMatch reach) fine
  mac-AllMatch (later reach (removes fd)) = remove-AllMatch fd _ (mac-AllMatch reach)
