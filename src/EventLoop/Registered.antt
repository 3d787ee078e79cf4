-- ===== src/EventLoop/Registered.antt =====
-- The entries of `states_` (include/coro_epoll/event_loop.hpp): what the coroutines of an entry wait for
-- is always a part of what the epoll instance watches.
use cpp_coroutine_epoll.Common.{
  bit_or, ℕ, ◌≡◌, inl, inr, refl, Bool, true, false, ◌||◌, Option, none, some, arith, ◌==◌, ℤ, pos,
  negsuc, find, put, erase, find-put, find-erase, Option-cases,
}
use cpp_coroutine_epoll.System.{epollin, epollout, ctl_add, ctl_mod, ctl_del, Epoll, watches, has}
use cpp_coroutine_epoll.EventLoop.State.{FdState, EventLoop}
use cpp_coroutine_epoll.EventLoop.Tasks.{
  Direction, reading, writing, event_of, close_socket, close_server,
}
use cpp_coroutine_epoll.EventLoop.Interest.{
  register, add_interest_impl, update_or_remove_impl, remove, both_directions, et_flag, entry_of,
  active_events,
}

abbrev pub is_set : Option ℕ → Bool
is_set none = false
is_set (some h) = true

-- A registration `i` watches for all that an entry waits for, and the entry has a waiter.
pub record IsWatched (i : Option ℕ) (st : FdState) : Type 0 where
  pub for_read : is_set st.read_handle ≡ true → watches i epollin ≡ true
  pub for_write : is_set st.write_handle ≡ true → watches i epollout ≡ true
  pub has_waiter : (is_set st.read_handle || is_set st.write_handle) ≡ true

-- The mask of the MOD in `update_or_remove_impl`.
abbrev update_mask : FdState → Bool → ℕ
update_mask st et = bit_or (active_events st) (et_flag et)

abbrev parts : Option ℕ → Option ℕ → Bool → FdState
parts r w e = record { read_handle = r; write_handle = w; edge_trigger = e }

module _ (epoll : Epoll) where
  open epoll use {interest}

  -- Every entry of `states_` is watched for what its coroutines wait for.
  abbrev pub Inv : EventLoop epoll.Kernel → Type 0
  Inv l = (j : ℕ) (st : FdState) → find j l.states ≡ some st → IsWatched (interest l.kernel j) st

  register-Inv :
      (fd : ℕ) (st : FdState) (inserted et : Bool) (l : EventLoop epoll.Kernel)
      → (is_set st.read_handle || is_set st.write_handle) ≡ true
      → Inv l
      → Inv (register epoll fd st inserted et l).0
  unfolding register
  register-Inv fd st true et l w inv j s q = ground (
    arith,
    inv j s,
    find-put fd j (record st { edge_trigger = et }) l.states,
    find-erase fd j l.states,
    epoll.add_sets fd (both_directions et) l.kernel,
    epoll.elsewhere ctl_add fd (both_directions et) l.kernel j,
  )
  register-Inv fd st false et l w inv j s q = ground (
    arith,
    inv j s,
    find-put fd j (record st { edge_trigger = et }) l.states,
    find-erase fd j l.states,
    epoll.mod_sets fd (both_directions et) l.kernel,
    epoll.elsewhere ctl_mod fd (both_directions et) l.kernel j,
  )

  pub add_interest-Inv :
      (d : Direction) (fd : ℤ) (h : ℕ) (et : Bool) (l : EventLoop epoll.Kernel)
      → Inv l
      → Inv (add_interest_impl epoll fd (event_of d) h et l).0
  unfolding add_interest_impl
  add_interest-Inv d (negsuc n) h et l inv = inv
  add_interest-Inv reading (pos fd) h et l inv =
      register-Inv fd (record (entry_of (find fd l.states)) { read_handle = some h }) _ et l refl
        inv
  add_interest-Inv writing (pos fd) h et l inv =
      register-Inv fd (record (entry_of (find fd l.states)) { write_handle = some h }) _ et l
        (ground arith) inv

  pub remove-Inv : (fd : ℤ) (l : EventLoop epoll.Kernel) → Inv l → Inv (remove epoll fd l)
  unfolding remove
  remove-Inv (negsuc n) l inv j s q = inv j s q
  remove-Inv (pos fd) l inv j s q =
      ground (arith, inv j s, find-erase fd j l.states, epoll.elsewhere ctl_del fd 0 l.kernel j)

  pub close_socket-Inv :
      (fd : ℤ) (l : EventLoop epoll.Kernel) → Inv l → Inv (close_socket epoll fd l)
  unfolding close_socket remove
  close_socket-Inv (negsuc n) l inv j s q = inv j s q
  close_socket-Inv (pos fd) l inv j s q = ground (
    arith,
    inv j s,
    find-erase fd j l.states,
    epoll.elsewhere ctl_del fd 0 l.kernel j,
    epoll.close_elsewhere fd (epoll.ctl ctl_del fd 0 l.kernel).1 j,
  )

  pub close_server-Inv :
      (fd : ℤ) (l : EventLoop epoll.Kernel) → Inv l → Inv (close_server epoll fd l)
  unfolding close_server remove
  close_server-Inv (negsuc n) l inv j s q = inv j s q
  close_server-Inv (pos fd) l inv j s q = ground (
    arith,
    inv j s,
    find-erase fd j l.states,
    epoll.elsewhere ctl_del fd 0 (epoll.close fd l.kernel) j,
    epoll.close_elsewhere fd l.kernel j,
  )

  module _ (fd : ℕ) (st : FdState) (l : EventLoop epoll.Kernel) where
    abbrev narrowed : FdState → EventLoop epoll.Kernel
    narrowed st' = record l { states = put fd st' l.states }

    mod_keeps :
        (st' : FdState) (mask : ℕ)
        → find fd l.states ≡ some st
        → (is_set st'.read_handle ≡ true → is_set st.read_handle ≡ true)
        → (is_set st'.write_handle ≡ true → is_set st.write_handle ≡ true)
        → (is_set st'.read_handle || is_set st'.write_handle) ≡ true
        → (is_set st'.read_handle ≡ true → has mask epollin ≡ true)
        → (is_set st'.write_handle ≡ true → has mask epollout ≡ true)
        → Inv l
        → Inv (record (narrowed st') { kernel = (epoll.ctl ctl_mod fd mask l.kernel).1 })
    mod_keeps st' mask q r w some_left in_mask out_mask inv j s p =
        elim (Option-cases (epoll.ctl ctl_mod fd mask l.kernel).0) [
          | inl done ↦ ground (
            arith,
            inv j s,
            find-put fd j st' l.states,
            epoll.mod_sets fd mask l.kernel done,
            epoll.elsewhere ctl_mod fd mask l.kernel j,
          )
          | inr (e, failed) ↦ ground (
            arith,
            inv j s,
            inv fd st q,
            find-put fd j st' l.states,
            epoll.failed_keeps ctl_mod fd mask l.kernel e j failed,
          )
        ]

    del_keeps :
        (st' : FdState)
        → Inv l
        → Inv (record l {
          kernel = (epoll.ctl ctl_del fd 0 l.kernel).1;
          states = erase fd (put fd st' l.states);
        })
    del_keeps st' inv j s p = ground (
      arith,
      inv j s,
      find-put fd j st' l.states,
      find-erase fd j (put fd st' l.states),
      epoll.elsewhere ctl_del fd 0 l.kernel j,
    )

    module _ (st' : FdState) (et : Bool) (q : find fd l.states ≡ some st)
        (hr : is_set st'.read_handle ≡ true → is_set st.read_handle ≡ true)
        (hw : is_set st'.write_handle ≡ true → is_set st.write_handle ≡ true) (inv : Inv l) where
      update_active :
          (active_events st' == 0) ≡ false
          → (is_set st'.read_handle || is_set st'.write_handle) ≡ true
          → (is_set st'.read_handle ≡ true → has (update_mask st' et) epollin ≡ true)
          → (is_set st'.write_handle ≡ true → has (update_mask st' et) epollout ≡ true)
          → Inv (update_or_remove_impl epoll fd st' et (narrowed st')).0
      unfolding update_or_remove_impl
      update_active active some_left in_mask out_mask =
          let kept = mod_keeps st' (update_mask st' et) q hr hw some_left in_mask out_mask inv in
          elim (Option-cases (epoll.ctl ctl_mod fd (update_mask st' et) l.kernel).0) [
            | inl e ↦ rw (active, e) kept
            | inr (x, e) ↦ rw (active, e) kept
          ]

    -- The entry that `dispatch` has narrowed is still watched for what is left in it.
    update_parts-Inv :
        (r w : Option ℕ) (e et : Bool)
        → find fd l.states ≡ some st
        → (is_set r ≡ true → is_set st.read_handle ≡ true)
        → (is_set w ≡ true → is_set st.write_handle ≡ true)
        → Inv l
        → Inv (update_or_remove_impl epoll fd (parts r w e) et (narrowed (parts r w e))).0
    unfolding update_or_remove_impl active_events
    update_parts-Inv none none e et q hr hw inv = del_keeps (parts none none e) inv
    update_parts-Inv (some r) none e true q hr hw inv =
        update_active (parts (some r) none e) true q hr hw inv refl refl (λ _. refl) (λ n. cc)
    update_parts-Inv (some r) none e false q hr hw inv =
        update_active (parts (some r) none e) false q hr hw inv refl refl (λ _. refl) (λ n. cc)
    update_parts-Inv none (some w) e true q hr hw inv =
        update_active (parts none (some w) e) true q hr hw inv refl refl (λ n. cc) (λ _. refl)
    update_parts-Inv none (some w) e false q hr hw inv =
        update_active (parts none (some w) e) false q hr hw inv refl refl (λ n. cc) (λ _. refl)
    update_parts-Inv (some r) (some w) e true q hr hw inv =
        update_active (parts (some r) (some w) e) true q hr hw inv refl refl (λ _. refl) (λ _. refl)
    update_parts-Inv (some r) (some w) e false q hr hw inv =
        update_active (parts (some r) (some w) e) false q hr hw inv refl refl (λ _. refl)
          (λ _. refl)

    pub update-Inv :
        (st' : FdState) (et : Bool)
        → find fd l.states ≡ some st
        → (is_set st'.read_handle ≡ true → is_set st.read_handle ≡ true)
        → (is_set st'.write_handle ≡ true → is_set st.write_handle ≡ true)
        → Inv l
        → Inv (update_or_remove_impl epoll fd st' et (record l { states = put fd st' l.states })).0
    update-Inv st' et q hr hw inv =
        update_parts-Inv st'.read_handle st'.write_handle st'.edge_trigger et q hr hw inv
