-- ===== src/EventLoop/Spared.antt =====
-- A waiting coroutine (EventLoop/Waiting) through the calls and the updates of the loop of
-- include/coro_epoll/event_loop.hpp that spare it.
use cpp_coroutine_epoll.Common.{
  ℕ, ◌≡◌, ◌≢◌, inl, inr, refl, sym, bit_or, ap, subst, ◌∙◌, Bool, some, List, [], ◌∷◌, arith, ◌==◌,
  ℤ, pos, negsuc, find, put, erase, find-put, find-erase, Bool-cases, Option-cases, All, All-append,
}
use cpp_coroutine_epoll.System.{Epoll, ctl_mod, ctl_del}
use cpp_coroutine_epoll.EventLoop.State.{FdState, TaskEntry, EventLoop}
use cpp_coroutine_epoll.EventLoop.Interest.{
  register, add_interest_impl, update_or_remove_impl, active_events, et_flag, is_absent, entry_of,
}
use cpp_coroutine_epoll.EventLoop.Tasks.{
  Direction, reading, writing, Call, waits, removes, closes_socket, closes_server, posts, spawns,
  finishes, stops, post, stop, begin_task, run_call, run_calls,
}
use cpp_coroutine_epoll.EventLoop.Owned.{Free, finish-Unowned}
use cpp_coroutine_epoll.EventLoop.Waiting.{
  handle_in, with_waiter, other_kept, active_parts, Waits, Spares, Accepts, moved,
  register_elsewhere, register_here, remove-Waits, close_socket-Waits, close_server-Waits, beside,
}

module _ (epoll : Epoll) (d : Direction) (fd h : ℕ) (accepts : Accepts epoll d fd h) where
  abbrev Loop : Type 0
  Loop = EventLoop epoll.Kernel

  abbrev StillWaits : Loop → Type 0
  StillWaits l = Waits epoll d fd h l

  pub updated_elsewhere :
      (fd' : ℕ) (st : FdState) (et : Bool) (l : Loop)
      → fd' ≢ fd
      → StillWaits l
      → StillWaits
          (update_or_remove_impl epoll fd' st et (record l { states = put fd' st l.states })).0
  unfolding update_or_remove_impl
  updated_elsewhere fd' st et l apart w =
      let mask = bit_or (active_events st) (et_flag et) in
      let put_elsewhere : find fd (put fd' st l.states) ≡ find fd l.states =
        ground (arith, find-put fd' fd st l.states) in
      let kept =
        moved epoll d fd h l (epoll.ctl ctl_mod fd' mask l.kernel).1 (put fd' st l.states)
          put_elsewhere (epoll.elsewhere ctl_mod fd' mask l.kernel fd apart) w in
      elim (Bool-cases (active_events st == 0)) [
        | inl nothing ↦ rw nothing (
            moved epoll d fd h l (epoll.ctl ctl_del fd' 0 l.kernel).1
              (erase fd' (put fd' st l.states))
              (ground (arith, find-erase fd' fd (put fd' st l.states), put_elsewhere))
              (epoll.elsewhere ctl_del fd' 0 l.kernel fd apart) w)
        | inr active ↦ elim (Option-cases (epoll.ctl ctl_mod fd' mask l.kernel).0) [
          | inl done ↦ rw (active, done) kept
          | inr (e, refused) ↦ rw (active, refused) kept
        ]
      ]

  -- An entry of the descriptor in which `h` still waits stays in the table, and registered.
  pub updated_here :
      (st : FdState) (et : Bool) (l : Loop)
      → handle_in d st ≡ some h
      → StillWaits l
      → StillWaits
          (update_or_remove_impl epoll fd st et (record l { states = put fd st l.states })).0
  unfolding update_or_remove_impl
  updated_here st et l is w =
      let mask = bit_or (active_events st) (et_flag et) in
      let active = active_parts d st.read_handle st.write_handle st.edge_trigger h is in
      let done = accepts l.kernel mask w.mask w.registered in
      rw (active, done)
        (record {
          entry = st;
          found = ground (arith, find-put fd fd st l.states);
          waiting = is;
          mask = mask;
          registered = epoll.mod_sets fd mask l.kernel done;
          unowned = w.unowned;
        })

  register-Waits :
      (d' : Direction) (et : Bool) (fd' h' : ℕ) (l : Loop)
      → (pos fd' ≡ pos fd → d' ≢ d)
      → StillWaits l
      → StillWaits
          (register epoll fd'
            (with_waiter d' h' (entry_of (find fd' l.states)))
            (is_absent (find fd' l.states))
            et
            l).0
  register-Waits d' et fd' h' l other w = elim (Bool-cases (fd' == fd)) [
    | inl is ↦
        let same : fd' ≡ fd = ground arith in
        subst
          (λ i.
            StillWaits
              (register epoll i (with_waiter d' h' (entry_of (find i l.states)))
                (is_absent (find i l.states)) et l).0)
          (sym same)
          (rw w.found (
            register_here epoll d fd h accepts (with_waiter d' h' w.entry) et l
              (other_kept d' d h' w.entry (other (ap pos same)) ∙ w.waiting) w))
    | inr not ↦ register_elsewhere epoll d fd h fd' _ _ et l (λ same. absurd (ground arith)) w
  ]

  add_interest-Waits :
      (d' : Direction) (et : Bool) (fd' : ℤ) (h' : ℕ) (l : Loop)
      → (fd' ≡ pos fd → d' ≢ d)
      → StillWaits l
      → StillWaits (run_call epoll (waits d' et fd' h') l)
  unfolding run_call add_interest_impl
  add_interest-Waits d' et (negsuc n) h' l other w = w
  add_interest-Waits reading et (pos fd') h' l other w = register-Waits reading et fd' h' l other w
  add_interest-Waits writing et (pos fd') h' l other w = register-Waits writing et fd' h' l other w

  call-Waits :
      (c : Call) (l : Loop) → Spares epoll d fd h c → StillWaits l → StillWaits (run_call epoll c l)
  unfolding run_call post stop begin_task
  call-Waits (waits d' et fd' h') l spares w = add_interest-Waits d' et fd' h' l spares w
  call-Waits (removes fd') l spares w = remove-Waits epoll d fd h fd' l spares w
  call-Waits (closes_socket fd') l spares w = close_socket-Waits epoll d fd h fd' l spares w
  call-Waits (closes_server fd') l spares w = close_server-Waits epoll d fd h fd' l spares w
  call-Waits (posts c) l spares w = beside epoll d fd h l _ refl refl w.unowned w
  call-Waits (spawns h' fds) l spares w =
      beside epoll d fd h l _ refl refl
        (All-append (λ (t : TaskEntry). Free fd t.sockets) l.tasks _ w.unowned (spares, tt)) w
  call-Waits (finishes h' e) l spares w =
      beside epoll d fd h l _ refl refl (finish-Unowned fd h' e l.tasks w.unowned) w
  call-Waits stops l spares w = beside epoll d fd h l _ refl refl w.unowned w

  pub calls-Waits :
      (cs : List Call) (l : Loop)
      → All (Spares epoll d fd h) cs
      → StillWaits l
      → StillWaits (run_calls epoll cs l)
  unfolding run_calls
  calls-Waits [] l spares w = w
  calls-Waits (c ∷ cs) l (spares, more) w = calls-Waits cs _ more (call-Waits c l spares w)
