-- ===== src/EventLoop/Waiting.antt =====
-- A coroutine that waits is not forgotten by the loop of include/coro_epoll/event_loop.hpp, on Linux,
-- until its descriptor is ready or removed.
use cpp_coroutine_epoll.Common.{
  ℕ, ◌≡◌, ◌≢◌, inl, inr, refl, ap, ◌∙◌, Bool, false, Option, none, some, List, [], ◌∷◌, arith, ◌==◌,
  if◌then◌else◌, ℤ, pos, negsuc, find, put, erase, find-put, find-erase, Option-cases,
}
use cpp_coroutine_epoll.System.{Epoll, ctl_add, ctl_mod, ctl_del}
use cpp_coroutine_epoll.EventLoop.State.{FdState, EventLoop}
use cpp_coroutine_epoll.EventLoop.Interest.{register, remove, active_events, both_directions}
use cpp_coroutine_epoll.EventLoop.Tasks.{
  Direction, reading, writing, Call, waits, removes, closes_socket, closes_server, posts, spawns,
  finishes, stops, uncaught, unfinished, sockets_of_finished, close_socket, close_server,
  close_sockets, compact_finished_tasks,
}
use cpp_coroutine_epoll.EventLoop.Owned.{
  Free, Unowned, unfinished-Unowned, sockets_of_finished-Free,
}
use cpp_coroutine_epoll.EventLoop.Run.{read_ready, write_ready, exchanged}

abbrev pub handle_in : Direction → FdState → Option ℕ
handle_in reading st = st.read_handle
handle_in writing st = st.write_handle

abbrev pub ready_for : Direction → ℕ → Bool
ready_for reading events = read_ready events
ready_for writing events = write_ready events

pub active_parts :
    (d : Direction) (r w : Option ℕ) (e : Bool) (h : ℕ)
    → (let st : FdState = record { read_handle = r; write_handle = w; edge_trigger = e } in
        handle_in d st ≡ some h → (active_events st == 0) ≡ false)
unfolding active_events
active_parts d (some r) (some w) e h is = refl
active_parts d (some r) none e h is = refl
active_parts d none (some w) e h is = refl
active_parts reading none none e h is = absurd (cc)
active_parts writing none none e h is = absurd (cc)

pub exchanged_keeps :
    (d : Direction) (events h : ℕ) (st : FdState)
    → ready_for d events ≡ false
    → handle_in d st ≡ some h
    → handle_in d (exchanged events st) ≡ some h
exchanged_keeps reading events h st not_ready is = rw not_ready is
exchanged_keeps writing events h st not_ready is = rw not_ready is

edge_trigger_kept :
    (d : Direction) (et : Bool) (st : FdState)
    → handle_in d (record st { edge_trigger = et }) ≡ handle_in d st
edge_trigger_kept reading et st = refl
edge_trigger_kept writing et st = refl

-- The entry with another waiter.
abbrev pub with_waiter : Direction → ℕ → FdState → FdState
with_waiter reading h st = record st { read_handle = some h }
with_waiter writing h st = record st { write_handle = some h }

pub other_kept :
    (d' d : Direction) (h' : ℕ) (st : FdState)
    → d' ≢ d
    → handle_in d (with_waiter d' h' st) ≡ handle_in d st
other_kept reading reading h' st ne = absurd (ne refl)
other_kept reading writing h' st ne = refl
other_kept writing reading h' st ne = refl
other_kept writing writing h' st ne = absurd (ne refl)

module _ (epoll : Epoll) (d : Direction) (fd h : ℕ) where
  abbrev Loop : Type 0
  Loop = EventLoop epoll.Kernel

  -- Coroutine `h` waits for direction `d` on descriptor `fd`, which is registered and belongs to no task.
  pub record Waits (l : Loop) : Type 0 where
    pub entry : FdState
    pub found : find fd l.states ≡ some entry
    pub waiting : handle_in d entry ≡ some h
    pub mask : ℕ
    pub registered : epoll.interest l.kernel fd ≡ some mask
    pub unowned : Unowned fd l.tasks

  -- A call that leaves the descriptor open and registered, and the wait to `h`.
  abbrev pub Spares : Call → Type 0
  Spares (waits d' et fd' h') = fd' ≡ pos fd → d' ≢ d
  Spares (removes fd') = fd' ≢ pos fd
  Spares (closes_socket fd') = fd' ≢ pos fd
  Spares (closes_server fd') = fd' ≢ pos fd
  Spares (posts c) = Unit
  Spares (spawns h' fds) = Free fd fds
  Spares (finishes h' e) = Unit
  Spares stops = Unit

  -- The kernel accepts every change of the descriptor's registration.
  abbrev pub Accepts : Type 0
  Accepts =
      (k : epoll.Kernel) (mask old : ℕ)
      → epoll.interest k fd ≡ some old
      → (epoll.ctl ctl_mod fd mask k).0 ≡ none

  -- The same entry and registration, seen from elsewhere.
  pub moved :
      (l : Loop) (k : epoll.Kernel) (states : List (ℕ × FdState))
      → find fd states ≡ find fd l.states
      → epoll.interest k fd ≡ epoll.interest l.kernel fd
      → Waits l
      → Waits (record l { kernel = k; states = states })
  moved l k states same_entry same_mask w = record {
    entry = w.entry;
    found = same_entry ∙ w.found;
    waiting = w.waiting;
    mask = w.mask;
    registered = same_mask ∙ w.registered;
    unowned = w.unowned;
  }

  pub register_elsewhere :
      (fd' : ℕ) (st : FdState) (inserted et : Bool) (l : Loop)
      → fd' ≢ fd
      → Waits l
      → Waits (register epoll fd' st inserted et l).0
  unfolding register
  register_elsewhere fd' st inserted et l apart w =
      let op = if inserted then ctl_add else ctl_mod in
      let same = epoll.elsewhere op fd' (both_directions et) l.kernel fd apart in
      elim (Option-cases (epoll.ctl op fd' (both_directions et) l.kernel).0) [
        | inl done ↦
            rw (done, register)
              (moved l _ (put fd' (record st { edge_trigger = et }) l.states)
                (ground (arith, find-put fd' fd (record st { edge_trigger = et }) l.states)) same w)
        | inr (e, refused) ↦
            rw (refused, register)
              (moved l _ (erase fd' l.states) (ground (arith, find-erase fd' fd l.states)) same w)
      ]

  pub register_here :
      (accepts : Accepts) (st : FdState) (et : Bool) (l : Loop)
      → handle_in d st ≡ some h
      → Waits l
      → Waits (register epoll fd st false et l).0
  unfolding register
  register_here accepts st et l is w =
      let done = accepts l.kernel (both_directions et) w.mask w.registered in
      rw (done, register)
        (record {
          entry = record st { edge_trigger = et };
          found = ground (arith, find-put fd fd (record st { edge_trigger = et }) l.states);
          waiting = edge_trigger_kept d et st ∙ is;
          mask = both_directions et;
          registered = epoll.mod_sets fd (both_directions et) l.kernel done;
          unowned = w.unowned;
        })

  pub remove-Waits : (fd' : ℤ) (l : Loop) → fd' ≢ pos fd → Waits l → Waits (remove epoll fd' l)
  unfolding remove
  remove-Waits (negsuc n) l apart w = w
  remove-Waits (pos fd') l apart w =
      let ne : fd' ≢ fd = λ e. apart (ap pos e) in
      moved l (epoll.ctl ctl_del fd' 0 l.kernel).1 (erase fd' l.states)
        (ground (arith, find-erase fd' fd l.states)) (epoll.elsewhere ctl_del fd' 0 l.kernel fd ne)
        w

  pub close_socket-Waits :
      (fd' : ℤ) (l : Loop) → fd' ≢ pos fd → Waits l → Waits (close_socket epoll fd' l)
  unfolding close_socket
  close_socket-Waits (negsuc n) l apart w = w
  close_socket-Waits (pos fd') l apart w =
      let m = remove epoll (pos fd') l in
      moved m (epoll.close fd' m.kernel) m.states refl
        (epoll.close_elsewhere fd' m.kernel fd (λ e. apart (ap pos e)))
        (remove-Waits (pos fd') l apart w)

  pub close_server-Waits :
      (fd' : ℤ) (l : Loop) → fd' ≢ pos fd → Waits l → Waits (close_server epoll fd' l)
  unfolding close_server
  close_server-Waits (negsuc n) l apart w = w
  close_server-Waits (pos fd') l apart w =
      remove-Waits (pos fd') (record l { kernel = epoll.close fd' l.kernel }) apart
        (moved l (epoll.close fd' l.kernel) l.states refl
          (epoll.close_elsewhere fd' l.kernel fd (λ e. apart (ap pos e))) w)

  close_sockets-Waits :
      (fds : List ℤ) (l : Loop) → Free fd fds → Waits l → Waits (close_sockets epoll fds l)
  unfolding close_sockets
  close_sockets-Waits [] l free w = w
  close_sockets-Waits (fd' ∷ fds) l (apart, free) w =
      close_sockets-Waits fds _ free (close_socket-Waits fd' l apart w)

  -- The members beside the table and the kernel.
  pub beside :
      (l l' : Loop)
      → l'.states ≡ l.states
      → l'.kernel ≡ l.kernel
      → Unowned fd l'.tasks
      → Waits l
      → Waits l'
  beside l l' same_states same_kernel unowned w = record {
    entry = w.entry;
    found = ap (find fd) same_states ∙ w.found;
    waiting = w.waiting;
    mask = w.mask;
    registered = ap (λ k. epoll.interest k fd) same_kernel ∙ w.registered;
    unowned = unowned;
  }

  pub compact-Waits : (l : Loop) → Waits l → Waits (compact_finished_tasks epoll l).0
  unfolding compact_finished_tasks
  compact-Waits l w = elim (Option-cases (uncaught l.tasks)) [
    | inl e ↦
        rw (e, compact_finished_tasks)
          (close_sockets-Waits (sockets_of_finished l.tasks)
            (record l { tasks = unfinished l.tasks })
            (sockets_of_finished-Free fd l.tasks w.unowned)
            (beside l (record l { tasks = unfinished l.tasks }) refl refl
              (unfinished-Unowned fd l.tasks w.unowned) w))
    | inr (x, e) ↦ rw (e, compact_finished_tasks) w
  ]
