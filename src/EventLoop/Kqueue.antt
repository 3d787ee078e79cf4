-- ===== src/EventLoop/Kqueue.antt =====
-- The macOS branches of include/coro_epoll/event_loop.hpp: registration and dispatch on a kqueue, which
-- is an interface with the laws of kevent(2) that the event loop relies on.
use cpp_coroutine_epoll.Common.{
  ℕ, zero, suc, ◌<◌, ◌≡◌, ◌≢◌, ◌⊎◌, Bool, true, false, not, ◌&&◌, ◌||◌, Option, none, some, List,
  [], ◌∷◌, ◌++◌, if◌then◌else◌,
}
use cpp_coroutine_epoll.System.{Errno, eintr, enoent, Exception, system_error}
use cpp_coroutine_epoll.EventLoop.State.{FdState}

-- EVFILT_READ and EVFILT_WRITE, and any other filter.
pub data Filter : Type 0 where
  filter_read filter_write filter_other : Filter

-- The flags of a change: EV_ADD | EV_ENABLE, with EV_CLEAR if the Boolean is true, or EV_DELETE.
pub data Change : Type 0 where
  add : Bool → Change
  delete : Change

-- A kqueue. `kevent` makes one change, and answers `none` for 0 and `some e` for -1 with errno `e`.
-- `filters` has for each descriptor and filter whether it is registered, and then EV_CLEAR.
pub record Kqueue : Type 1 where
  pub Kernel : Type 0
  pub filters : Kernel → ℕ → Filter → Option Bool
  pub kevent : ℕ → Filter → Change → Kernel → Option Errno × Kernel
  -- A successful change is made, and ENOENT says that there is nothing to delete.
  pub add_sets :
      (fd : ℕ) (f : Filter) (et : Bool) (k : Kernel)
      → (kevent fd f (add et) k).0 ≡ none
      → filters (kevent fd f (add et) k).1 fd f ≡ some et
  pub delete_unsets :
      (fd : ℕ) (f : Filter) (k : Kernel)
      → (kevent fd f delete k).0 ≡ none
      → filters (kevent fd f delete k).1 fd f ≡ none
  pub not_found :
      (fd : ℕ) (f : Filter) (k : Kernel)
      → (kevent fd f delete k).0 ≡ some enoent
      → filters (kevent fd f delete k).1 fd f ≡ none
  -- Deleting fails otherwise only if a signal interrupts it, or if the descriptor is closed, and then
  -- nothing of it is registered.
  pub closed_unset :
      (fd : ℕ) (f : Filter) (k : Kernel) (e : Errno)
      → (kevent fd f delete k).0 ≡ some e
      → e ≢ eintr
      → e ≢ enoent
      → filters (kevent fd f delete k).1 fd f ≡ none
  -- No call changes the registration of another descriptor or filter.
  pub elsewhere :
      (fd : ℕ) (f : Filter) (c : Change) (k : Kernel) (j : ℕ) (g : Filter)
      → (fd ≢ j) ⊎ (f ≢ g)
      → filters (kevent fd f c k).1 j g ≡ filters k j g
  -- close(2) of a descriptor deletes its registrations, and leaves those of the others.
  pub close : ℕ → Kernel → Kernel
  pub close_unsets : (fd : ℕ) (k : Kernel) (g : Filter) → filters (close fd k) fd g ≡ none
  pub close_elsewhere :
      (fd : ℕ) (k : Kernel) (j : ℕ) (g : Filter) → fd ≢ j → filters (close fd k) j g ≡ filters k j g
  -- Signals do not interrupt the call for ever.
  pub interruptions : Kernel → ℕ
  pub calms :
      (fd : ℕ) (f : Filter) (c : Change) (k : Kernel)
      → (kevent fd f c k).0 ≡ some eintr
      → interruptions (kevent fd f c k).1 < interruptions k

-- A `struct kevent` that kevent(2) returns; `has_error` is `(flags & (EV_ERROR | EV_EOF)) != 0`.
pub record Kevent : Type 0 where
  pub ident : ℕ
  pub filter : Filter
  pub has_error : Bool

abbrev pub is_read : Filter → Bool
is_read filter_read = true
is_read f = false

abbrev pub is_write : Filter → Bool
is_write filter_write = true
is_write f = false

abbrev pub is_set : Option ℕ → Bool
is_set none = false
is_set (some h) = true

abbrev pub is_enoent : Errno → Bool
is_enoent enoent = true
is_enoent e = false

-- The entry after the two calls of std::exchange in `dispatch`, and the handles that they return.
abbrev pub exchanged_by : Kevent → FdState → FdState
exchanged_by event st = record st {
  read_handle = if is_read event.filter || event.has_error then none else st.read_handle;
  write_handle = if is_write event.filter || event.has_error then none else st.write_handle;
}

abbrev pub handles_of : Option ℕ → List ℕ
handles_of none = []
handles_of (some h) = h ∷ []

abbrev pub taken_by : Kevent → FdState → List ℕ
taken_by event st =
    handles_of (if is_read event.filter || event.has_error then st.read_handle else none)
    ++ handles_of (if is_write event.filter || event.has_error then st.write_handle else none)

module _ (kqueue : Kqueue) where
  open kqueue use {Kernel, kevent, interruptions}

  unfoldable pub update_kqueue_filter_impl :
      ℕ → Filter → Bool → Bool → Kernel → Option Exception × Kernel
  update_kqueue_filter_impl fd f active et k =
      let (answer, k') = kevent fd f (if active then add et else delete) k in
      elim answer [
        | none ↦ (none, k')
        | some e ↦ (
          (if not active && is_enoent e
              then none
              else some (system_error e (if active then "kevent add" else "kevent delete"))),
          k',
        )
      ]

  -- The loop of `delete_kqueue_filter`, on fuel; the `kqueue_fd_` of a loop that has been constructed is
  -- not negative.
  unfoldable pub delete_loop : ℕ → ℕ → Filter → Kernel → Kernel
  delete_loop zero fd f k = k
  delete_loop (suc n) fd f k =
      let (answer, k') = kevent fd f delete k in
      let again = delete_loop n fd f k' in
      elim answer [ none ↦ k' | some eintr ↦ again | some e ↦ k' ]

  -- One more than there are interruptions to come is enough.
  unfoldable pub delete_kqueue_filter : ℕ → Filter → Kernel → Kernel
  unfolding delete_loop
  delete_kqueue_filter fd f k = delete_loop (suc (interruptions k)) fd f k

  -- The members that these functions touch; `wakeup_read_fd` is the read end of the pipe.
  pub record MacLoop : Type 0 where
    pub kernel : Kernel
    pub wakeup_read_fd : ℕ
    pub states : List (ℕ × FdState)

  unfoldable pub delete_both : ℕ → Kernel → Kernel
  unfolding delete_kqueue_filter
  delete_both fd k = delete_kqueue_filter fd filter_write (delete_kqueue_filter fd filter_read k)
