-- ===== src/EventLoop/Filters.antt =====
-- The registrations of the macOS event loop (include/coro_epoll/event_loop.hpp) against its waiting
-- coroutines.
use cpp_coroutine_epoll.Common.{
  ℕ, zero, suc, ◌≡◌, ◌≢◌, ◌⊎◌, inl, inr, refl, ◌∙◌, Bool, true, false, Option, none, some,
  if◌then◌else◌, arith, Option-cases,
}
use cpp_coroutine_epoll.System.{Errno, eintr, enoent}
use cpp_coroutine_epoll.EventLoop.State.{FdState}
use cpp_coroutine_epoll.EventLoop.Kqueue.{
  Filter, filter_read, filter_write, add, delete, Kqueue, is_set, is_enoent,
  update_kqueue_filter_impl, delete_loop, delete_kqueue_filter, delete_both,
}
use cpp_coroutine_epoll.EventLoop.MacLoop.{update_both}
use cpp_coroutine_epoll.EventLoop.Deletion.{delete_kqueue_filter-Ends}

is_enoent_eq : (e : Errno) → is_enoent e ≡ true → e ≡ enoent
is_enoent_eq enoent h = refl
is_enoent_eq e h = absurd (cc)

write_not_read : filter_write ≢ filter_read
write_not_read e = cc

module _ (kqueue : Kqueue) where
  open kqueue use {Kernel, filters, kevent, interruptions}

  abbrev pub registered : Bool → Bool → Option Bool
  registered active et = if active then some et else none

  update-here :
      (fd : ℕ) (f : Filter) (active et : Bool) (k : Kernel)
      → (update_kqueue_filter_impl kqueue fd f active et k).0 ≡ none
      → filters (update_kqueue_filter_impl kqueue fd f active et k).1 fd f ≡ registered active et
  unfolding update_kqueue_filter_impl
  update-here fd f true et k fine = ground (arith, kqueue.add_sets fd f et k)
  update-here fd f false et k fine = elim (Option-cases (kevent fd f delete k).0) [
    | inl done ↦ ground (arith, kqueue.delete_unsets fd f k)
    | inr (e, failed) ↦ ground (arith, failed, kqueue.not_found fd f k, is_enoent_eq e)
  ]

  update-elsewhere :
      (fd : ℕ) (f : Filter) (active et : Bool) (k : Kernel) (j : ℕ) (g : Filter)
      → (fd ≢ j) ⊎ (f ≢ g)
      → filters (update_kqueue_filter_impl kqueue fd f active et k).1 j g ≡ filters k j g
  unfolding update_kqueue_filter_impl
  update-elsewhere fd f active et k j g apart =
      ground (arith, kqueue.elsewhere fd f (if active then add et else delete) k j g apart)

  -- The two filters of a descriptor are registered exactly for the coroutines that wait on it.
  abbrev pub Matches : Kernel → ℕ → FdState → Bool → Type 0
  Matches k fd st et =
      (filters k fd filter_read ≡ registered (is_set st.read_handle) et)
      × (filters k fd filter_write ≡ registered (is_set st.write_handle) et)

  pub update_both-Matches :
      (fd : ℕ) (st : FdState) (et : Bool) (k : Kernel)
      → (update_both kqueue fd st et k).0 ≡ none
      → Matches (update_both kqueue fd st et k).1 fd st et
  unfolding update_both
  update_both-Matches fd st et k fine =
      let (reading, k') =
        update_kqueue_filter_impl kqueue fd filter_read (is_set st.read_handle) et k in
      elim (Option-cases reading) [
        | inr (e, thrown) ↦ absurd (ground (arith, thrown))
        | inl none_thrown ↦
            let rest = rw (none_thrown, update_both) at fine in
            rw (none_thrown, update_both)
              (
                update-elsewhere fd filter_write (is_set st.write_handle) et k' fd filter_read
                      (inr write_not_read)
                    ∙ update-here fd filter_read (is_set st.read_handle) et k none_thrown,
                update-here fd filter_write (is_set st.write_handle) et k' rest,
              )
      ]

  pub update_both-elsewhere :
      (fd : ℕ) (st : FdState) (et : Bool) (k : Kernel) (j : ℕ) (g : Filter)
      → fd ≢ j
      → filters (update_both kqueue fd st et k).1 j g ≡ filters k j g
  unfolding update_both
  update_both-elsewhere fd st et k j g apart = ground (
    arith,
    update-elsewhere fd filter_read (is_set st.read_handle) et k j g (inl apart),
    update-elsewhere fd filter_write (is_set st.write_handle) et
        (update_kqueue_filter_impl kqueue fd filter_read (is_set st.read_handle) et k).1 j g
        (inl apart),
  )

  delete_loop-elsewhere :
      (n fd : ℕ) (f : Filter) (k : Kernel) (j : ℕ) (g : Filter)
      → (fd ≢ j) ⊎ (f ≢ g)
      → filters (delete_loop kqueue n fd f k) j g ≡ filters k j g
  unfolding delete_loop
  delete_loop-elsewhere zero fd f k j g apart = refl
  delete_loop-elsewhere (suc n) fd f k j g apart =
      let k' = (kevent fd f delete k).1 in
      ground
        (arith, kqueue.elsewhere fd f delete k j g apart, delete_loop-elsewhere n fd f k' j g apart)

  pub delete_both-elsewhere :
      (fd : ℕ) (k : Kernel) (j : ℕ) (g : Filter)
      → fd ≢ j
      → filters (delete_both kqueue fd k) j g ≡ filters k j g
  unfolding delete_both delete_kqueue_filter
  delete_both-elsewhere fd k j g apart =
      let k' = delete_kqueue_filter kqueue fd filter_read k in
      delete_loop-elsewhere (suc (interruptions k')) fd filter_write k' j g (inl apart)
      ∙ delete_loop-elsewhere (suc (interruptions k)) fd filter_read k j g (inl apart)

  deleted :
      (fd : ℕ) (f : Filter) (k : Kernel) (answer : Option Errno)
      → (kevent fd f delete k).0 ≡ answer
      → answer ≢ some eintr
      → filters (kevent fd f delete k).1 fd f ≡ none
  deleted fd f k none is calm = kqueue.delete_unsets fd f k is
  deleted fd f k (some eintr) is calm = absurd (calm refl)
  deleted fd f k (some enoent) is calm = kqueue.not_found fd f k is
  deleted fd f k (some e) is calm = kqueue.closed_unset fd f k e is (λ h. cc) (λ h. cc)

  delete-here :
      (fd : ℕ) (f : Filter) (k : Kernel) → filters (delete_kqueue_filter kqueue fd f k) fd f ≡ none
  delete-here fd f k =
      let (k', calm, is) = delete_kqueue_filter-Ends kqueue fd f k in
      rw is (deleted fd f k' _ refl calm)

  -- Neither filter of a descriptor is registered.
  abbrev pub Unregistered : Kernel → ℕ → Type 0
  Unregistered k fd = (filters k fd filter_read ≡ none) × (filters k fd filter_write ≡ none)

  pub delete_both-Unregistered : (fd : ℕ) (k : Kernel) → Unregistered (delete_both kqueue fd k) fd
  unfolding delete_both delete_kqueue_filter
  delete_both-Unregistered fd k =
      let k' = delete_kqueue_filter kqueue fd filter_read k in
      (
        delete_loop-elsewhere (suc (interruptions k')) fd filter_write k' fd filter_read
              (inr write_not_read)
            ∙ delete-here fd filter_read k,
        delete-here fd filter_write k',
      )
