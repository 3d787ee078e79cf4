-- ===== src/EventLoop/Owned.antt =====
-- Descriptors that no task of the loop of include/coro_epoll/event_loop.hpp owns.
use cpp_coroutine_epoll.Common.{
  ℕ, ◌≢◌, inl, inr, Option, List, [], ◌∷◌, ◌==◌, ℤ, pos, Bool-cases, All, All-append,
}
use cpp_coroutine_epoll.System.{Exception}
use cpp_coroutine_epoll.EventLoop.State.{TaskEntry}
use cpp_coroutine_epoll.EventLoop.Tasks.{finish, unfinished, sockets_of_finished}

module _ (fd : ℕ) where
  -- The descriptor is none of these.
  abbrev pub Free : List ℤ → Type 0
  Free fds = All (λ (s : ℤ). s ≢ pos fd) fds

  abbrev pub Unowned : List TaskEntry → Type 0
  Unowned ts = All (λ (t : TaskEntry). Free t.sockets) ts

  pub finish-Unowned :
      (h : ℕ) (e : Option Exception) (ts : List TaskEntry) → Unowned ts → Unowned (finish h e ts)
  unfolding finish
  finish-Unowned h e [] own = tt
  finish-Unowned h e (t ∷ ts) (own, owns) = elim (Bool-cases (t.coroutine == h)) [
    | inl is ↦ rw is (own, finish-Unowned h e ts owns)
    | inr not ↦ rw not (own, finish-Unowned h e ts owns)
  ]

  pub unfinished-Unowned : (ts : List TaskEntry) → Unowned ts → Unowned (unfinished ts)
  unfolding unfinished
  unfinished-Unowned [] own = tt
  unfinished-Unowned (t ∷ ts) (own, owns) = elim (Bool-cases t.done) [
    | inl over ↦ rw over (unfinished-Unowned ts owns)
    | inr live ↦ rw live (own, unfinished-Unowned ts owns)
  ]

  pub sockets_of_finished-Free : (ts : List TaskEntry) → Unowned ts → Free (sockets_of_finished ts)
  unfolding sockets_of_finished
  sockets_of_finished-Free [] own = tt
  sockets_of_finished-Free (t ∷ ts) (own, owns) = elim (Bool-cases t.done) [
    | inl over ↦ rw over (
        All-append (λ (s : ℤ). s ≢ pos fd) t.sockets (sockets_of_finished ts) own
          (sockets_of_finished-Free ts owns))
    | inr live ↦ rw live (sockets_of_finished-Free ts owns)
  ]
