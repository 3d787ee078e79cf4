-- ===== src/EventLoop/Deletion.antt =====
-- `delete_kqueue_filter` of include/coro_epoll/event_loop.hpp comes to an end.
use cpp_coroutine_epoll.Common.{ℕ, zero, suc, ◌<◌, ◌≡◌, ◌≢◌, refl, Option, none, some, arith}
use cpp_coroutine_epoll.System.{Errno, eintr}
use cpp_coroutine_epoll.EventLoop.Kqueue.{Filter, delete, Kqueue, delete_loop, delete_kqueue_filter}

module _ (kqueue : Kqueue) where
  open kqueue use {Kernel, kevent, interruptions}

  -- The call that ends the loop, and is not interrupted.
  abbrev Ends : ℕ → Filter → Kernel → Kernel → Type 0
  Ends fd f k result =
      (k' : Kernel) × ((kevent fd f delete k').0 ≢ some eintr)
      × (result ≡ (kevent fd f delete k').1)

  step-Ends :
      (n fd : ℕ) (f : Filter) (k : Kernel) (answer : Option Errno)
      → (kevent fd f delete k).0 ≡ answer
      → (answer ≡ some eintr → Ends fd f k (delete_loop kqueue n fd f (kevent fd f delete k).1))
      → Ends fd f k (delete_loop kqueue (suc n) fd f k)
  unfolding delete_loop
  step-Ends n fd f k none is more = (k, (λ same. cc), rw (is, delete_loop) refl)
  step-Ends n fd f k (some eintr) is more = rw (is, delete_loop) (more refl)
  step-Ends n fd f k (some e) is more = (k, (λ same. cc), rw (is, delete_loop) refl)

  delete_loop-Ends :
      (n fd : ℕ) (f : Filter) (k : Kernel)
      → interruptions k < n
      → Ends fd f k (delete_loop kqueue n fd f k)
  unfolding delete_loop
  delete_loop-Ends zero fd f k h = absurd (omega arith)
  delete_loop-Ends (suc n) fd f k h = step-Ends n fd f k _ refl (λ again.
      delete_loop-Ends n fd f (kevent fd f delete k).1
        (omega (arith, kqueue.calms fd f delete k again)))

  -- The fuel of the loop is enough: its last call of kevent(2) has not been interrupted.
  pub delete_kqueue_filter-Ends :
      (fd : ℕ) (f : Filter) (k : Kernel)
      → (k' : Kernel) × ((kevent fd f delete k').0 ≢ some eintr)
        × (delete_kqueue_filter kqueue fd f k ≡ (kevent fd f delete k').1)
  unfolding delete_kqueue_filter
  delete_kqueue_filter-Ends fd f k = delete_loop-Ends (suc (interruptions k)) fd f k (omega arith)
