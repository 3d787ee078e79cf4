-- ===== src/EventLoop/MacFixture.antt =====
-- A concrete kqueue, for tests: registrations are two functions, and every registration of descriptor 9
-- for reading fails for lack of memory.
use cpp_coroutine_epoll.Common.{
  ℕ, ◌<◌, ◌≡◌, ◌≢◌, ◌⊎◌, refl, Bool, Option, none, some, [], arith, ◌==◌, if◌then◌else◌,
}
use cpp_coroutine_epoll.Common.Family.{update}
use cpp_coroutine_epoll.System.{Errno, eintr, enoent, other_errno}
use cpp_coroutine_epoll.EventLoop.Kqueue.{
  Filter, filter_read, filter_write, filter_other, Change, add, delete, Kqueue, MacLoop,
}

pub record Registrations : Type 0 where
  pub reading : ℕ → Option Bool
  pub writing : ℕ → Option Bool

abbrev pub lookup : Registrations → ℕ → Filter → Option Bool
lookup k fd filter_read = k.reading fd
lookup k fd filter_write = k.writing fd
lookup k fd filter_other = none

abbrev absent_errno : Option Bool → Option Errno
absent_errno none = some enoent
absent_errno (some et) = none

unfoldable pub change : ℕ → Filter → Change → Registrations → Option Errno × Registrations
change fd filter_read (add et) k =
    if fd == 9
    then (some (other_errno 12), k)
    else (none, record k { reading = update k.reading fd (some et) })
change fd filter_read delete k =
    (absent_errno (k.reading fd), record k { reading = update k.reading fd none })
change fd filter_write (add et) k = (none, record k { writing = update k.writing fd (some et) })
change fd filter_write delete k =
    (absent_errno (k.writing fd), record k { writing = update k.writing fd none })
change fd filter_other c k = (some (other_errno 22), k)

pub change_sets :
    (fd : ℕ) (f : Filter) (et : Bool) (k : Registrations)
    → (change fd f (add et) k).0 ≡ none
    → lookup (change fd f (add et) k).1 fd f ≡ some et
unfolding change
change_sets fd filter_read et k h = ground arith
change_sets fd filter_write et k h = ground arith
change_sets fd filter_other et k h = absurd (cc)

pub change_unsets :
    (fd : ℕ) (f : Filter) (k : Registrations) → lookup (change fd f delete k).1 fd f ≡ none
unfolding change
change_unsets fd filter_read k = ground arith
change_unsets fd filter_write k = ground arith
change_unsets fd filter_other k = refl

pub change_elsewhere :
    (fd : ℕ) (f : Filter) (c : Change) (k : Registrations) (j : ℕ) (g : Filter)
    → (fd ≢ j) ⊎ (f ≢ g)
    → lookup (change fd f c k).1 j g ≡ lookup k j g
unfolding change
change_elsewhere fd filter_read (add et) k j filter_read h = ground arith
change_elsewhere fd filter_read (add et) k j filter_write h = ground arith
change_elsewhere fd filter_read delete k j filter_read h = ground arith
change_elsewhere fd filter_read delete k j filter_write h = refl
change_elsewhere fd filter_write (add et) k j filter_read h = refl
change_elsewhere fd filter_write (add et) k j filter_write h = ground arith
change_elsewhere fd filter_write delete k j filter_read h = refl
change_elsewhere fd filter_write delete k j filter_write h = ground arith
change_elsewhere fd f c k j filter_other h = refl
change_elsewhere fd filter_other c k j g h = refl

pub change_calms :
    (fd : ℕ) (f : Filter) (c : Change) (k : Registrations)
    → (change fd f c k).0 ≡ some eintr
    → 0 < 0
unfolding change
change_calms fd filter_read (add et) k h = ground arith
change_calms fd filter_read delete k h = ground arith
change_calms fd filter_write (add et) k h = absurd (cc)
change_calms fd filter_write delete k h = ground arith
change_calms fd filter_other c k h = absurd (cc)

unfoldable pub close : ℕ → Registrations → Registrations
close fd k = record { reading = update k.reading fd none; writing = update k.writing fd none }

pub close_unsets : (fd : ℕ) (k : Registrations) (g : Filter) → lookup (close fd k) fd g ≡ none
unfolding close
close_unsets fd k filter_read = ground arith
close_unsets fd k filter_write = ground arith
close_unsets fd k filter_other = refl

pub close_elsewhere :
    (fd : ℕ) (k : Registrations) (j : ℕ) (g : Filter)
    → fd ≢ j
    → lookup (close fd k) j g ≡ lookup k j g
unfolding close
close_elsewhere fd k j filter_read h = ground arith
close_elsewhere fd k j filter_write h = ground arith
close_elsewhere fd k j filter_other h = refl

abbrev pub two_tables : Kqueue
two_tables = record {
  Kernel = Registrations;
  filters = lookup;
  kevent = change;
  add_sets = change_sets;
  delete_unsets = λ fd f k h. change_unsets fd f k;
  not_found = λ fd f k h. change_unsets fd f k;
  closed_unset = λ fd f k e h not_eintr not_enoent. change_unsets fd f k;
  elsewhere = change_elsewhere;
  close = close;
  close_unsets = close_unsets;
  close_elsewhere = close_elsewhere;
  interruptions = λ k. 0;
  calms = change_calms;
}

abbrev pub no_registrations : Registrations
no_registrations = record { reading = λ fd. none; writing = λ fd. none }

-- The pipe is descriptor 3.
abbrev pub empty_loop : MacLoop two_tables
empty_loop = record { kernel = no_registrations; wakeup_read_fd = 3; states = [] }
