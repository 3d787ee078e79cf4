-- ===== src/EventLoop/Fixture.antt =====
-- A concrete epoll instance and a concrete program, for tests: registrations are a table, and every
-- MOD of descriptor 9 fails for lack of memory.
use cpp_coroutine_epoll.Common.{
  ℕ, ◌≡◌, ◌≢◌, Option, none, some, List, [], ◌∷◌, arith, ◌==◌, if◌then◌else◌, find, put, erase,
  find-put, find-erase, true, pos,
}
use cpp_coroutine_epoll.System.{
  Errno, enoent, other_errno, Exception, unknown_exception, runtime_error, CtlOp, ctl_add, ctl_mod,
  ctl_del, Epoll,
}
use cpp_coroutine_epoll.EventLoop.State.{EventLoop}
use cpp_coroutine_epoll.EventLoop.Tasks.{
  Call, waits, reading, writing, removes, finishes, posts, Program,
}

abbrev pub Table : Type 0
Table = List (ℕ × ℕ)

unfoldable pub table_ctl : CtlOp → ℕ → ℕ → Table → Option Errno × Table
table_ctl ctl_add fd mask k = elim (find fd k) [
  | some m ↦ (some (other_errno 17), k)
  | none ↦ (none, put fd mask k)
]
table_ctl ctl_mod fd mask k = elim (find fd k) [
  | some m ↦ if fd == 9 then (some (other_errno 12), k) else (none, put fd mask k)
  | none ↦ (some enoent, k)
]
table_ctl ctl_del fd mask k = elim (find fd k) [
  | some m ↦ (none, erase fd k)
  | none ↦ (some enoent, k)
]

pub add_sets_table :
    (fd mask : ℕ) (k : Table)
    → (table_ctl ctl_add fd mask k).0 ≡ none
    → find fd (table_ctl ctl_add fd mask k).1 ≡ some mask
unfolding table_ctl
add_sets_table fd mask k h = ground (arith, find-put fd fd mask k)

pub mod_sets_table :
    (fd mask : ℕ) (k : Table)
    → (table_ctl ctl_mod fd mask k).0 ≡ none
    → find fd (table_ctl ctl_mod fd mask k).1 ≡ some mask
unfolding table_ctl
mod_sets_table fd mask k h = ground (arith, find-put fd fd mask k)

pub failed_keeps_table :
    (op : CtlOp) (fd mask : ℕ) (k : Table) (e : Errno) (j : ℕ)
    → (table_ctl op fd mask k).0 ≡ some e
    → find j (table_ctl op fd mask k).1 ≡ find j k
unfolding table_ctl
failed_keeps_table ctl_add fd mask k e j h = ground arith
failed_keeps_table ctl_mod fd mask k e j h = ground arith
failed_keeps_table ctl_del fd mask k e j h = ground arith

pub elsewhere_table :
    (op : CtlOp) (fd mask : ℕ) (k : Table) (j : ℕ)
    → fd ≢ j
    → find j (table_ctl op fd mask k).1 ≡ find j k
unfolding table_ctl
elsewhere_table ctl_add fd mask k j ne = ground (arith, find-put fd j mask k)
elsewhere_table ctl_mod fd mask k j ne = ground (arith, find-put fd j mask k)
elsewhere_table ctl_del fd mask k j ne = ground (arith, find-erase fd j k)

pub close_elsewhere_table : (fd : ℕ) (k : Table) (j : ℕ) → fd ≢ j → find j (erase fd k) ≡ find j k
close_elsewhere_table fd k j ne = ground (arith, find-erase fd j k)

abbrev pub table_epoll : Epoll
table_epoll = record {
  Kernel = Table;
  interest = λ k fd. find fd k;
  ctl = table_ctl;
  close = erase;
  add_sets = add_sets_table;
  mod_sets = mod_sets_table;
  failed_keeps = failed_keeps_table;
  elsewhere = elsewhere_table;
  close_elsewhere = close_elsewhere_table;
}

-- Coroutine 1 reads from descriptor 5 again and again; coroutine 2 removes the descriptor and posts
-- callback 3; coroutine 4 ends with an exception that is no std::exception; any other one ends.
-- Callback 6 throws, the others wait for 5 to become writable.
abbrev pub segment : ℕ → EventLoop Table → List Call
segment h l =
    if h == 1
    then waits reading true (pos 5) 1 ∷ []
    else if h == 2
    then removes (pos 5) ∷ posts 3 ∷ []
    else if h == 4
    then finishes 4 (some (unknown_exception 0)) ∷ []
    else finishes h none ∷ []

abbrev pub callback : ℕ → EventLoop Table → List Call × Option Exception
callback c l =
    if c == 6
    then ([], some (runtime_error "callback"))
    else (waits writing true (pos 5) 2 ∷ [], none)

abbrev pub test_program : Program Table
test_program = record { segment = segment; callback = callback }
