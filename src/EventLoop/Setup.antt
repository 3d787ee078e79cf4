-- ===== src/EventLoop/Setup.antt =====
-- The constructor and the destructor of `EventLoop` in include/coro_epoll/event_loop.hpp, on Linux and
-- on macOS, with `add_wakeup_fd`, `set_non_blocking` and `set_close_on_exec`.
use cpp_coroutine_epoll.Common.{
  ℕ, ◌≡◌, Option, none, some, List, [], ◌∷◌, ◌++◌, arith, ℤ, pos, negsuc, minus_one,
}
use cpp_coroutine_epoll.System.{Errno, Exception, system_error}
use cpp_coroutine_epoll.Socket.Setup.{SocketAnswer, opened, not_opened, first_failure}

-- The members that hold descriptors: on Linux `wakeup_fd_` and `epoll_fd_`, on macOS the two ends of
-- `wakeup_pipe_` and `kqueue_fd_`, in the order in which the destructor closes them.
abbrev pub Members : Type 0
Members = List ℤ

-- `opened_fds` has the newest first, `closed_fds` the oldest.
pub record Building : Type 0 where
  pub members : Members
  pub opened_fds : List ℕ
  pub closed_fds : List ℕ
  pub thrown : Option Exception

pub record LinuxAnswers : Type 0 where
  pub epoll_create1 : SocketAnswer
  pub eventfd : SocketAnswer
  pub add_wakeup : Option Errno

-- `add_wakeup_fd`
unfoldable pub add_wakeup_fd : Option Errno → Option Exception
add_wakeup_fd answer = first_failure ((answer, "epoll_ctl wakeup fd") ∷ [])

unfoldable pub construct : LinuxAnswers → Building
unfolding add_wakeup_fd
construct a = elim a.epoll_create1 [
  | not_opened e ↦ record {
    members = minus_one ∷ minus_one ∷ [];
    opened_fds = [];
    closed_fds = [];
    thrown = some (system_error e "epoll_create1");
  }
  | opened epoll ↦ elim a.eventfd [
    | not_opened e ↦ record {
      members = minus_one ∷ minus_one ∷ [];
      opened_fds = epoll ∷ [];
      closed_fds = epoll ∷ [];
      thrown = some (system_error e "eventfd");
    }
    | opened wakeup ↦ elim (add_wakeup_fd a.add_wakeup) [
      | some e ↦ record {
        members = minus_one ∷ minus_one ∷ [];
        opened_fds = wakeup ∷ epoll ∷ [];
        closed_fds = wakeup ∷ epoll ∷ [];
        thrown = some e;
      }
      | none ↦ record {
        members = pos wakeup ∷ pos epoll ∷ [];
        opened_fds = wakeup ∷ epoll ∷ [];
        closed_fds = [];
        thrown = none;
      }
    ]
  ]
]

-- `~EventLoop`: what it closes.
unfoldable pub destroy : Members → List ℕ
destroy [] = []
destroy (negsuc n ∷ fds) = destroy fds
destroy (pos fd ∷ fds) = fd ∷ destroy fds

-- pipe(2): its read end and its write end, or an errno.
pub data PipeAnswer : Type 0 where
  piped : ℕ → ℕ → PipeAnswer
  not_piped : Errno → PipeAnswer

-- The answers to the two calls of fcntl(2) in `set_non_blocking` or in `set_close_on_exec`.
pub record FcntlAnswers : Type 0 where
  pub get : Option Errno
  pub set : Option Errno

unfoldable pub set_non_blocking : FcntlAnswers → Option Exception
set_non_blocking a = first_failure ((a.get, "fcntl F_GETFL") ∷ (a.set, "fcntl F_SETFL") ∷ [])

unfoldable pub set_close_on_exec : FcntlAnswers → Option Exception
set_close_on_exec a = first_failure ((a.get, "fcntl F_GETFD") ∷ (a.set, "fcntl F_SETFD") ∷ [])

pub record MacAnswers : Type 0 where
  pub kqueue : SocketAnswer
  pub pipe : PipeAnswer
  pub read_non_blocking : FcntlAnswers
  pub write_non_blocking : FcntlAnswers
  pub read_close_on_exec : FcntlAnswers
  pub write_close_on_exec : FcntlAnswers
  pub add_wakeup : Option Errno

-- The first exception of a `try` block.
abbrev first_thrown : List (Option Exception) → Option Exception
first_thrown [] = none
first_thrown (none ∷ rest) = first_thrown rest
first_thrown (some e ∷ rest) = some e

unfoldable pub prepare_pipe : MacAnswers → Option Exception
unfolding set_non_blocking set_close_on_exec
prepare_pipe a = first_thrown (
    set_non_blocking a.read_non_blocking
    ∷ set_non_blocking a.write_non_blocking
    ∷ set_close_on_exec a.read_close_on_exec
    ∷ set_close_on_exec a.write_close_on_exec
    ∷ first_failure ((a.add_wakeup, "kevent wakeup fd") ∷ [])
    ∷ [])

unfoldable pub construct_mac : MacAnswers → Building
unfolding prepare_pipe
construct_mac a = elim a.kqueue [
  | not_opened e ↦ record {
    members = minus_one ∷ minus_one ∷ minus_one ∷ [];
    opened_fds = [];
    closed_fds = [];
    thrown = some (system_error e "kqueue");
  }
  | opened kqueue ↦ elim a.pipe [
    | not_piped e ↦ record {
      members = minus_one ∷ minus_one ∷ minus_one ∷ [];
      opened_fds = kqueue ∷ [];
      closed_fds = kqueue ∷ [];
      thrown = some (system_error e "pipe");
    }
    | piped reading writing ↦ elim (prepare_pipe a) [
      | some e ↦ record {
        members = minus_one ∷ minus_one ∷ minus_one ∷ [];
        opened_fds = reading ∷ writing ∷ kqueue ∷ [];
        closed_fds = reading ∷ writing ∷ [];
        thrown = some e;
      }
      | none ↦ record {
        members = pos reading ∷ pos writing ∷ pos kqueue ∷ [];
        opened_fds = reading ∷ writing ∷ kqueue ∷ [];
        closed_fds = [];
        thrown = none;
      }
    ]
  ]
]

-- What has been opened has been closed once, in the opposite order: by the constructor if it throws,
-- and else by the destructor.
abbrev pub Released : Building → Type 0
Released b = elim b.thrown as (λ x. Type 0) [
  | none ↦ (b.closed_fds ≡ []) × (destroy b.members ≡ b.opened_fds)
  | some e ↦ (b.closed_fds ≡ b.opened_fds) × (destroy b.members ≡ [])
]

-- On Linux, and whatever the calls answer: the descriptors that the constructor has opened are closed
-- once, in the opposite order, by the constructor itself if it throws, and else by the destructor.
pub construct-Released : (a : LinuxAnswers) → Released (construct a)
unfolding construct destroy
construct-Released a = ground arith

-- On macOS, when kqueue(2) and pipe(2) succeed and a call that prepares the pipe fails, the constructor
-- throws with the kqueue descriptor open, which is in no member any more.
pub construct_mac_leak :
    (a : MacAnswers) (kqueue reading writing : ℕ) (e : Exception)
    → a.kqueue ≡ opened kqueue
    → a.pipe ≡ piped reading writing
    → prepare_pipe a ≡ some e
    → let b = construct_mac a in
      (b.thrown ≡ some e) × (b.opened_fds ≡ b.closed_fds ++ destroy b.members ++ kqueue ∷ [])
unfolding construct_mac destroy
construct_mac_leak a kqueue reading writing e got both fails = ground arith
