-- ===== src/Socket/Fcntl.antt =====
-- `set_non_blocking`, `set_close_on_exec` and `disable_sigpipe` of include/coro_epoll/tcp.hpp, as they
-- are built on macOS, where socket(2) and accept(2) take no flags and SO_NOSIGPIPE is defined.
use cpp_coroutine_epoll.Common.{ℕ, ◌≡◌, Bool, true, Option, none, some, bit_or, arith}
use cpp_coroutine_epoll.System.{Errno, Exception, system_error}
use cpp_coroutine_epoll.EventLoop.Setup.{FcntlAnswers}

-- What the kernel keeps of a descriptor: the words of F_GETFL and F_GETFD, and SO_NOSIGPIPE.
pub record Descriptor : Type 0 where
  pub status_flags : ℕ
  pub descriptor_flags : ℕ
  pub no_sigpipe : Bool

-- O_NONBLOCK and FD_CLOEXEC on macOS.
abbrev pub o_nonblock : ℕ
o_nonblock = 4

abbrev pub fd_cloexec : ℕ
fd_cloexec = 1

unfoldable pub set_non_blocking : FcntlAnswers → Descriptor → Option Exception × Descriptor
set_non_blocking a d = elim a.get [
  | some e ↦ (some (system_error e "fcntl F_GETFL"), d)
  | none ↦ elim a.set [
    | some e ↦ (some (system_error e "fcntl F_SETFL"), d)
    | none ↦ (none, record d { status_flags = bit_or d.status_flags o_nonblock })
  ]
]

unfoldable pub set_close_on_exec : FcntlAnswers → Descriptor → Option Exception × Descriptor
set_close_on_exec a d = elim a.get [
  | some e ↦ (some (system_error e "fcntl F_GETFD"), d)
  | none ↦ elim a.set [
    | some e ↦ (some (system_error e "fcntl F_SETFD"), d)
    | none ↦ (none, record d { descriptor_flags = bit_or d.descriptor_flags fd_cloexec })
  ]
]

unfoldable pub disable_sigpipe : Option Errno → Descriptor → Option Exception × Descriptor
disable_sigpipe none d = (none, record d { no_sigpipe = true })
disable_sigpipe (some e) d = (some (system_error e "setsockopt SO_NOSIGPIPE"), d)

-- The answers to the calls that prepare a new descriptor.
pub record PrepareAnswers : Type 0 where
  pub no_sigpipe : Option Errno
  pub non_blocking : FcntlAnswers
  pub close_on_exec : FcntlAnswers

-- `set_non_blocking`, then `set_close_on_exec`.
unfoldable pub set_flags : PrepareAnswers → Descriptor → Option Exception × Descriptor
unfolding set_non_blocking set_close_on_exec
set_flags a d =
    let (thrown, d') = set_non_blocking a.non_blocking d in
    elim thrown [ some e ↦ (some e, d') | none ↦ set_close_on_exec a.close_on_exec d' ]

-- The `try` block behind accept(2).
unfoldable pub prepare : PrepareAnswers → Descriptor → Option Exception × Descriptor
unfolding disable_sigpipe set_flags
prepare a d =
    let (thrown, d') = disable_sigpipe a.no_sigpipe d in
    elim thrown [ some e ↦ (some e, d') | none ↦ set_flags a d' ]

-- A descriptor that does not block, is closed on exec and raises no SIGPIPE, and keeps the other flags
-- of `d`.
abbrev pub prepared : Descriptor → Descriptor
prepared d = record {
  status_flags = bit_or d.status_flags o_nonblock;
  descriptor_flags = bit_or d.descriptor_flags fd_cloexec;
  no_sigpipe = true;
}

pub prepare-prepared :
    (a : PrepareAnswers) (d : Descriptor) → (prepare a d).0 ≡ none → (prepare a d).1 ≡ prepared d
unfolding prepare
prepare-prepared a d fine = ground arith
