-- ===== src/System.antt =====
-- What the operating system and the C++ runtime hand to the program: errno values, the flags of
-- <sys/epoll.h>, exceptions, and the epoll instance itself, which is an interface with the laws of
-- epoll_ctl(2) and close(2) that the event loop relies on.
use Prim.Native.String.{String}
use cpp_coroutine_epoll.Common.{
  ℕ, ◌≡◌, ◌≢◌, Bool, true, false, not, Option, none, some, bit_and, ◌==◌,
}

-- The errno values that the sources name; EAGAIN is EWOULDBLOCK on Linux.
pub data Errno : Type 0 where
  eintr eagain ebadf enoent einprogress : Errno
  other_errno : ℕ → Errno

-- What may be thrown. `unknown_exception` is anything not derived from std::exception.
pub data Exception : Type 0 where
  system_error : Errno → String → Exception
  invalid_argument runtime_error : String → Exception
  unknown_exception : ℕ → Exception

-- `catch (const std::exception&)` catches it.
abbrev pub is_std : Exception → Bool
is_std (unknown_exception n) = false
is_std e = true

abbrev pub epollin : ℕ
epollin = 0x001

abbrev pub epollout : ℕ
epollout = 0x004

abbrev pub epollerr : ℕ
epollerr = 0x008

abbrev pub epollhup : ℕ
epollhup = 0x010

abbrev pub epollrdhup : ℕ
epollrdhup = 0x2000

abbrev pub epollet : ℕ
epollet = 0x80000000

-- `(events & flags) != 0`
abbrev pub has : ℕ → ℕ → Bool
has events flags = not (bit_and events flags == 0)

pub data CtlOp : Type 0 where
  ctl_add ctl_mod ctl_del : CtlOp

-- The flag is watched for a descriptor whose registration is `i`.
abbrev pub watches : Option ℕ → ℕ → Bool
watches none flag = false
watches (some mask) flag = has mask flag

-- An epoll instance. `ctl` answers `none` for 0 and `some e` for -1 with errno `e`.
pub record Epoll : Type 1 where
  pub Kernel : Type 0
  pub interest : Kernel → ℕ → Option ℕ
  pub ctl : CtlOp → ℕ → ℕ → Kernel → Option Errno × Kernel
  pub close : ℕ → Kernel → Kernel
  -- A successful ADD or MOD leaves the given mask, a successful DEL nothing.
  pub add_sets :
      (fd mask : ℕ) (k : Kernel)
      → (ctl ctl_add fd mask k).0 ≡ none
      → interest (ctl ctl_add fd mask k).1 fd ≡ some mask
  pub mod_sets :
      (fd mask : ℕ) (k : Kernel)
      → (ctl ctl_mod fd mask k).0 ≡ none
      → interest (ctl ctl_mod fd mask k).1 fd ≡ some mask
  -- A failing call changes no registration, and no call changes that of another descriptor.
  pub failed_keeps :
      (op : CtlOp) (fd mask : ℕ) (k : Kernel) (e : Errno) (j : ℕ)
      → (ctl op fd mask k).0 ≡ some e
      → interest (ctl op fd mask k).1 j ≡ interest k j
  pub elsewhere :
      (op : CtlOp) (fd mask : ℕ) (k : Kernel) (j : ℕ)
      → fd ≢ j
      → interest (ctl op fd mask k).1 j ≡ interest k j
  -- Closing a descriptor leaves the registrations of the others alone.
  pub close_elsewhere :
      (fd : ℕ) (k : Kernel) (j : ℕ) → fd ≢ j → interest (close fd k) j ≡ interest k j
