-- ===== src/Socket/Setup.antt =====
-- The calls that set up a listening or a bound socket (include/coro_epoll/tcp.hpp, udp.hpp).
use Prim.Native.String.{String}
use cpp_coroutine_epoll.Common.{ℕ, Option, none, some, List, [], ◌∷◌}
use cpp_coroutine_epoll.System.{Errno, Exception, system_error}

-- A descriptor from socket(2), or its errno.
pub data SocketAnswer : Type 0 where
  opened : ℕ → SocketAnswer
  not_opened : Errno → SocketAnswer

-- The calls that follow, each with the text of its exception; the first that fails ends the sequence.
abbrev pub first_failure : List (Option Errno × String) → Option Exception
first_failure [] = none
first_failure ((none, what) ∷ calls) = first_failure calls
first_failure ((some e, what) ∷ calls) = some (system_error e what)
