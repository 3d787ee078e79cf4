-- ===== src/Udp/MacBind.antt =====
-- `UdpSocket::bind` of include/coro_epoll/udp.hpp, as it is built on macOS, with `set_non_blocking` and
-- `set_close_on_exec`.
use Prim.Native.String.{String}
use cpp_coroutine_epoll.Common.{
  ℕ, ◌≡◌, refl, Bool, Option, none, some, List, [], ◌∷◌, ◌++◌, pos, minus_one, arith, Option-cases,
  inl, inr,
}
use cpp_coroutine_epoll.System.{Errno, Exception, system_error}
use cpp_coroutine_epoll.EventLoop.Setup.{FcntlAnswers}
use cpp_coroutine_epoll.Socket.Handle.{Handle, Log, close_udp}
use cpp_coroutine_epoll.Socket.Setup.{opened, not_opened, first_failure}
use cpp_coroutine_epoll.Udp.Bind.{BindAnswers, bind_calls, Settled}

abbrev pub set_non_blocking : FcntlAnswers → List (Option Errno × String)
set_non_blocking a = (a.get, "fcntl F_GETFL") ∷ (a.set, "fcntl F_SETFL") ∷ []

abbrev pub set_close_on_exec : FcntlAnswers → List (Option Errno × String)
set_close_on_exec a = (a.get, "fcntl F_GETFD") ∷ (a.set, "fcntl F_SETFD") ∷ []

-- The calls of the `try` block.
unfoldable pub bind_calls_mac :
    Bool → FcntlAnswers → FcntlAnswers → BindAnswers → List (Option Errno × String)
bind_calls_mac reuse_port non_blocking close_on_exec a =
    set_non_blocking non_blocking ++ set_close_on_exec close_on_exec ++ bind_calls reuse_port a

unfoldable pub bind_mac :
    Bool
    → FcntlAnswers
    → FcntlAnswers
    → BindAnswers
    → Handle
    → Log
    → Handle × Log × Option Exception
unfolding bind_calls_mac
bind_mac reuse_port non_blocking close_on_exec a socket log =
    let (closed_socket, log') = close_udp socket log in
    elim a.socket [
      | not_opened e ↦
          (record closed_socket { fd = minus_one }, log', some (system_error e "socket"))
      | opened fd ↦ elim (first_failure (bind_calls_mac reuse_port non_blocking close_on_exec a)) [
        | none ↦ (record closed_socket { fd = pos fd }, log', none)
        | some e ↦ (
          record closed_socket { fd = minus_one },
          record log' { closed = log'.closed ++ fd ∷ [] },
          some e,
        )
      ]
    ]

-- On macOS too, on a socket that has no descriptor yet: `bind` returns with the new descriptor in place
-- and nothing closed, or throws and leaves the socket without one, and has closed what it opened once.
pub bind_mac_all_or_nothing :
    (reuse_port : Bool) (non_blocking close_on_exec : FcntlAnswers) (a : BindAnswers)
    (socket : Handle) (log : Log) (fd : ℕ)
    → socket.fd ≡ minus_one
    → a.socket ≡ opened fd
    → (let r = bind_mac reuse_port non_blocking close_on_exec a socket log in
        (r.0.has_loop ≡ socket.has_loop) × Settled r.2 fd (r.0, r.1) log)
unfolding bind_mac close_udp
bind_mac_all_or_nothing reuse_port non_blocking close_on_exec a socket log fd no_fd got =
    elim (Option-cases (first_failure (bind_calls_mac reuse_port non_blocking close_on_exec a))) [
      | inl fine ↦
          let eq : bind_mac reuse_port non_blocking close_on_exec a socket log
              ≡ (record socket { fd = pos fd }, log, none) =
            ground arith in
          rw eq (refl, (refl, refl))
      | inr (e, fails) ↦
          let failed : bind_mac reuse_port non_blocking close_on_exec a socket log ≡ (
            record socket { fd = minus_one },
            record log { closed = log.closed ++ fd ∷ [] },
            some e,
          ) =
            ground arith in
          rw failed (refl, (refl, refl, refl))
    ]
