-- ===== src/Udp/Bind.antt =====
-- `UdpSocket::bind` of include/coro_epoll/udp.hpp, built on Linux.
use Prim.Native.String.{String}
use cpp_coroutine_epoll.Common.{
  ℕ, ◌≡◌, refl, Bool, Option, none, some, List, [], ◌∷◌, ◌++◌, if◌then◌else◌, pos, minus_one, arith,
  Option-cases, inl, inr,
}
use cpp_coroutine_epoll.System.{Errno, Exception, system_error}
use cpp_coroutine_epoll.Socket.Handle.{Handle, Log, close_udp}
use cpp_coroutine_epoll.Socket.Setup.{SocketAnswer, opened, not_opened, first_failure}

pub record BindAnswers : Type 0 where
  pub socket : SocketAnswer
  pub set_reuse_addr : Option Errno
  pub set_reuse_port : Option Errno
  pub bind : Option Errno

unfoldable pub bind_calls : Bool → BindAnswers → List (Option Errno × String)
bind_calls reuse_port a =
    (a.set_reuse_addr, "setsockopt SO_REUSEADDR")
    ∷ (if reuse_port
        then (a.set_reuse_port, "setsockopt SO_REUSEPORT") ∷ (a.bind, "bind") ∷ []
        else (a.bind, "bind") ∷ [])

-- `bind`: the socket afterwards, what has been closed, and what it throws. The handler of the `try`
-- closes the new descriptor.
unfoldable pub bind : Bool → BindAnswers → Handle → Log → Handle × Log × Option Exception
unfolding bind_calls
bind reuse_port a socket log =
    let (closed_socket, log') = close_udp socket log in
    elim a.socket [
      | not_opened e ↦
          (record closed_socket { fd = minus_one }, log', some (system_error e "socket"))
      | opened fd ↦ elim (first_failure (bind_calls reuse_port a)) [
        | none ↦ (record closed_socket { fd = pos fd }, log', none)
        | some e ↦ (
          record closed_socket { fd = minus_one },
          record log' { closed = log'.closed ++ fd ∷ [] },
          some e,
        )
      ]
    ]

-- What `bind` leaves behind of a descriptor that it got, by what it throws: the socket and the log,
-- against those before.
abbrev pub Settled : Option Exception → ℕ → Handle × Log → Log → Type 0
Settled none fd after before = (after.0.fd ≡ pos fd) × (after.1 ≡ before)
Settled (some e) fd after before =
    (after.0.fd ≡ minus_one)
    × (after.1.closed ≡ before.closed ++ fd ∷ [])
    × (after.1.removed ≡ before.removed)

-- On a socket that has none yet, `bind` either returns with the new descriptor in place and nothing
-- closed, or throws and leaves the socket without one: then what it opened has been closed, just
-- once, and nothing else. The pointer to the loop stays, so that `bind` may be called again.
pub bind_all_or_nothing :
    (reuse_port : Bool) (a : BindAnswers) (socket : Handle) (log : Log) (fd : ℕ)
    → socket.fd ≡ minus_one
    → a.socket ≡ opened fd
    → (let r = bind reuse_port a socket log in
        (r.0.has_loop ≡ socket.has_loop) × Settled r.2 fd (r.0, r.1) log)
unfolding bind close_udp
bind_all_or_nothing reuse_port a socket log fd no_fd got =
    elim (Option-cases (first_failure (bind_calls reuse_port a))) [
      | inl fine ↦
          let eq : bind reuse_port a socket log ≡ (record socket { fd = pos fd }, log, none) =
            ground arith in
          rw eq (refl, (refl, refl))
      | inr (e, fails) ↦
          let failed : bind reuse_port a socket log ≡ (
            record socket { fd = minus_one },
            record log { closed = log.closed ++ fd ∷ [] },
            some e,
          ) =
            ground arith in
          rw failed (refl, (refl, refl, refl))
    ]
