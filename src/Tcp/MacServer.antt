-- ===== src/Tcp/MacServer.antt =====
-- `TcpServer` of include/coro_epoll/tcp.hpp, as it is built on macOS: `listen`, `async_accept_fd` and
-- `async_accept_et`.
use cpp_coroutine_epoll.Common.{
  ℕ, Bool, Option, none, some, List, [], ◌∷◌, ◌++◌, if◌then◌else◌, pos, minus_one, map,
}
use cpp_coroutine_epoll.System.{Errno, Exception, system_error, runtime_error}
use cpp_coroutine_epoll.Socket.Io.{Outcome, returned, threw, pending}
use cpp_coroutine_epoll.Socket.Setup.{opened, not_opened, first_failure}
use cpp_coroutine_epoll.Socket.Handle.{Handle, Log, usable}
use cpp_coroutine_epoll.Socket.Fcntl.{
  Descriptor, PrepareAnswers, disable_sigpipe, set_flags, prepare,
}
use cpp_coroutine_epoll.Tcp.Server.{SetupAnswers, close, setup_calls}

-- What `listen` does behind socket(2), which has answered with `fd`. `disable_sigpipe` is outside the
-- `try` block, as are the calls of `setup_calls`.
unfoldable pub set_up_mac :
    ℕ
    → Bool
    → SetupAnswers
    → PrepareAnswers
    → Descriptor
    → Handle
    → Log
    → Handle × Log × Option Exception
unfolding setup_calls
set_up_mac fd reuse_port a p d server log =
    let (sigpipe, d') = disable_sigpipe p.no_sigpipe d in
    elim sigpipe [
      | some e ↦ (record server { fd = pos fd }, log, some e)
      | none ↦ elim (set_flags p d').0 [
        | some e ↦ (
          record server { fd = minus_one },
          record log { closed = log.closed ++ fd ∷ [] },
          some e,
        )
        | none ↦ (record server { fd = pos fd }, log, first_failure (setup_calls reuse_port a))
      ]
    ]

unfoldable pub listen_mac :
    Bool
    → SetupAnswers
    → PrepareAnswers
    → Descriptor
    → Handle
    → Log
    → Handle × Log × Option Exception
unfolding set_up_mac
listen_mac reuse_port a p d server log =
    let (closed_server, log') = close server log in
    elim a.socket [
      | not_opened e ↦
          (record closed_server { fd = minus_one }, log', some (system_error e "socket"))
      | opened fd ↦ set_up_mac fd reuse_port a p d closed_server log'
    ]

-- An answer of accept(2), with what the calls behind it answer.
pub data AcceptAnswer : Type 0 where
  accepted : ℕ → Descriptor → PrepareAnswers → AcceptAnswer
  interrupted : AcceptAnswer
  would_block : Option Exception → AcceptAnswer
  failed : Errno → AcceptAnswer

-- A coroutine's result, and the descriptors that it has closed, oldest first.
pub record Accepting (A : Type 0) : Type 0 where
  pub outcome : Outcome A
  pub closed : List ℕ

unfoldable pub accept_loop_mac : List AcceptAnswer → Accepting (ℕ × Descriptor)
accept_loop_mac [] = record { outcome = pending; closed = [] }
accept_loop_mac (accepted fd d a ∷ answers) =
    let (thrown, d') = prepare a d in
    elim thrown [
      | some e ↦ record { outcome = threw e; closed = fd ∷ [] }
      | none ↦ record { outcome = returned (fd, d'); closed = [] }
    ]
accept_loop_mac (interrupted ∷ answers) = accept_loop_mac answers
accept_loop_mac (would_block none ∷ answers) = accept_loop_mac answers
accept_loop_mac (would_block (some e) ∷ answers) = record { outcome = threw e; closed = [] }
accept_loop_mac (failed e ∷ answers) = record {
  outcome = threw (system_error e "accept");
  closed = [];
}

unfoldable pub async_accept_fd_mac : Handle → List AcceptAnswer → Accepting (ℕ × Descriptor)
unfolding accept_loop_mac
async_accept_fd_mac server answers =
    if usable server
    then accept_loop_mac answers
    else record { outcome = threw (runtime_error "invalid TcpServer"); closed = [] }

abbrev pub fds_of : List (ℕ × Descriptor) → List ℕ
fds_of = map (λ (s : ℕ × Descriptor). s.0)

-- A preparation that throws closes its own descriptor, and then the vector is destroyed.
unfoldable pub accept_et_loop_mac :
    List AcceptAnswer → List (ℕ × Descriptor) → Accepting (List (ℕ × Descriptor))
accept_et_loop_mac [] sockets = record { outcome = pending; closed = [] }
accept_et_loop_mac (accepted fd d a ∷ answers) sockets =
    let (thrown, d') = prepare a d in
    let rest = accept_et_loop_mac answers (sockets ++ (fd, d') ∷ []) in
    elim thrown [
      | some e ↦ record { outcome = threw e; closed = fd ∷ fds_of sockets }
      | none ↦ rest
    ]
accept_et_loop_mac (interrupted ∷ answers) sockets = accept_et_loop_mac answers sockets
accept_et_loop_mac (would_block w ∷ answers) sockets = record {
  outcome = returned sockets;
  closed = [];
}
accept_et_loop_mac (failed e ∷ answers) sockets = record {
  outcome = threw (system_error e "accept");
  closed = fds_of sockets;
}

-- `waited` is how the `co_await` before the loop ends.
unfoldable pub async_accept_et_mac :
    Handle → Option Exception → List AcceptAnswer → Accepting (List (ℕ × Descriptor))
unfolding accept_et_loop_mac
async_accept_et_mac server waited answers =
    if usable server
    then elim waited [
      | none ↦ accept_et_loop_mac answers []
      | some e ↦ record { outcome = threw e; closed = [] }
    ]
    else record { outcome = threw (runtime_error "invalid TcpServer"); closed = [] }
