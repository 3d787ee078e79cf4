-- ===== src/Tcp/Server.antt =====
-- `TcpServer` of include/coro_epoll/tcp.hpp, built on Linux: `listen`, `async_accept_fd`,
-- `async_accept`, `async_accept_et` and `close`. SOCK_NONBLOCK, SOCK_CLOEXEC, SO_REUSEPORT and
-- MSG_NOSIGNAL are defined there, and SO_NOSIGPIPE is not, so that `disable_sigpipe` does nothing.
use Prim.Native.String.{String}
use cpp_coroutine_epoll.Common.{
  ℕ, Bool, true, Option, none, some, List, [], ◌∷◌, ◌++◌, if◌then◌else◌, pos, negsuc, minus_one,
}
use cpp_coroutine_epoll.System.{Errno, Exception, system_error, runtime_error}
use cpp_coroutine_epoll.Socket.Io.{Outcome, returned, threw, pending}
use cpp_coroutine_epoll.Socket.Setup.{SocketAnswer, opened, not_opened, first_failure}
use cpp_coroutine_epoll.Socket.Handle.{Handle, Log, usable}

-- What the calls of `listen` answer: `none` is success.
pub record SetupAnswers : Type 0 where
  pub socket : SocketAnswer
  pub set_reuse_addr : Option Errno
  pub set_reuse_port : Option Errno
  pub bind : Option Errno
  pub listen : Option Errno

-- `close` of the server: ::close first, then `remove`.
unfoldable pub close : Handle → Log → Handle × Log
close server log = elim server.fd [
  | negsuc n ↦ (server, log)
  | pos fd ↦ (
    record server { fd = minus_one },
    record log { closed = log.closed ++ fd ∷ []; removed = log.removed ++ fd ∷ [] },
  )
]

unfoldable pub setup_calls : Bool → SetupAnswers → List (Option Errno × String)
setup_calls reuse_port a =
    (a.set_reuse_addr, "setsockopt SO_REUSEADDR")
    ∷ (if reuse_port
        then (a.set_reuse_port, "setsockopt SO_REUSEPORT")
          ∷ (a.bind, "bind")
          ∷ (a.listen, "listen")
          ∷ []
        else (a.bind, "bind") ∷ (a.listen, "listen") ∷ [])

-- `listen`: the server afterwards, what has been closed, and what it throws.
unfoldable pub listen : Bool → SetupAnswers → Handle → Log → Handle × Log × Option Exception
unfolding setup_calls
listen reuse_port a server log =
    let (closed_server, log') = close server log in
    elim a.socket [
      | not_opened e ↦
          (record closed_server { fd = minus_one }, log', some (system_error e "socket"))
      | opened fd ↦
          (record closed_server { fd = pos fd }, log', first_failure (setup_calls reuse_port a))
    ]

-- An answer of accept4(2): see `RecvAnswer`.
pub data AcceptAnswer : Type 0 where
  accepted : ℕ → AcceptAnswer
  interrupted : AcceptAnswer
  would_block : Option Exception → AcceptAnswer
  failed : Errno → AcceptAnswer

unfoldable pub accept_loop : List AcceptAnswer → Outcome ℕ
accept_loop [] = pending
accept_loop (accepted fd ∷ answers) = returned fd
accept_loop (interrupted ∷ answers) = accept_loop answers
accept_loop (would_block none ∷ answers) = accept_loop answers
accept_loop (would_block (some e) ∷ answers) = threw e
accept_loop (failed e ∷ answers) = threw (system_error e "accept4")

unfoldable pub async_accept_fd : Handle → List AcceptAnswer → Outcome ℕ
unfolding accept_loop
async_accept_fd server answers =
    if usable server then accept_loop answers else threw (runtime_error "invalid TcpServer")

-- `async_accept` wraps the descriptor: `co_return TcpSocket(*loop_, client_fd)`.
unfoldable pub async_accept : Handle → List AcceptAnswer → Outcome Handle
unfolding async_accept_fd
async_accept server answers = elim (async_accept_fd server answers) [
  | returned fd ↦ returned (record { has_loop = true; fd = pos fd })
  | threw e ↦ threw e
  | pending ↦ pending
]

-- The vector `sockets`, and the loop after the wait of `async_accept_et`. A vector that is destroyed
-- because an exception leaves the coroutine closes its sockets.
pub record Accepting : Type 0 where
  pub outcome : Outcome (List ℕ)
  pub closed : List ℕ

unfoldable pub accept_et_loop : List AcceptAnswer → List ℕ → Accepting
accept_et_loop [] sockets = record { outcome = pending; closed = [] }
accept_et_loop (accepted fd ∷ answers) sockets = accept_et_loop answers (sockets ++ fd ∷ [])
accept_et_loop (interrupted ∷ answers) sockets = accept_et_loop answers sockets
accept_et_loop (would_block w ∷ answers) sockets = record {
  outcome = returned sockets;
  closed = [];
}
accept_et_loop (failed e ∷ answers) sockets = record {
  outcome = threw (system_error e "accept4");
  closed = sockets;
}

-- `waited` is how the `co_await` before the loop ends.
unfoldable pub async_accept_et : Handle → Option Exception → List AcceptAnswer → Accepting
unfolding accept_et_loop
async_accept_et server waited answers =
    if usable server
    then elim waited [
      | none ↦ accept_et_loop answers []
      | some e ↦ record { outcome = threw e; closed = [] }
    ]
    else record { outcome = threw (runtime_error "invalid TcpServer"); closed = [] }
