-- ===== src/Tcp/Accepted.antt =====
-- What the accept loops of `TcpServer` (include/coro_epoll/tcp.hpp) do with accepted connections.
use cpp_coroutine_epoll.Common.{
  ℕ, ◌≡◌, refl, sym, Bool, true, none, some, List, [], ◌∷◌, ◌++◌, append_assoc, append-nil, arith,
  pos, negsuc,
}
use cpp_coroutine_epoll.System.{Exception}
use cpp_coroutine_epoll.Socket.Io.{Outcome, returned, threw, pending}
use cpp_coroutine_epoll.Socket.Setup.{opened, first_failure}
use cpp_coroutine_epoll.Socket.Handle.{Handle, Log, usable}
use cpp_coroutine_epoll.Tcp.Server.{
  SetupAnswers, AcceptAnswer, accepted, interrupted, would_block, failed, accept_et_loop,
  async_accept_et, listen, setup_calls, close,
}

-- The connections that the kernel hands over until it has no more, or reports an error.
unfoldable pub connections : List AcceptAnswer → List ℕ
connections [] = []
connections (accepted fd ∷ answers) = fd ∷ connections answers
connections (interrupted ∷ answers) = connections answers
connections (would_block w ∷ answers) = []
connections (failed e ∷ answers) = []

-- Where every accepted connection is when the coroutine has ended: in the result, or closed.
abbrev pub Accounted : List ℕ → Outcome (List ℕ) → List ℕ → Type 0
Accounted fds (returned sockets) closed = (sockets ≡ fds) × (closed ≡ [])
Accounted fds (threw e) closed = closed ≡ fds
Accounted fds pending closed = closed ≡ []

accept_et_loop-Accounted :
    (answers : List AcceptAnswer) (sockets : List ℕ)
    → Accounted
        (sockets ++ connections answers)
        (accept_et_loop answers sockets).outcome
        (accept_et_loop answers sockets).closed
unfolding accept_et_loop connections
accept_et_loop-Accounted [] sockets = refl
accept_et_loop-Accounted (accepted fd ∷ answers) sockets =
    let regroup : (sockets ++ fd ∷ []) ++ connections answers
        ≡ sockets ++ fd ∷ connections answers =
      append_assoc sockets (fd ∷ []) (connections answers) in
    rw regroup at (accept_et_loop-Accounted answers (sockets ++ fd ∷ []))
accept_et_loop-Accounted (interrupted ∷ answers) sockets = accept_et_loop-Accounted answers sockets
accept_et_loop-Accounted (would_block w ∷ answers) sockets = (sym (append-nil sockets), refl)
accept_et_loop-Accounted (failed x ∷ answers) sockets = sym (append-nil sockets)

-- A usable server whose wait has ended loses no connection: `async_accept_et` returns all those that
-- the kernel handed over in this drain, in order, and closes none; when it throws after an error of
-- accept4(2), it has closed them all.
pub async_accept_et-Accounted :
    (server : Handle) (answers : List AcceptAnswer)
    → usable server ≡ true
    → Accounted
        (connections answers)
        (async_accept_et server none answers).outcome
        (async_accept_et server none answers).closed
unfolding async_accept_et
async_accept_et-Accounted server answers ok = rw ok (accept_et_loop-Accounted answers [])

-- On a server that has a loop and no descriptor yet: when socket(2) succeeds and a call after it
-- fails, `listen` throws that error and leaves the server with the new descriptor, which nothing
-- has closed, and `ensure_valid` accepts the server.
pub listen_failed :
    (reuse_port : Bool) (a : SetupAnswers) (server : Handle) (log : Log) (fd : ℕ) (e : Exception)
    → server.fd ≡ negsuc 0
    → server.has_loop ≡ true
    → a.socket ≡ opened fd
    → first_failure (setup_calls reuse_port a) ≡ some e
    → (let r = listen reuse_port a server log in
        (r.2 ≡ some e) × (r.0.fd ≡ pos fd) × (usable r.0 ≡ true) × (r.1 ≡ log))
unfolding listen usable close
listen_failed reuse_port a server log fd e unset_fd looped got failure = ground arith
