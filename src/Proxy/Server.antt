-- ===== src/Proxy/Server.antt =====
-- `accept_and_handle` of examples/proxy-server/main.cpp with the sessions that it spawns.
use cpp_coroutine_epoll.Common.{
  ℕ, ◌≡◌, ◌≢◌, refl, ap, ◌∙◌, Bool, true, some, List, [], ◌∷◌, ◌++◌, map, All,
}
use cpp_coroutine_epoll.Socket.Io.{returned}
use cpp_coroutine_epoll.Socket.Handle.{Handle, usable}
use cpp_coroutine_epoll.Tcp.Server.{AcceptAnswer, async_accept_fd}
use cpp_coroutine_epoll.Tcp.Single.{first_accepted}
use cpp_coroutine_epoll.Servers.Accept
use cpp_coroutine_epoll.Servers.Accept.{AcceptEnd}
use cpp_coroutine_epoll.Servers.AcceptAll.{one_each, accept_and_handle_spawns}
use cpp_coroutine_epoll.Proxy.Connect.{ConnectAnswers, async_connect_to}
use cpp_coroutine_epoll.Proxy.Relay.{Turn, Direction}
use cpp_coroutine_epoll.Proxy.Session.{
  Session, Relayed, relaying, handle_session, Over, ClosedOnce, handle_session-ClosedOnce,
}

-- What happens in a session: the connection to the backend, which relay ends first, whether the other
-- starts only then, and the turns of both.
pub record Events : Type 0 where
  pub connect : ConnectAnswers
  pub first : Direction
  pub late : Bool
  pub turns : Direction → List Turn
  pub buffer : List ℕ

-- The sessions by the descriptors of their clients, oldest first, and the accept loop.
pub record Service : Type 0 where
  pub sessions : List (ℕ × Session)
  pub end_state : AcceptEnd

-- The coroutine that is spawned for a connection.
unfoldable pub session_of : (ℕ → Events) → ℕ → Session
session_of events fd =
    let e = events fd in handle_session e.connect fd e.first e.late e.turns e.buffer

unfoldable pub accept_and_handle : Handle → List (List AcceptAnswer) → (ℕ → Events) → Service
unfolding session_of
accept_and_handle server rounds events =
    let accepted = Accept.accept_and_handle server rounds in
    record {
      sessions = map (λ fd. (fd, session_of events fd)) accepted.spawned;
      end_state = accepted.end_state;
    }

-- A session that relays, and closes its two sockets once as soon as one of its relays is over.
abbrev pub Closing : (ℕ → ℕ) → ℕ × Session → Type 0
Closing backend (client, s) =
    (r : Relayed) × (s ≡ relaying r)
    × (Over r.first_end.end_state → ClosedOnce client (backend client) r.sockets)

map-keys :
    (f : ℕ → Session) (fds : List ℕ)
    → map (λ (p : ℕ × Session). p.0) (map (λ fd. (fd, f fd)) fds) ≡ fds
map-keys f [] = refl
map-keys f (fd ∷ fds) = ap (λ rest. fd ∷ rest) (map-keys f fds)

All-map :
    (P : ℕ × Session → Type 0) (f : ℕ → ℕ × Session) (fds : List ℕ)
    → ((fd : ℕ) → P (f fd))
    → All P (map f fds)
All-map P f [] each = tt
All-map P f (fd ∷ fds) each = (each fd, All-map P f fds each)

-- On a usable server whose accept loop has taken a connection in every round but the last, which does
-- not return, when the backend can be reached for each client: each accepted connection, and no other,
-- has a session, in the order of acceptance; and in each of them, as soon as one relay is over,
-- both sockets are closed, and each descriptor has been given to ::close once.
pub accept_and_handle-Closing :
    (server : Handle) (rounds : List (List AcceptAnswer)) (last : List AcceptAnswer)
    (events : ℕ → Events) (backend : ℕ → ℕ)
    → usable server ≡ true
    → All (λ answers. (fd : ℕ) × (first_accepted answers ≡ some fd)) rounds
    → ((fd : ℕ) → async_accept_fd server last ≢ returned fd)
    → ((fd : ℕ) → (async_connect_to (events fd).connect).outcome ≡ returned (backend fd))
    → (map
          (λ (p : ℕ × Session). p.0)
          (accept_and_handle server (rounds ++ last ∷ []) events).sessions
        ≡ one_each rounds)
      × All (Closing backend) (accept_and_handle server (rounds ++ last ∷ []) events).sessions
unfolding accept_and_handle session_of
accept_and_handle-Closing server rounds last events backend ok good open_end connected =
    let spawned = accept_and_handle_spawns server rounds last ok good open_end in
    (
      map-keys (session_of events) _ ∙ spawned,
      All-map (Closing backend) (λ fd. (fd, session_of events fd)) _
          (λ fd.
            let e = events fd in
            handle_session-ClosedOnce e.connect fd (backend fd) e.first e.late e.turns e.buffer
              (connected fd)),
    )
