-- ===== src/Servers/AcceptAll.antt =====
-- Which connections the accept loops of the servers (examples/*/main.cpp) give to coroutines.
use cpp_coroutine_epoll.Common.{
  ℕ, ◌≡◌, ◌≢◌, refl, ap, true, Option, none, some, List, [], ◌∷◌, ◌++◌, All,
}
use cpp_coroutine_epoll.System.{Exception}
use cpp_coroutine_epoll.Socket.Io.{Outcome, returned, threw, pending}
use cpp_coroutine_epoll.Socket.Handle.{Handle, usable}
use cpp_coroutine_epoll.Tcp.Server.{AcceptAnswer, async_accept_fd, async_accept_et}
use cpp_coroutine_epoll.Tcp.Accepted.{connections, async_accept_et-Accounted}
use cpp_coroutine_epoll.Tcp.Single.{first_accepted, async_accept_fd_first}
use cpp_coroutine_epoll.Servers.Accept.{
  Serving, accept_caught, after_accept, accept_and_handle, after_accept_et, accept_and_handle_et,
}

-- The connections that a list of rounds brings, one each.
abbrev pub one_each : List (List AcceptAnswer) → List ℕ
one_each [] = []
one_each (answers ∷ rounds) = elim (first_accepted answers) [
  | none ↦ one_each rounds
  | some fd ↦ fd ∷ one_each rounds
]

-- The connections of a list of drains.
abbrev pub drained_connections : List (Option Exception × List AcceptAnswer) → List ℕ
drained_connections [] = []
drained_connections ((waited, answers) ∷ rounds) = connections answers ++ drained_connections rounds

-- On a usable server, when `async_accept_fd` throws in a round after others in which accept4(2) has
-- brought a connection: a coroutine has been spawned for each of those connections, in order, and the
-- accept loop has stopped its event loop, or passes on what is not a std::exception.
pub accept_and_handle_serves :
    (server : Handle) (rounds : List (List AcceptAnswer)) (last : List AcceptAnswer) (e : Exception)
    → usable server ≡ true
    → All (λ answers. (fd : ℕ) × (first_accepted answers ≡ some fd)) rounds
    → async_accept_fd server last ≡ threw e
    → accept_and_handle server (rounds ++ last ∷ [])
      ≡ record { spawned = one_each rounds; closed = []; end_state = accept_caught e }
unfolding accept_and_handle after_accept
accept_and_handle_serves server [] last e ok good fails = rw (fails, accept_and_handle) refl
accept_and_handle_serves server (answers ∷ rounds) last e ok ((fd, got), good) fails =
    rw (async_accept_fd_first server fd answers ok got, accept_and_handle)
      (rw (got, one_each)
        (ap (λ (rest : Serving). record rest { spawned = fd ∷ rest.spawned })
          (accept_and_handle_serves server rounds last e ok good fails)))

-- A round that does not return spawns nothing, whatever would follow.
after_accept-spawned :
    (o : Outcome ℕ) (rest : Serving)
    → ((fd : ℕ) → o ≢ returned fd)
    → (after_accept o rest).spawned ≡ []
unfolding after_accept
after_accept-spawned (returned fd) rest h = absurd (h fd refl)
after_accept-spawned (threw e) rest h = refl
after_accept-spawned pending rest h = refl

-- On a usable server whose accept loop has taken a connection in every round but the last, which does
-- not return: a coroutine has been spawned for each of those connections, in order, and no other.
pub accept_and_handle_spawns :
    (server : Handle) (rounds : List (List AcceptAnswer)) (last : List AcceptAnswer)
    → usable server ≡ true
    → All (λ answers. (fd : ℕ) × (first_accepted answers ≡ some fd)) rounds
    → ((fd : ℕ) → async_accept_fd server last ≢ returned fd)
    → (accept_and_handle server (rounds ++ last ∷ [])).spawned ≡ one_each rounds
unfolding accept_and_handle after_accept
accept_and_handle_spawns server [] last ok good open_end =
    after_accept-spawned (async_accept_fd server last) _ open_end
accept_and_handle_spawns server (answers ∷ rounds) last ok ((fd, got), good) open_end =
    rw (async_accept_fd_first server fd answers ok got, accept_and_handle)
      (rw (got, one_each)
        (ap (λ rest. fd ∷ rest) (accept_and_handle_spawns server rounds last ok good open_end)))

-- On a usable server, when `async_accept_et` throws after accept4(2) has failed, in a drain behind
-- others that have come to an end: the connections of the earlier drains have all got a coroutine, in
-- order; those of the last one have all been closed, and none is lost.
pub accept_and_handle_et_serves :
    (server : Handle) (rounds : List (Option Exception × List AcceptAnswer))
    (last : List AcceptAnswer) (e : Exception)
    → usable server ≡ true
    → All
        (λ r.
          (r.0 ≡ none)
          × ((fds : List ℕ) × ((async_accept_et server none r.1).outcome ≡ returned fds)))
        rounds
    → (async_accept_et server none last).outcome ≡ threw e
    → accept_and_handle_et server (rounds ++ (none, last) ∷ []) ≡ record {
      spawned = drained_connections rounds;
      closed = connections last;
      end_state = accept_caught e;
    }
unfolding accept_and_handle_et after_accept_et
accept_and_handle_et_serves server [] last e ok good fails =
    let lost = rw fails at (async_accept_et-Accounted server last ok) in
    rw (fails, after_accept_et, lost) refl
accept_and_handle_et_serves server ((waited, answers) ∷ rounds) last e ok
      ((ready, (fds, got)), good) fails =
    let (same, none_lost) = rw got at (async_accept_et-Accounted server answers ok) in
    rw (ready, got, after_accept_et, same)
      (ap (λ (rest : Serving). record rest { spawned = connections answers ++ rest.spawned })
        (accept_and_handle_et_serves server rounds last e ok good fails))
