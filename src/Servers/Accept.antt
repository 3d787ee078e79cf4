-- ===== src/Servers/Accept.antt =====
-- `accept_and_handle` of examples/tcp-echo-server/main.cpp, tcp-echo-server-et/main.cpp,
-- http-server/main.cpp and proxy-server/main.cpp: each connection is given to a coroutine of its own.
use cpp_coroutine_epoll.Common.{ℕ, Option, List, [], ◌∷◌, ◌++◌, if◌then◌else◌}
use cpp_coroutine_epoll.System.{Exception, is_std}
use cpp_coroutine_epoll.Socket.Io.{Outcome, returned, threw, pending}
use cpp_coroutine_epoll.Socket.Handle.{Handle}
use cpp_coroutine_epoll.Tcp.Server.{AcceptAnswer, Accepting, async_accept_fd, async_accept_et}

-- How the coroutine stands: it waits for a connection; or it has printed the text of an exception and
-- stopped the event loop; or an exception has left it.
pub data AcceptEnd : Type 0 where
  accepting : AcceptEnd
  stopped escaped : Exception → AcceptEnd

-- The descriptors whose coroutines have been spawned, and those of sockets that have been destroyed
-- before that, oldest first.
pub record Serving : Type 0 where
  pub spawned : List ℕ
  pub closed : List ℕ
  pub end_state : AcceptEnd

abbrev pub accept_caught : Exception → AcceptEnd
accept_caught e = if is_std e then stopped e else escaped e

-- A round of the loop on `async_accept_fd`, by how that ends.
unfoldable pub after_accept : Outcome ℕ → Serving → Serving
after_accept pending rest = record { spawned = []; closed = []; end_state = accepting }
after_accept (threw e) rest = record { spawned = []; closed = []; end_state = accept_caught e }
after_accept (returned fd) rest = record rest { spawned = fd ∷ rest.spawned }

-- The level-triggered servers: a list of answers of accept4(2) for each round.
unfoldable pub accept_and_handle : Handle → List (List AcceptAnswer) → Serving
unfolding after_accept
accept_and_handle server [] = record { spawned = []; closed = []; end_state = accepting }
accept_and_handle server (answers ∷ rounds) =
    after_accept (async_accept_fd server answers) (accept_and_handle server rounds)

unfoldable pub after_accept_et : Accepting → Serving → Serving
after_accept_et a rest = elim a.outcome [
  | pending ↦ record { spawned = []; closed = a.closed; end_state = accepting }
  | threw e ↦ record { spawned = []; closed = a.closed; end_state = accept_caught e }
  | returned sockets ↦ record rest { spawned = sockets ++ rest.spawned }
]

-- The edge-triggered one: for each round also how the wait of `async_accept_et` ends.
unfoldable pub accept_and_handle_et : Handle → List (Option Exception × List AcceptAnswer) → Serving
unfolding after_accept_et
accept_and_handle_et server [] = record { spawned = []; closed = []; end_state = accepting }
accept_and_handle_et server ((waited, answers) ∷ rounds) =
    after_accept_et (async_accept_et server waited answers) (accept_and_handle_et server rounds)
