-- ===== src/Proxy/Relay.antt =====
-- `relay` of examples/proxy-server/main.cpp: what one socket of a session sends is written to the
-- other, and both are closed at the end.
use cpp_coroutine_epoll.Common.{ℕ, List, [], ◌∷◌, ◌==◌, if◌then◌else◌, take}
use cpp_coroutine_epoll.Socket.Io.{Outcome, returned, threw, pending}
use cpp_coroutine_epoll.Socket.Handle.{Handle, Log, close}
use cpp_coroutine_epoll.Tcp.Read.{RecvAnswer, async_read}
use cpp_coroutine_epoll.Tcp.Write.{SendAnswer, async_write}
use cpp_coroutine_epoll.Servers.Echo.{
  ClientEnd, closed, printed, escaped, reading, writing, undefined, Echoing, ends, caught,
  after_write,
}

-- The kernel's answers in one round of the loop.
pub record Turn : Type 0 where
  pub reads : List RecvAnswer
  pub writes : List SendAnswer

-- A round behind its read, by how that ends.
unfoldable pub after_relay_read : Handle → Outcome ℕ → List ℕ → List SendAnswer → Echoing → Echoing
unfolding after_write
after_relay_read to pending buffer writes rest = ends reading
after_relay_read to (threw e) buffer writes rest = ends (caught e)
after_relay_read to (returned count) buffer writes rest =
    let w = async_write to (take count buffer) writes in
    if count == 0 then ends closed else after_write w.outcome w.wire rest

-- The `try` block.
unfoldable pub relay_loop : Handle → Handle → List Turn → List ℕ → Echoing
unfolding after_relay_read
relay_loop from to [] buffer = ends reading
relay_loop from to (turn ∷ turns) buffer =
    let r = async_read from buffer turn.reads in
    after_relay_read to r.outcome r.buffer turn.writes (relay_loop from to turns r.buffer)

-- The two sockets of a session, which both of its relays refer to, and what has been closed.
pub record Sockets : Type 0 where
  pub client : Handle
  pub backend : Handle
  pub log : Log

pub data Direction : Type 0 where
  upstream downstream : Direction

abbrev pub other : Direction → Direction
other upstream = downstream
other downstream = upstream

-- `from` and `to` of the relay in a direction.
abbrev pub from_of : Direction → Sockets → Handle
from_of upstream s = s.client
from_of downstream s = s.backend

abbrev pub to_of : Direction → Sockets → Handle
to_of upstream s = s.backend
to_of downstream s = s.client

-- `from->close(); to->close();`
unfoldable pub tear_down : Direction → Sockets → Sockets
tear_down upstream s =
    let (client, log) = close s.client s.log in
    let (backend, log') = close s.backend log in
    record { client = client; backend = backend; log = log' }
tear_down downstream s =
    let (backend, log) = close s.backend s.log in
    let (client, log') = close s.client log in
    record { client = client; backend = backend; log = log' }

-- What a relay does behind its `try` block, by how that ends: nothing after an exception that is not a
-- std::exception, nor while it still waits.
unfoldable pub finish_relay : Direction → ClientEnd → Sockets → Sockets
unfolding tear_down
finish_relay d closed s = tear_down d s
finish_relay d (printed e) s = tear_down d s
finish_relay d (escaped e) s = s
finish_relay d reading s = s
finish_relay d writing s = s
finish_relay d undefined s = s

-- A relay, from the sockets that it finds at its start to those that it finds at its end.
unfoldable pub relay : Direction → Sockets → List Turn → List ℕ → Sockets → Echoing × Sockets
unfolding relay_loop finish_relay
relay d at_start turns buffer at_end =
    let e = relay_loop (from_of d at_start) (to_of d at_start) turns buffer in
    (e, finish_relay d e.end_state at_end)
