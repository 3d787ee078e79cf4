-- ===== src/Proxy/Session.antt =====
-- `handle_session` of examples/proxy-server/main.cpp: a connection to the backend, and a relay for each
-- direction on the same two sockets.
use cpp_coroutine_epoll.Common.{
  ℕ, ◌≡◌, refl, Bool, true, some, List, [], ◌∷◌, ◌++◌, if◌then◌else◌, pos, ◌⊎◌, inl, inr, ap, ◌∙◌,
}
use cpp_coroutine_epoll.System.{Exception, einprogress}
use cpp_coroutine_epoll.Socket.Setup.{opened}
use cpp_coroutine_epoll.Socket.Io.{returned, threw, pending}
use cpp_coroutine_epoll.Socket.Handle.{Handle, Log, unset, release, close, nothing_done}
use cpp_coroutine_epoll.Servers.Echo.{
  ClientEnd, closed, printed, escaped, reading, writing, undefined, Echoing, caught,
}
use cpp_coroutine_epoll.Proxy.Connect.{
  ConnectAnswers, Connecting, keeping, after_connect, wait_writable, async_connect_to,
}
use cpp_coroutine_epoll.Proxy.Relay.{
  Turn, Sockets, Direction, upstream, downstream, other, from_of, to_of, tear_down, finish_relay,
  relay, relay_loop,
}

-- What both relays have done: `first` is the one whose end comes first.
pub record Relayed : Type 0 where
  pub first_end : Echoing
  pub second_end : Echoing
  pub sockets : Sockets

-- `late` says that the second relay starts only when the first has ended.
unfoldable pub run_relays : Direction → Bool → (Direction → List Turn) → List ℕ → Sockets → Relayed
unfolding relay
run_relays first late turns buffer s =
    let (e, after_first) = relay first s (turns first) buffer s in
    let (e', after_both) =
      relay (other first) (if late then after_first else s) (turns (other first)) buffer
        after_first in
    record { first_end = e; second_end = e'; sockets = after_both }

-- `lost`: there is no connection to the backend, and the client's socket has been destroyed with the
-- coroutine; the log has what has been closed.
pub data Session : Type 0 where
  connecting : Connecting → Session
  lost : ClientEnd → Log → Session
  relaying : Relayed → Session

abbrev pub looped : ℕ → Handle
looped fd = record { has_loop = true; fd = pos fd }

abbrev pub sockets_of : ℕ → ℕ → Sockets
sockets_of client backend = record {
  client = looped client;
  backend = looped backend;
  log = nothing_done;
}

unfoldable pub handle_session :
    ConnectAnswers → ℕ → Direction → Bool → (Direction → List Turn) → List ℕ → Session
unfolding run_relays async_connect_to close
handle_session a client first late turns buffer =
    let c = async_connect_to a in
    elim c.outcome [
      | pending ↦ connecting c
      | threw e ↦
          lost (caught e) (close (looped client) (record { removed = []; closed = c.closed_fds })).1
      | returned backend ↦ relaying (run_relays first late turns buffer (sockets_of client backend))
    ]

-- A relay that has come to its end behind the `catch`.
abbrev pub Over : ClientEnd → Type 0
Over closed = Unit
Over (printed e) = Unit
Over other_end = ⊥

abbrev pub torn_down : Log → Sockets
torn_down log = record { client = unset; backend = unset; log = log }

-- Both sockets are closed, and each descriptor has been given to ::close once.
abbrev pub ClosedOnce : ℕ → ℕ → Sockets → Type 0
ClosedOnce client backend s =
    (log : Log) × (s ≡ torn_down log)
    × ((log.closed ≡ client ∷ backend ∷ []) ⊎ (log.closed ≡ backend ∷ client ∷ []))

tear_down-ClosedOnce :
    (d : Direction) (client backend : ℕ)
    → ClosedOnce client backend (tear_down d (sockets_of client backend))
unfolding tear_down close release
tear_down-ClosedOnce upstream client backend = (_, refl, inl refl)
tear_down-ClosedOnce downstream client backend = (_, refl, inr refl)

finish_relay-ClosedOnce :
    (d : Direction) (e : ClientEnd) (client backend : ℕ)
    → Over e
    → ClosedOnce client backend (finish_relay d e (sockets_of client backend))
unfolding finish_relay
finish_relay-ClosedOnce d closed client backend h = tear_down-ClosedOnce d client backend
finish_relay-ClosedOnce d (printed e) client backend h = tear_down-ClosedOnce d client backend
finish_relay-ClosedOnce d (escaped e) client backend h = absurd h
finish_relay-ClosedOnce d reading client backend h = absurd h
finish_relay-ClosedOnce d writing client backend h = absurd h
finish_relay-ClosedOnce d undefined client backend h = absurd h

-- On closed sockets the end of a relay does nothing.
finish_relay-torn_down :
    (d : Direction) (e : ClientEnd) (log : Log) → finish_relay d e (torn_down log) ≡ torn_down log
unfolding finish_relay tear_down close
finish_relay-torn_down upstream closed log = refl
finish_relay-torn_down downstream closed log = refl
finish_relay-torn_down upstream (printed e) log = refl
finish_relay-torn_down downstream (printed e) log = refl
finish_relay-torn_down d (escaped e) log = refl
finish_relay-torn_down d reading log = refl
finish_relay-torn_down d writing log = refl
finish_relay-torn_down d undefined log = refl

-- A session that is connected to its backend: as soon as one of its relays has come to its end, both
-- sockets are closed, and each descriptor has been given to ::close exactly once, whichever relay it
-- is, and whatever the other one does then, which may not even have started.
pub handle_session-ClosedOnce :
    (a : ConnectAnswers) (client backend : ℕ) (first : Direction) (late : Bool)
    (turns : Direction → List Turn) (buffer : List ℕ)
    → (async_connect_to a).outcome ≡ returned backend
    → (r : Relayed) × (handle_session a client first late turns buffer ≡ relaying r)
      × (Over r.first_end.end_state → ClosedOnce client backend r.sockets)
unfolding handle_session run_relays relay
handle_session-ClosedOnce a client backend first late turns buffer connected = (
  run_relays first late turns buffer (sockets_of client backend),
  rw (connected, handle_session) refl,
  λ over.
      let s = sockets_of client backend in
      let e = relay_loop (from_of first s) (to_of first s) (turns first) buffer in
      let (log, torn, once) = finish_relay-ClosedOnce first e.end_state client backend over in
      (
        log,
        ap (finish_relay (other first) _) torn ∙ finish_relay-torn_down (other first) _ log,
        once,
      ),
)

-- When a socket for a valid address has been opened, connect(2) goes on in the background, and the wait
-- for it throws, the session ends with the
-- client's descriptor closed, and the new one open.
pub handle_session-leak :
    (a : ConnectAnswers) (client fd : ℕ) (e : Exception) (first : Direction) (late : Bool)
    (turns : Direction → List Turn) (buffer : List ℕ)
    → a.valid_address ≡ true
    → a.socket ≡ opened fd
    → a.connect ≡ some einprogress
    → a.waited ≡ threw e
    → ((async_connect_to a).opened_fds ≡ fd ∷ [])
      × (handle_session a client first late turns buffer
          ≡ lost (caught e) (record { removed = client ∷ []; closed = client ∷ [] }))
unfolding handle_session async_connect_to after_connect wait_writable close release
handle_session-leak a client fd e first late turns buffer valid got progress failed =
    let c : async_connect_to a ≡ keeping fd (threw e) =
      rw (valid, async_connect_to) (rw (got) (rw progress (rw (failed, wait_writable) refl))) in
    (
      ap (λ (x : Connecting). x.opened_fds) c,
      rw (c, handle_session)
          (ap
            (λ fds. lost (caught e) (record { removed = client ∷ []; closed = fds ++ client ∷ [] }))
            (ap (λ (x : Connecting). x.closed_fds) c)),
    )
