-- ===== src/Proxy/Tests.antt =====
-- Sessions of the proxy.
use cpp_coroutine_epoll.Common.{
  ℕ, ◌+◌, ◌≢◌, ◌++◌, pos, map, All, ◌≡◌, refl, true, false, none, some, List, [], ◌∷◌, arith,
}
use cpp_coroutine_epoll.System.{einprogress, system_error, other_errno}
use cpp_coroutine_epoll.Socket.Io.{returned, threw}
use cpp_coroutine_epoll.Socket.Setup.{opened}
use cpp_coroutine_epoll.Socket.Handle.{Handle, usable}
use cpp_coroutine_epoll.Tcp.Read.{received, would_block}
use cpp_coroutine_epoll.Tcp.Write.{sent, interrupted}
use cpp_coroutine_epoll.Tcp.Single.{first_received}
use cpp_coroutine_epoll.Servers.Echo.{closed}
use cpp_coroutine_epoll.Proxy.Connect.{
  ConnectAnswers, async_connect_to, after_connect, wait_writable, verify,
}
use cpp_coroutine_epoll.Socket.Fcntl.{Descriptor, PrepareAnswers, prepare, prepared}
use cpp_coroutine_epoll.Proxy.MacConnect.{async_connect_to_mac, async_connect_to_mac-prepared}
use cpp_coroutine_epoll.Proxy.Relay.{Turn, Direction, upstream, downstream, relay, tear_down}
use cpp_coroutine_epoll.Proxy.Session.{Session, sockets_of}
use cpp_coroutine_epoll.Proxy.Copies.{relay_copies}
use cpp_coroutine_epoll.Tcp.Server.{AcceptAnswer, accepted, async_accept_fd, accept_loop}
use cpp_coroutine_epoll.Tcp.Single.{first_accepted}
use cpp_coroutine_epoll.Servers.AcceptAll.{one_each}
use cpp_coroutine_epoll.Proxy.Server.{Events, accept_and_handle, Closing, accept_and_handle-Closing}

-- The connection is made in the background.
abbrev in_progress : ConnectAnswers
in_progress = record {
  host = "127.0.0.1";
  valid_address = true;
  socket = opened 8;
  connect = some einprogress;
  waited = returned tt;
  getsockopt = none;
  so_error = none;
}

abbrev hello : Turn
hello = record {
  reads = would_block none ∷ received (1 ∷ 2 ∷ []) ∷ [];
  writes = sent 1 none ∷ interrupted ∷ sent 1 none ∷ [];
}

abbrev end_of_stream : Turn
end_of_stream = record { reads = would_block none ∷ received [] ∷ []; writes = [] }

-- The client sends two bytes and closes; the backend sends nothing.
abbrev turns : Direction → List Turn
turns upstream = hello ∷ end_of_stream ∷ []
turns downstream = []

abbrev no_bytes : List ℕ
no_bytes = 0 ∷ 0 ∷ 0 ∷ []

connected : (async_connect_to in_progress).outcome ≡ returned 8
unfolding async_connect_to after_connect wait_writable verify
connected = refl

-- A new descriptor on macOS, which blocks and stays open across exec.
abbrev blocking : Descriptor
blocking = record { status_flags = 2; descriptor_flags = 0; no_sigpipe = false }

abbrev prepares : PrepareAnswers
prepares = record {
  no_sigpipe = none;
  non_blocking = record { get = none; set = none };
  close_on_exec = record { get = none; set = none };
}

connected_mac : (async_connect_to_mac in_progress prepares blocking).1 ≡ prepared blocking
unfolding async_connect_to_mac after_connect wait_writable verify prepare
connected_mac = async_connect_to_mac-prepared in_progress prepares blocking 8 refl

-- The event loop has no memory for the wait.
abbrev no_wait : ConnectAnswers
no_wait = record in_progress { waited = threw (system_error (other_errno 12) "epoll_ctl") }

relay_copies_example :
    relay upstream (sockets_of 7 8) (hello ∷ end_of_stream ∷ []) no_bytes (sockets_of 7 8)
    ≡ (record { sent = 1 ∷ 2 ∷ []; end_state = closed }, tear_down upstream (sockets_of 7 8))
unfolding first_received usable
relay_copies_example =
    relay_copies upstream (sockets_of 7 8) (hello ∷ []) end_of_stream no_bytes (sockets_of 7 8) refl
      refl (ground arith) refl

abbrev listening : Handle
listening = record { has_loop = true; fd = pos 3 }

abbrev rounds : List (List AcceptAnswer)
rounds = (accepted 7 ∷ []) ∷ (AcceptAnswer.interrupted ∷ accepted 9 ∷ []) ∷ []

-- Each client gets a connection of its own to the backend.
abbrev same_events : ℕ → Events
same_events fd = record {
  connect = record in_progress { socket = opened (fd + 1) };
  first = upstream;
  late = true;
  turns = turns;
  buffer = no_bytes;
}

rounds_accept : All (λ answers. (fd : ℕ) × (first_accepted answers ≡ some fd)) rounds
unfolding first_accepted
rounds_accept = ((7, refl), ((9, refl), tt))

none_pending :
    (fd : ℕ) → async_accept_fd listening (AcceptAnswer.would_block none ∷ []) ≢ returned fd
unfolding async_accept_fd accept_loop usable
none_pending fd e = cc

each_connected : (fd : ℕ) → (async_connect_to (same_events fd).connect).outcome ≡ returned (fd + 1)
unfolding async_connect_to after_connect wait_writable verify
each_connected fd = refl

accept_and_handle-Closing_example :
    (map
        (λ (p : ℕ × Session). p.0)
        (accept_and_handle listening
          (rounds ++ (AcceptAnswer.would_block none ∷ []) ∷ [])
          same_events).sessions
      ≡ one_each rounds)
    × All
        (Closing (λ fd. fd + 1))
        (accept_and_handle listening
          (rounds ++ (AcceptAnswer.would_block none ∷ []) ∷ [])
          same_events).sessions
unfolding usable
accept_and_handle-Closing_example =
    accept_and_handle-Closing listening rounds (AcceptAnswer.would_block none ∷ []) same_events
      (λ fd. fd + 1) refl rounds_accept none_pending each_connected
