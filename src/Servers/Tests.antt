-- ===== src/Servers/Tests.antt =====
-- Runs of the example servers.
use cpp_coroutine_epoll.Common.{ℕ, ◌≡◌, refl, true, none, List, [], ◌∷◌, ◌++◌, pos, arith}
use cpp_coroutine_epoll.System.{ebadf}
use cpp_coroutine_epoll.Socket.Handle.{Handle, usable}
use cpp_coroutine_epoll.Tcp.Read.{received, would_block}
use cpp_coroutine_epoll.Tcp.Write.{sent, interrupted, failed}
use cpp_coroutine_epoll.Tcp.Drain.{drained}
use cpp_coroutine_epoll.Tcp.Single.{first_received}
use cpp_coroutine_epoll.Servers.Echo.{Round, reading, handle_client, handle_client_et}
use cpp_coroutine_epoll.Udp.Endpoint.{UdpEndpoint}
use cpp_coroutine_epoll.Udp.Datagrams.{SendToAnswer, datagram}
use cpp_coroutine_epoll.Udp.Batch.{Datagram, burst}
use cpp_coroutine_epoll.Servers.Datagrams.{
  DatagramRound, receiving, udp_echo_loop, udp_echo_et_loop,
}
use cpp_coroutine_epoll.Servers.Replies.{
  received_by, udp_echo_loop-RepliesTo, udp_echo_et_loop-burst,
}
use cpp_coroutine_epoll.Servers.EchoAll.{handle_client-IsPrefix, handle_client_et-echo}

abbrev socket : Handle
socket = record { has_loop = true; fd = pos 5 }

abbrev hello : Round
hello = record {
  reads = would_block none ∷ received (1 ∷ 2 ∷ []) ∷ received (3 ∷ []) ∷ would_block none ∷ [];
  refused = none;
  writes = sent 1 none ∷ interrupted ∷ sent 1 none ∷ sent 1 none ∷ [];
}

-- The peer is gone after one byte.
abbrev broken : Round
broken = record {
  reads = received (4 ∷ 5 ∷ []) ∷ would_block none ∷ [];
  refused = none;
  writes = sent 1 none ∷ failed ebadf ∷ [];
}

handle_client-IsPrefix_example :
    ((rest : List ℕ) × ((handle_client socket 7 (hello ∷ broken ∷ []) (0 ∷ 0 ∷ 0 ∷ 0 ∷ [])).sent
          ++ rest
        ≡ 1 ∷ 2 ∷ 4 ∷ 5 ∷ []))
    × ((rest : List ℕ) × ((handle_client_et socket 7
              (hello ∷ broken ∷ [])
              (0 ∷ 0 ∷ 0 ∷ 0 ∷ [])).sent
            ++ rest
          ≡ 1 ∷ 2 ∷ 3 ∷ 4 ∷ 5 ∷ []))
unfolding first_received drained
handle_client-IsPrefix_example =
    handle_client-IsPrefix socket 7 (hello ∷ broken ∷ []) (0 ∷ 0 ∷ 0 ∷ 0 ∷ [])

handle_client_et-echo_example :
    handle_client_et socket 7 (hello ∷ hello ∷ []) (0 ∷ 0 ∷ 0 ∷ 0 ∷ [])
    ≡ record { sent = 1 ∷ 2 ∷ 3 ∷ 1 ∷ 2 ∷ 3 ∷ []; end_state = reading }
unfolding drained usable
handle_client_et-echo_example =
    handle_client_et-echo socket 7 (hello ∷ hello ∷ []) (0 ∷ 0 ∷ 0 ∷ 0 ∷ []) refl (ground arith)

abbrev alice : UdpEndpoint
alice = record { sin_addr = 1; sin_port = 10 }

abbrev bob : UdpEndpoint
bob = record { sin_addr = 2; sin_port = 20 }

abbrev datagrams : List DatagramRound
datagrams =
    record {
      reads = datagram (1 ∷ []) alice ∷ [];
      refused = none;
      sends = SendToAnswer.sent 1 ∷ [];
    }
    ∷ record {
      reads = datagram (2 ∷ 3 ∷ []) bob ∷ [];
      refused = none;
      sends = SendToAnswer.failed ebadf ∷ [];
    }
    ∷ []

udp_echo_loop-RepliesTo_example :
    (rest : List Datagram) × ((udp_echo_loop socket 7 datagrams (0 ∷ 0 ∷ [])).replies ++ rest
      ≡ received_by datagrams)
unfolding usable
udp_echo_loop-RepliesTo_example = udp_echo_loop-RepliesTo socket 7 datagrams (0 ∷ 0 ∷ []) refl

udp_echo_et_loop-burst_example :
    udp_echo_et_loop socket (burst ((1 ∷ [], alice) ∷ (2 ∷ [], bob) ∷ []) none ∷ []) (0 ∷ [])
    ≡ record { spawned = (2 ∷ [], alice) ∷ (2 ∷ [], bob) ∷ []; end_state = receiving }
unfolding usable
udp_echo_et_loop-burst_example =
    udp_echo_et_loop-burst 1 socket (0 ∷ []) (1 ∷ [], alice) ((2 ∷ [], bob) ∷ []) none refl
      (refl, (refl, tt))
