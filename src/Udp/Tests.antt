-- ===== src/Udp/Tests.antt =====
-- Runs of the coroutines of `UdpSocket`, and of the echo servers on it.
use cpp_coroutine_epoll.Common.{◌≡◌, refl, true, none, some, List, [], ◌∷◌, pos, minus_one}
use cpp_coroutine_epoll.System.{other_errno}
use cpp_coroutine_epoll.Socket.Setup.{opened}
use cpp_coroutine_epoll.Socket.Handle.{Handle, nothing_done}
use cpp_coroutine_epoll.Udp.Endpoint.{UdpEndpoint, swap_bytes}
use cpp_coroutine_epoll.Udp.Datagrams.{RecvFromAnswer, datagram, interrupted, would_block}
use cpp_coroutine_epoll.Udp.Batch.{Datagram}
use cpp_coroutine_epoll.Udp.Bind.{BindAnswers, bind, Settled, bind_all_or_nothing}

abbrev socket : Handle
socket = record { has_loop = true; fd = pos 5 }

abbrev alice : UdpEndpoint
alice = record { sin_addr = 1; sin_port = swap_bytes 8080 }

abbrev bob : UdpEndpoint
bob = record { sin_addr = 2; sin_port = swap_bytes 9090 }

abbrev answers : List RecvFromAnswer
answers =
    would_block none
    ∷ datagram (1 ∷ 2 ∷ []) alice
    ∷ interrupted
    ∷ datagram (3 ∷ 4 ∷ []) bob
    ∷ would_block none
    ∷ []

abbrev from_alice : Datagram
from_alice = (1 ∷ 2 ∷ [], alice)

abbrev from_bob : Datagram
from_bob = (3 ∷ 4 ∷ [], bob)

abbrev unbound : Handle
unbound = record { has_loop = true; fd = minus_one }

abbrev address_in_use : BindAnswers
address_in_use = record {
  socket = opened 5;
  set_reuse_addr = none;
  set_reuse_port = none;
  bind = some (other_errno 98);
}

bind_all_or_nothing_example :
    ((bind true address_in_use unbound nothing_done).0.has_loop ≡ true)
    × Settled
        (bind true address_in_use unbound nothing_done).2
        5
        (
          (bind true address_in_use unbound nothing_done).0,
          (bind true address_in_use unbound nothing_done).1,
        )
        nothing_done
bind_all_or_nothing_example =
    bind_all_or_nothing true address_in_use unbound nothing_done 5 refl refl
