-- ===== src/Tcp/Tests.antt =====
-- Runs of the coroutines of `TcpSocket` and `TcpServer`.
use cpp_coroutine_epoll.Common.{
  ◌≤◌, ◌≡◌, refl, true, false, none, some, List, [], ◌∷◌, pos, negsuc, arith,
}
use cpp_coroutine_epoll.System.{other_errno}
use cpp_coroutine_epoll.Socket.Io.{returned}
use cpp_coroutine_epoll.Socket.Setup.{opened}
use cpp_coroutine_epoll.Socket.Handle.{Handle, usable}
use cpp_coroutine_epoll.Tcp.Read.{RecvAnswer, received, interrupted, would_block, async_read_et}
use cpp_coroutine_epoll.Tcp.Drain.{drained, async_read_et_drains}
use cpp_coroutine_epoll.Tcp.Write.{SendAnswer, sent, async_write}
use cpp_coroutine_epoll.Tcp.Delivery.{async_write_delivers}
use cpp_coroutine_epoll.Tcp.Server.{SetupAnswers, AcceptAnswer, accepted, failed}
use cpp_coroutine_epoll.EventLoop.Setup.{FcntlAnswers}
use cpp_coroutine_epoll.Socket.Fcntl.{Descriptor, PrepareAnswers, prepare}
use cpp_coroutine_epoll.Tcp.MacServer
use cpp_coroutine_epoll.Tcp.MacServer.{async_accept_et_mac}
use cpp_coroutine_epoll.Tcp.MacAccepted.{
  connections_mac, AccountedMac, async_accept_et_mac-Accounted,
}

abbrev socket : Handle
socket = record { has_loop = true; fd = pos 5 }

abbrev two_segments : List RecvAnswer
two_segments =
    interrupted
    ∷ would_block none
    ∷ received (1 ∷ 2 ∷ [])
    ∷ received (3 ∷ [])
    ∷ would_block none
    ∷ []

async_read_et_drains_example :
    ((async_read_et socket (0 ∷ 0 ∷ 0 ∷ 9 ∷ []) two_segments).outcome ≡ returned 3)
    × (3 ≤ 4)
    × ((async_read_et socket (0 ∷ 0 ∷ 0 ∷ 9 ∷ []) two_segments).buffer ≡ 1 ∷ 2 ∷ 3 ∷ 9 ∷ [])
unfolding usable drained
async_read_et_drains_example =
    async_read_et_drains socket (0 ∷ 0 ∷ 0 ∷ 9 ∷ []) two_segments refl
      (omega arith, (omega arith, tt)) tt

abbrev halves : List SendAnswer
halves = sent 2 none ∷ SendAnswer.would_block none ∷ SendAnswer.interrupted ∷ sent 1 none ∷ []

async_write_delivers_example :
    ((async_write socket (1 ∷ 2 ∷ 3 ∷ []) halves).outcome ≡ returned 3)
    × ((async_write socket (1 ∷ 2 ∷ 3 ∷ []) halves).wire ≡ 1 ∷ 2 ∷ 3 ∷ [])
unfolding usable
async_write_delivers_example =
    async_write_delivers socket (1 ∷ 2 ∷ 3 ∷ []) halves refl (omega arith, (omega arith, tt))

abbrev two_clients : List AcceptAnswer
two_clients = accepted 6 ∷ AcceptAnswer.interrupted ∷ accepted 7 ∷ failed (other_errno 24) ∷ []

abbrev unbound : Handle
unbound = record { has_loop = true; fd = negsuc 0 }

abbrev address_in_use : SetupAnswers
address_in_use = record {
  socket = opened 5;
  set_reuse_addr = none;
  set_reuse_port = none;
  bind = some (other_errno 98);
  listen = none;
}

-- On macOS: the second connection is prepared, and fcntl(2) fails for the third.
abbrev fresh_descriptor : Descriptor
fresh_descriptor = record { status_flags = 2; descriptor_flags = 0; no_sigpipe = false }

abbrev fcntl_fine : FcntlAnswers
fcntl_fine = record { get = none; set = none }

abbrev all_fine : PrepareAnswers
all_fine = record { no_sigpipe = none; non_blocking = fcntl_fine; close_on_exec = fcntl_fine }

abbrev mac_answers : List MacServer.AcceptAnswer
mac_answers =
    MacServer.accepted 7 fresh_descriptor all_fine
    ∷ MacServer.interrupted
    ∷ MacServer.accepted 8 fresh_descriptor all_fine
    ∷ MacServer.accepted 9 fresh_descriptor
        (record all_fine { close_on_exec = record { get = none; set = some (other_errno 22) } })
    ∷ []

async_accept_et_mac-Accounted_example :
    AccountedMac
      (connections_mac mac_answers)
      (async_accept_et_mac socket none mac_answers).outcome
      (async_accept_et_mac socket none mac_answers).closed
unfolding usable
async_accept_et_mac-Accounted_example = async_accept_et_mac-Accounted socket mac_answers refl

mac_closes : (async_accept_et_mac socket none mac_answers).closed ≡ 9 ∷ 7 ∷ 8 ∷ []
unfolding usable async_accept_et_mac prepare
mac_closes = refl
