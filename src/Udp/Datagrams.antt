-- ===== src/Udp/Datagrams.antt =====
-- `async_recv_from`, `async_recv_from_et` and `async_send_to` of `UdpSocket` in
-- include/coro_epoll/udp.hpp, on the answers that the kernel gives to their system calls.
use cpp_coroutine_epoll.Common.{
  ℕ, Bool, true, false, Option, none, some, List, [], ◌∷◌, ◌++◌, length, if◌then◌else◌, take,
}
use cpp_coroutine_epoll.System.{Errno, Exception, system_error, runtime_error}
use cpp_coroutine_epoll.Socket.Io.{Outcome, returned, threw, pending, store}
use cpp_coroutine_epoll.Socket.Handle.{Handle, usable}
use cpp_coroutine_epoll.Udp.Endpoint.{UdpEndpoint}

-- An answer of recvfrom(2): the part of a datagram that fits, with its sender, or an error as in
-- Tcp/Read.antt.
pub data RecvFromAnswer : Type 0 where
  datagram : List ℕ → UdpEndpoint → RecvFromAnswer
  interrupted : RecvFromAnswer
  would_block : Option Exception → RecvFromAnswer
  failed : Errno → RecvFromAnswer

-- `UdpReceiveResult`
pub record UdpReceiveResult : Type 0 where
  pub size : ℕ
  pub endpoint : UdpEndpoint

abbrev pub result_of : List ℕ → UdpEndpoint → UdpReceiveResult
result_of bytes endpoint = record { size = length bytes; endpoint = endpoint }

-- How the coroutine stands, and the contents of the caller's buffer.
pub record Receiving (A : Type 0) : Type 0 where
  pub outcome : Outcome A
  pub buffer : List ℕ

unfoldable pub recv_loop : List RecvFromAnswer → List ℕ → Receiving UdpReceiveResult
recv_loop [] buffer = record { outcome = pending; buffer = buffer }
recv_loop (datagram bytes endpoint ∷ answers) buffer = record {
  outcome = returned (result_of bytes endpoint);
  buffer = store 0 bytes buffer;
}
recv_loop (interrupted ∷ answers) buffer = recv_loop answers buffer
recv_loop (would_block none ∷ answers) buffer = recv_loop answers buffer
recv_loop (would_block (some e) ∷ answers) buffer = record { outcome = threw e; buffer = buffer }
recv_loop (failed e ∷ answers) buffer = record {
  outcome = threw (system_error e "recvfrom");
  buffer = buffer;
}

unfoldable pub async_recv_from : Handle → List ℕ → List RecvFromAnswer → Receiving UdpReceiveResult
unfolding recv_loop
async_recv_from socket buffer answers =
    if usable socket
    then recv_loop answers buffer
    else record { outcome = threw (runtime_error "invalid UdpSocket"); buffer = buffer }

abbrev pub is_empty : List UdpReceiveResult → Bool
is_empty [] = true
is_empty (r ∷ rs) = false

-- The loop of `async_recv_from_et`: every recvfrom stores at the start of the buffer.
unfoldable pub recv_et_loop :
    List RecvFromAnswer → List UdpReceiveResult → List ℕ → Receiving (List UdpReceiveResult)
recv_et_loop [] results buffer = record { outcome = pending; buffer = buffer }
recv_et_loop (datagram bytes endpoint ∷ answers) results buffer =
    recv_et_loop answers (results ++ result_of bytes endpoint ∷ []) (store 0 bytes buffer)
recv_et_loop (interrupted ∷ answers) results buffer = recv_et_loop answers results buffer
recv_et_loop (would_block none ∷ answers) results buffer =
    let rest = recv_et_loop answers results buffer in
    if is_empty results then rest else record { outcome = returned results; buffer = buffer }
recv_et_loop (would_block (some e) ∷ answers) results buffer = record {
  outcome = if is_empty results then threw e else returned results;
  buffer = buffer;
}
recv_et_loop (failed e ∷ answers) results buffer = record {
  outcome = threw (system_error e "recvfrom");
  buffer = buffer;
}

unfoldable pub async_recv_from_et :
    Handle → List ℕ → List RecvFromAnswer → Receiving (List UdpReceiveResult)
unfolding recv_et_loop
async_recv_from_et socket buffer answers =
    if usable socket
    then recv_et_loop answers [] buffer
    else record { outcome = threw (runtime_error "invalid UdpSocket"); buffer = buffer }

-- An answer of sendto(2).
pub data SendToAnswer : Type 0 where
  sent : ℕ → SendToAnswer
  interrupted : SendToAnswer
  would_block : Option Exception → SendToAnswer
  failed : Errno → SendToAnswer

unfoldable pub send_loop : List SendToAnswer → Outcome ℕ
send_loop [] = pending
send_loop (sent n ∷ answers) = returned n
send_loop (interrupted ∷ answers) = send_loop answers
send_loop (would_block none ∷ answers) = send_loop answers
send_loop (would_block (some e) ∷ answers) = threw e
send_loop (failed e ∷ answers) = threw (system_error e "sendto")

unfoldable pub async_send_to : Handle → List SendToAnswer → Outcome ℕ
unfolding send_loop
async_send_to socket answers =
    if usable socket then send_loop answers else threw (runtime_error "invalid UdpSocket")

-- The `for` loop of `udp_echo_loop` in examples/udp-echo-server-et/main.cpp: for each result the input
-- `std::string{buffer.data(), received.size}` and the endpoint that it is sent back to.
unfoldable pub echo_batch : List UdpReceiveResult → List ℕ → List (List ℕ × UdpEndpoint)
echo_batch [] buffer = []
echo_batch (r ∷ results) buffer = (take r.size buffer, r.endpoint) ∷ echo_batch results buffer

-- The same in `udp_echo_loop` of examples/udp-echo-server/main.cpp, for the one result there.
unfoldable pub echo_one : UdpReceiveResult → List ℕ → List ℕ × UdpEndpoint
echo_one r buffer = (take r.size buffer, r.endpoint)
