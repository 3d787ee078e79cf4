-- ===== src/Servers/Datagrams.antt =====
-- `udp_echo_loop` of examples/udp-echo-server/main.cpp, and `udp_echo_loop` and `handle_datagram` of
-- examples/udp-echo-server-et/main.cpp.
use cpp_coroutine_epoll.Common.{ℕ, Option, none, some, List, [], ◌∷◌, ◌++◌, if◌then◌else◌}
use cpp_coroutine_epoll.System.{Exception, is_std}
use cpp_coroutine_epoll.Socket.Io.{Outcome, returned, threw, pending}
use cpp_coroutine_epoll.Socket.Handle.{Handle}
use cpp_coroutine_epoll.ThreadPool.Job.{Result}
use cpp_coroutine_epoll.Udp.Endpoint.{UdpEndpoint}
use cpp_coroutine_epoll.Udp.Datagrams.{
  RecvFromAnswer, SendToAnswer, UdpReceiveResult, async_recv_from, async_recv_from_et,
  async_send_to, echo_batch, echo_one,
}
use cpp_coroutine_epoll.Udp.Batch.{Datagram}
use cpp_coroutine_epoll.Servers.Echo.{submit_payload}

-- What the environment does in one round: the answers to recvfrom(2), what `enqueue` throws if the
-- pool is stopped, and the answers to sendto(2).
pub record DatagramRound : Type 0 where
  pub reads : List RecvFromAnswer
  pub refused : Option Exception
  pub sends : List SendToAnswer

-- How the loop stands: waiting; or it has printed the text of an exception and stopped the event loop;
-- or an exception has left it. `undefined` is the read of an empty result.
pub data LoopEnd : Type 0 where
  receiving sending undefined : LoopEnd
  stopped escaped : Exception → LoopEnd

-- `replies` are the datagrams that have been sent, oldest first, each with its receiver.
pub record Replying : Type 0 where
  pub replies : List Datagram
  pub end_state : LoopEnd

abbrev pub leaves : LoopEnd → Replying
leaves e = record { replies = []; end_state = e }

abbrev pub loop_caught : Exception → LoopEnd
loop_caught e = if is_std e then stopped e else escaped e

-- The end of a round, by how `async_send_to` ends.
unfoldable pub after_send : Outcome ℕ → Datagram → Replying → Replying
after_send pending d rest = leaves sending
after_send (threw e) d rest = leaves (loop_caught e)
after_send (returned n) d rest = record rest { replies = d ∷ rest.replies }

-- A round from `submit` on, by what `enqueue` throws and by the result of the job.
unfoldable pub after_payload :
    Handle
    → Option Exception
    → Option (Result (List ℕ))
    → UdpEndpoint
    → List SendToAnswer
    → Replying
    → Replying
unfolding after_send
after_payload socket (some e) result endpoint sends rest = leaves (loop_caught e)
after_payload socket none none endpoint sends rest = leaves undefined
after_payload socket none (some (Result.throws e)) endpoint sends rest = leaves (loop_caught e)
after_payload socket none (some (Result.value output)) endpoint sends rest =
    after_send (async_send_to socket sends) (output, endpoint) rest

-- A round behind its receive.
unfoldable pub after_receive :
    Handle → ℕ → Outcome UdpReceiveResult → List ℕ → DatagramRound → Replying → Replying
unfolding after_payload
after_receive socket self pending buffer round rest = leaves receiving
after_receive socket self (threw e) buffer round rest = leaves (loop_caught e)
after_receive socket self (returned received) buffer round rest =
    let (input, endpoint) = echo_one received buffer in
    after_payload socket round.refused (submit_payload self input) endpoint round.sends rest

-- The level-triggered server's.
unfoldable pub udp_echo_loop : Handle → ℕ → List DatagramRound → List ℕ → Replying
unfolding after_receive
udp_echo_loop socket self [] buffer = leaves receiving
udp_echo_loop socket self (round ∷ rounds) buffer =
    let r = async_recv_from socket buffer round.reads in
    after_receive socket self r.outcome r.buffer round (udp_echo_loop socket self rounds r.buffer)

-- The edge-triggered server's: what is spawned for each drain, and how the loop stands.
pub record Spawning : Type 0 where
  pub spawned : List Datagram
  pub end_state : LoopEnd

unfoldable pub udp_echo_et_loop : Handle → List (List RecvFromAnswer) → List ℕ → Spawning
udp_echo_et_loop socket [] buffer = record { spawned = []; end_state = receiving }
udp_echo_et_loop socket (reads ∷ rounds) buffer =
    let r = async_recv_from_et socket buffer reads in
    let rest = udp_echo_et_loop socket rounds r.buffer in
    elim r.outcome [
      | pending ↦ record { spawned = []; end_state = receiving }
      | threw e ↦ record { spawned = []; end_state = loop_caught e }
      | returned results ↦ record rest { spawned = echo_batch results r.buffer ++ rest.spawned }
    ]

-- How a `handle_datagram` stands; what it throws is kept in its promise.
pub data DatagramEnd : Type 0 where
  replied : Datagram → DatagramEnd
  failed_with : Exception → DatagramEnd
  replying undefined_result : DatagramEnd

abbrev pub sent_end : Outcome ℕ → Datagram → DatagramEnd
sent_end pending d = replying
sent_end (threw e) d = failed_with e
sent_end (returned n) d = replied d

abbrev pub payload_end :
    Handle → Option (Result (List ℕ)) → UdpEndpoint → List SendToAnswer → DatagramEnd
payload_end socket none endpoint sends = undefined_result
payload_end socket (some (Result.throws e)) endpoint sends = failed_with e
payload_end socket (some (Result.value output)) endpoint sends =
    sent_end (async_send_to socket sends) (output, endpoint)

unfoldable pub handle_datagram :
    Handle → ℕ → Option Exception → Datagram → List SendToAnswer → DatagramEnd
handle_datagram socket self (some e) d sends = failed_with e
handle_datagram socket self none d sends = payload_end socket (submit_payload self d.0) d.1 sends
