-- ===== src/Servers/Replies.antt =====
-- Who gets which bytes from the UDP echo servers (examples/udp-echo-server/main.cpp,
-- examples/udp-echo-server-et/main.cpp).
use cpp_coroutine_epoll.Common.{
  ℕ, ◌≡◌, refl, ap, subst, ◌∙◌, true, false, Option, none, some, List, [], ◌∷◌, ◌++◌, append-nil,
  map,
}
use cpp_coroutine_epoll.System.{Exception}
use cpp_coroutine_epoll.Socket.Io.{Outcome, returned, threw, pending}
use cpp_coroutine_epoll.Socket.Handle.{Handle, usable}
use cpp_coroutine_epoll.ThreadPool.Job.{Result}
use cpp_coroutine_epoll.Udp.Datagrams.{
  SendToAnswer, UdpReceiveResult, async_recv_from, async_send_to, echo_one,
}
use cpp_coroutine_epoll.Udp.Batch.{
  Datagram, arrivals, first_of, async_recv_from_echo, burst, SameLength, last, echo_batch-burst,
}
use cpp_coroutine_epoll.Servers.EchoBytes.{submit_payload_lem}
use cpp_coroutine_epoll.Servers.Datagrams.{
  DatagramRound, Replying, receiving, after_send, after_payload, after_receive, udp_echo_loop,
  udp_echo_et_loop, replied, sent_end, handle_datagram,
}

-- The datagrams that a list of rounds receives.
abbrev pub received_by : List DatagramRound → List Datagram
received_by [] = []
received_by (round ∷ rounds) = elim (first_of (arrivals false round.reads)) [
  | none ↦ received_by rounds
  | some d ↦ d ∷ received_by rounds
]

abbrev pub RepliesTo : Replying → List Datagram → Type 0
RepliesTo r ds = (rest : List Datagram) × (r.replies ++ rest ≡ ds)

after_send-RepliesTo :
    (o : Outcome ℕ) (d : Datagram) (ds : List Datagram) (rest : Replying)
    → RepliesTo rest ds
    → RepliesTo (after_send o d rest) (d ∷ ds)
unfolding after_send
after_send-RepliesTo pending d ds rest p = (d ∷ ds, refl)
after_send-RepliesTo (threw e) d ds rest p = (d ∷ ds, refl)
after_send-RepliesTo (returned n) d ds rest (left, p) = (left, ap (λ l. d ∷ l) p)

after_payload-RepliesTo :
    (socket : Handle) (refused : Option Exception) (d : Datagram) (sends : List SendToAnswer)
    (ds : List Datagram) (rest : Replying)
    → RepliesTo rest ds
    → RepliesTo (after_payload socket refused (some (Result.value d.0)) d.1 sends rest) (d ∷ ds)
unfolding after_payload
after_payload-RepliesTo socket (some e) d sends ds rest p = (d ∷ ds, refl)
after_payload-RepliesTo socket none d sends ds rest p =
    after_send-RepliesTo (async_send_to socket sends) d ds rest p

-- The datagrams that are received once `first` is.
abbrev first_then : Option Datagram → List Datagram → List Datagram
first_then first ds = elim first [ none ↦ ds | some d ↦ d ∷ ds ]

after_receive-RepliesTo :
    (socket : Handle) (self : ℕ) (o : Outcome UdpReceiveResult) (buffer : List ℕ)
    (round : DatagramRound) (first : Option Datagram) (ds : List Datagram) (rest : Replying)
    → ((r : UdpReceiveResult) → o ≡ returned r → some (echo_one r buffer) ≡ first)
    → RepliesTo rest ds
    → RepliesTo (after_receive socket self o buffer round rest) (first_then first ds)
unfolding after_receive
after_receive-RepliesTo socket self pending buffer round first ds rest h p = (_, refl)
after_receive-RepliesTo socket self (threw e) buffer round first ds rest h p = (_, refl)
after_receive-RepliesTo socket self (returned r) buffer round first ds rest h p =
    let d = echo_one r buffer in
    subst
      (λ f. RepliesTo (after_receive socket self (returned r) buffer round rest) (first_then f ds))
      (h r refl)
      (rw (submit_payload_lem self d.0)
        (after_payload-RepliesTo socket round.refused d round.sends ds rest p))

-- On a usable socket, and whatever the kernel answers: the replies of the level-triggered UDP echo
-- server are at any time the first of the datagrams that it has received, in order, each with its own
-- bytes and back to its own sender.
pub udp_echo_loop-RepliesTo :
    (socket : Handle) (self : ℕ) (rounds : List DatagramRound) (buffer : List ℕ)
    → usable socket ≡ true
    → (rest : List Datagram) × ((udp_echo_loop socket self rounds buffer).replies ++ rest
        ≡ received_by rounds)
unfolding udp_echo_loop
udp_echo_loop-RepliesTo socket self [] buffer ok = ([], refl)
udp_echo_loop-RepliesTo socket self (round ∷ rounds) buffer ok =
    let r = async_recv_from socket buffer round.reads in
    let ih = udp_echo_loop-RepliesTo socket self rounds r.buffer ok in
    after_receive-RepliesTo socket self r.outcome r.buffer round
      (first_of (arrivals false round.reads)) (received_by rounds) _
      (λ x e. async_recv_from_echo socket buffer round.reads x ok e) ih

-- A burst of datagrams of one length that the edge-triggered UDP echo server drains at once: it spawns
-- a coroutine for each sender, with the bytes of the last datagram.
pub udp_echo_et_loop-burst :
    (k : ℕ) (socket : Handle) (buffer : List ℕ) (d : Datagram) (ds : List Datagram)
    (w : Option Exception)
    → usable socket ≡ true
    → SameLength k (d ∷ ds)
    → udp_echo_et_loop socket (burst (d ∷ ds) w ∷ []) buffer
      ≡ record { spawned = map (λ x. (last d.0 ds, x.1)) (d ∷ ds); end_state = receiving }
unfolding udp_echo_et_loop
udp_echo_et_loop-burst k socket buffer d ds w ok same =
    let (done, replies) = echo_batch-burst k socket buffer d ds w ok same in
    rw (done, udp_echo_et_loop)
      (ap (λ (l : List Datagram). record { spawned = l; end_state = receiving })
        (append-nil _ ∙ replies))

sent_end-replied : (o : Outcome ℕ) (d reply : Datagram) → sent_end o d ≡ replied reply → reply ≡ d
sent_end-replied pending d reply e = absurd (cc)
sent_end-replied (threw x) d reply e = absurd (cc)
sent_end-replied (returned n) d reply e = cc

-- What `handle_datagram` replies is its input, to its endpoint.
pub handle_datagram-replied :
    (socket : Handle) (self : ℕ) (refused : Option Exception) (d reply : Datagram)
    (sends : List SendToAnswer)
    → handle_datagram socket self refused d sends ≡ replied reply
    → reply ≡ d
unfolding handle_datagram
handle_datagram-replied socket self (some x) d reply sends e = absurd (cc)
handle_datagram-replied socket self none d reply sends e =
    sent_end-replied (async_send_to socket sends) d reply (rw (submit_payload_lem self d.0) at e)
