-- ===== src/Proxy/Copies.antt =====
-- What the relays of the proxy (examples/proxy-server/main.cpp) copy.
use cpp_coroutine_epoll.Common.{
  ℕ, ◌≡◌, ◌<◌, refl, ap, ◌∙◌, true, false, some, List, [], ◌∷◌, ◌++◌, arith, length, take, ◌==◌,
  All, Bool-cases, inl, inr,
}
use cpp_coroutine_epoll.Socket.Io.{Outcome, returned, threw, pending}
use cpp_coroutine_epoll.Socket.Handle.{Handle, usable}
use cpp_coroutine_epoll.Tcp.Read.{async_read}
use cpp_coroutine_epoll.Tcp.Write.{SendAnswer, async_write}
use cpp_coroutine_epoll.Tcp.Single.{first_received, async_read_first}
use cpp_coroutine_epoll.Tcp.Delivery.{
  Accepts, async_write_delivers, async_write_prefix, async_write_whole,
}
use cpp_coroutine_epoll.Servers.Echo.{closed, Echoing, after_write}
use cpp_coroutine_epoll.Servers.EchoBytes.{IsPrefix, after_write-IsPrefix, delivers}
use cpp_coroutine_epoll.Servers.EchoAll.{once, reader}
use cpp_coroutine_epoll.Proxy.Relay.{
  Turn, Direction, Sockets, from_of, to_of, relay, relay_loop, after_relay_read, finish_relay,
  tear_down,
}

-- What one side of the session has sent, as the turns of its relay get it.
abbrev pub inflow : List Turn → List ℕ
inflow [] = []
inflow (turn ∷ turns) = once turn.reads ++ inflow turns

module _ (from to : Handle) where
  after_relay_read-IsPrefix :
      (o : Outcome ℕ) (chunk more buffer : List ℕ) (writes : List SendAnswer) (rest : Echoing)
      → ((n : ℕ) → o ≡ returned n → take n buffer ≡ chunk)
      → IsPrefix rest more
      → IsPrefix (after_relay_read to o buffer writes rest) (chunk ++ more)
  unfolding after_relay_read
  after_relay_read-IsPrefix pending chunk more buffer writes rest taken p = (chunk ++ more, refl)
  after_relay_read-IsPrefix (threw e) chunk more buffer writes rest taken p = (chunk ++ more, refl)
  after_relay_read-IsPrefix (returned n) chunk more buffer writes rest taken p =
      elim (Bool-cases (n == 0)) [
        | inl none_read ↦ rw none_read (chunk ++ more, refl)
        | inr some_read ↦
            let (unsent, q) = async_write_prefix to chunk writes in
            rw (some_read, taken n refl)
              (after_write-IsPrefix (async_write to chunk writes).outcome chunk more _ unsent rest q
                (async_write_whole to chunk writes) p)
      ]

  relay_loop-IsPrefix :
      (turns : List Turn) (buffer : List ℕ)
      → IsPrefix (relay_loop from to turns buffer) (inflow turns)
  unfolding relay_loop
  relay_loop-IsPrefix [] buffer = ([], refl)
  relay_loop-IsPrefix (turn ∷ turns) buffer =
      let r = async_read from buffer turn.reads in
      after_relay_read-IsPrefix r.outcome (once turn.reads) (inflow turns) r.buffer turn.writes _
        (delivers async_read reader from 0 buffer turn.reads) (relay_loop-IsPrefix turns r.buffer)

-- Whatever the kernel answers, a relay has at any time written to the one socket a front part of the
-- bytes that it has read from the other, in order.
pub relay-IsPrefix :
    (d : Direction) (at_start : Sockets) (turns : List Turn) (buffer : List ℕ) (at_end : Sockets)
    → (rest : List ℕ) × ((relay d at_start turns buffer at_end).0.sent ++ rest ≡ inflow turns)
unfolding relay
relay-IsPrefix d at_start turns buffer at_end =
    relay_loop-IsPrefix (from_of d at_start) (to_of d at_start) turns buffer

-- A turn whose bytes are copied, and one in which the end of the stream is read.
abbrev pub Copying : Turn → Type 0
Copying turn =
    (first_received turn.reads ≡ some (once turn.reads))
    × (0 < length (once turn.reads))
    × Accepts (length (once turn.reads)) turn.writes

abbrev pub Ending : Turn → Type 0
Ending turn = first_received turn.reads ≡ some []

after_relay_read_copies :
    (to : Handle) (n : ℕ) (chunk buffer : List ℕ) (writes : List SendAnswer) (rest : Echoing)
    → usable to ≡ true
    → n ≡ length chunk
    → 0 < length chunk
    → take n buffer ≡ chunk
    → Accepts (length chunk) writes
    → after_relay_read to (returned n) buffer writes rest
      ≡ record rest { sent = chunk ++ rest.sent }
unfolding after_relay_read after_write
after_relay_read_copies to n chunk buffer writes rest ok size full taken accepts =
    let written = async_write_delivers to chunk writes ok accepts in
    let some_read : (n == 0) ≡ false = ground arith in
    rw some_read (simp taken (rw (written.0, written.1) refl))

module _ (from to : Handle) (from_ok : usable from ≡ true) (to_ok : usable to ≡ true) where
  relay_loop_copies :
      (turns : List Turn) (last : Turn) (buffer : List ℕ)
      → All Copying turns
      → Ending last
      → relay_loop from to (turns ++ last ∷ []) buffer
        ≡ record { sent = inflow turns; end_state = closed }
  unfolding relay_loop after_relay_read
  relay_loop_copies [] last buffer good ending =
      let read = (async_read_first from buffer [] last.reads from_ok ending).0 in
      rw (read, relay_loop) refl
  relay_loop_copies (turn ∷ turns) last buffer ((first, full, accepts), good) ending =
      let chunk = once turn.reads in
      let r = async_read from buffer turn.reads in
      let read = (async_read_first from buffer chunk turn.reads from_ok first).0 in
      rw (read, relay_loop)
        (after_relay_read_copies to (length chunk) chunk r.buffer turn.writes _ to_ok refl full
            (delivers async_read reader from 0 buffer turn.reads (length chunk) read) accepts
          ∙ ap (λ (rest : Echoing). record rest { sent = chunk ++ rest.sent })
              (relay_loop_copies turns last r.buffer good ending))

-- On usable sockets, when every read but the last brings bytes and the last the end of the stream,
-- and the kernel accepts the bytes: the relay has written all that it read, and tears both sockets
-- down.
pub relay_copies :
    (d : Direction) (at_start : Sockets) (turns : List Turn) (last : Turn) (buffer : List ℕ)
    (at_end : Sockets)
    → usable at_start.client ≡ true
    → usable at_start.backend ≡ true
    → All Copying turns
    → Ending last
    → relay d at_start (turns ++ last ∷ []) buffer at_end
      ≡ (record { sent = inflow turns; end_state = closed }, tear_down d at_end)
unfolding relay finish_relay
relay_copies Direction.upstream at_start turns last buffer at_end c b good ending =
    rw (relay_loop_copies at_start.client at_start.backend c b turns last buffer good ending) refl
relay_copies Direction.downstream at_start turns last buffer at_end c b good ending =
    rw (relay_loop_copies at_start.backend at_start.client b c turns last buffer good ending) refl
