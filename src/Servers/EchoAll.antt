-- ===== src/Servers/EchoAll.antt =====
-- The two ways to read of the TCP echo servers (examples/tcp-echo-server/main.cpp,
-- examples/tcp-echo-server-et/main.cpp), and that all that a client sends comes back.
use cpp_coroutine_epoll.Common.{
  ℕ, suc, ◌≡◌, ◌<◌, refl, ap, ◌∙◌, true, false, none, some, List, [], ◌∷◌, ◌++◌, arith, length,
  take, drop, ◌==◌, All, Bool-cases, inl, inr,
}
use cpp_coroutine_epoll.Socket.Io.{returned, store}
use cpp_coroutine_epoll.Socket.Handle.{Handle, usable}
use cpp_coroutine_epoll.Tcp.Read.{
  RecvAnswer, received, Reading, read_loop, async_read, async_read_et,
}
use cpp_coroutine_epoll.Tcp.Single.{first_received, async_read_first}
use cpp_coroutine_epoll.Tcp.Drain.{drained, Settled, drain_loop-Drained, drain_loop-returned}
use cpp_coroutine_epoll.Tcp.Delivery.{Accepts, async_write_delivers}
use cpp_coroutine_epoll.Servers.Echo.{
  Round, Echoing, reading, after_write, after_job, after_read, client_loop, handle_client,
  handle_client_et,
}
use cpp_coroutine_epoll.Servers.EchoBytes.{
  Reader, incoming, delivers, submit_payload_lem, client_loop-IsPrefix,
}

-- What `async_read` delivers: the first bytes that come.
abbrev pub once : List RecvAnswer → List ℕ
once answers = elim (first_received answers) [ none ↦ [] | some bytes ↦ bytes ]

read_loop-once :
    (answers : List RecvAnswer) (buffer : List ℕ) (waits n : ℕ)
    → (read_loop answers buffer waits).outcome ≡ returned n
    → (n ≡ length (once answers))
      × ((read_loop answers buffer waits).buffer
          ≡ once answers ++ drop (length (once answers)) buffer)
unfolding read_loop first_received store
read_loop-once [] buffer waits n e = absurd (cc)
read_loop-once (received bytes ∷ answers) buffer waits n e = ground arith
read_loop-once (RecvAnswer.interrupted ∷ answers) buffer waits n e =
    read_loop-once answers buffer waits n e
read_loop-once (RecvAnswer.would_block none ∷ answers) buffer waits n e =
    read_loop-once answers buffer (suc waits) n e
read_loop-once (RecvAnswer.would_block (some x) ∷ answers) buffer waits n e = absurd (cc)
read_loop-once (RecvAnswer.failed x ∷ answers) buffer waits n e = absurd (cc)

pub async_read-once :
    (socket : Handle) (buffer : List ℕ) (answers : List RecvAnswer) (n : ℕ)
    → (async_read socket buffer answers).outcome ≡ returned n
    → (n ≡ length (once answers))
      × ((async_read socket buffer answers).buffer
          ≡ once answers ++ drop (length (once answers)) buffer)
unfolding async_read
async_read-once socket buffer answers n e = elim (Bool-cases (usable socket)) [
  | inl ok ↦ rw ok (read_loop-once answers buffer 0 n (rw ok at e))
  | inr bad ↦ ground arith
]

pub async_read_et-drained :
    (socket : Handle) (buffer : List ℕ) (answers : List RecvAnswer) (n : ℕ)
    → (async_read_et socket buffer answers).outcome ≡ returned n
    → (n ≡ length (drained false answers))
      × ((async_read_et socket buffer answers).buffer
          ≡ drained false answers ++ drop (length (drained false answers)) buffer)
unfolding async_read_et
async_read_et-drained socket buffer answers n e = elim (Bool-cases (usable socket)) [
  | inl ok ↦ rw ok (
      let (total, contents) = drain_loop-Drained answers [] buffer 0 n (rw ok at e) in
      (omega arith, contents))
  | inr bad ↦ ground arith
]

async_read_et-Settled :
    (socket : Handle) (buffer : List ℕ) (answers : List RecvAnswer)
    → usable socket ≡ true
    → Settled false answers
    → (async_read_et socket buffer answers).outcome ≡ returned (length (drained false answers))
unfolding async_read_et
async_read_et-Settled socket buffer answers ok h =
    rw ok (drain_loop-returned answers 0 buffer 0 h ∙ ap returned (omega arith))

-- The readers of the two servers.
abbrev pub reader : Reader async_read
reader = record { delivered = once; read_lem = async_read-once }

abbrev pub reader_et : Reader async_read_et
reader_et = record { delivered = drained false; read_lem = async_read_et-drained }

-- Whatever the kernel answers, and however the pool and the writes behave, both echo servers have at
-- any time sent back a front part of the bytes that they have read: none is changed, skipped, sent
-- twice or sent out of order.
pub handle_client-IsPrefix :
    (socket : Handle) (self : ℕ) (rounds : List Round) (buffer : List ℕ)
    → ((rest : List ℕ) × ((handle_client socket self rounds buffer).sent ++ rest
          ≡ incoming once rounds))
      × ((rest : List ℕ) × ((handle_client_et socket self rounds buffer).sent ++ rest
            ≡ incoming (drained false) rounds))
unfolding handle_client handle_client_et
handle_client-IsPrefix socket self rounds buffer = (
  client_loop-IsPrefix async_read reader socket self rounds buffer,
  client_loop-IsPrefix async_read_et reader_et socket self rounds buffer,
)

after_read-echo :
    (socket : Handle) (self n : ℕ) (chunk buffer : List ℕ) (round : Round) (rest : Echoing)
    → usable socket ≡ true
    → n ≡ length chunk
    → 0 < length chunk
    → take n buffer ≡ chunk
    → round.refused ≡ none
    → Accepts (length chunk) round.writes
    → after_read socket self (returned n) buffer round rest
      ≡ record rest { sent = chunk ++ rest.sent }
unfolding after_read after_job after_write
after_read-echo socket self n chunk buffer round rest ok size full taken fine accepts =
    let written = async_write_delivers socket chunk round.writes ok accepts in
    let some_read : (n == 0) ≡ false = ground arith in
    rw some_read
      (simp (fine, taken, submit_payload_lem self chunk) (rw (written.0, written.1) refl))

-- What a round has to do for its bytes to be sent back: something is read, the pool takes the job, and
-- the kernel accepts the bytes.
abbrev pub Works : List ℕ → Round → Type 0
Works chunk round =
    (0 < length chunk) × (round.refused ≡ none) × Accepts (length chunk) round.writes

module _ (read : Handle → List ℕ → List RecvAnswer → Reading) (reader : Reader read)
    (socket : Handle) (self : ℕ) (ok : usable socket ≡ true) (Ends : List RecvAnswer → Type 0)
    (ends_lem : (buffer : List ℕ) (answers : List RecvAnswer)
      → Ends answers
      → (read socket buffer answers).outcome ≡ returned (length (reader.delivered answers))) where
  client_loop-echo :
      (rounds : List Round) (buffer : List ℕ)
      → All (λ r. Ends r.reads × Works (reader.delivered r.reads) r) rounds
      → client_loop read socket self rounds buffer
        ≡ record { sent = incoming reader.delivered rounds; end_state = reading }
  unfolding client_loop
  client_loop-echo [] buffer good = refl
  client_loop-echo (round ∷ rounds) buffer ((finishes, (full, fine, accepts)), good) =
      let chunk = reader.delivered round.reads in
      let r = read socket buffer round.reads in
      let done = ends_lem buffer round.reads finishes in
      rw (done, client_loop)
        (after_read-echo socket self (length chunk) chunk r.buffer round _ ok refl full
            (delivers read reader socket self buffer round.reads (length chunk) done) fine accepts
          ∙ ap (λ (rest : Echoing). record rest { sent = chunk ++ rest.sent })
              (client_loop-echo rounds r.buffer good))

-- On a usable socket, when in every round the recv(2) brings bytes before any error, the pool takes the
-- job, and the kernel accepts the bytes: the level-triggered echo server has sent back exactly what it
-- has read, and waits to read more.
pub handle_client-echo :
    (socket : Handle) (self : ℕ) (rounds : List Round) (buffer : List ℕ)
    → usable socket ≡ true
    → All (λ r. (first_received r.reads ≡ some (once r.reads)) × Works (once r.reads) r) rounds
    → handle_client socket self rounds buffer
      ≡ record { sent = incoming once rounds; end_state = reading }
unfolding handle_client
handle_client-echo socket self rounds buffer ok good =
    client_loop-echo async_read reader socket self ok
      (λ answers. first_received answers ≡ some (once answers))
      (λ b answers h. (async_read_first socket b (once answers) answers ok h).0) rounds buffer good

-- On a usable socket, when in every round the answers bring a drain with some bytes to its end, the pool
-- takes the job, and the kernel accepts the bytes: the edge-triggered echo server has sent back exactly
-- what it has read, and waits to read more.
pub handle_client_et-echo :
    (socket : Handle) (self : ℕ) (rounds : List Round) (buffer : List ℕ)
    → usable socket ≡ true
    → All (λ r. Settled false r.reads × Works (drained false r.reads) r) rounds
    → handle_client_et socket self rounds buffer
      ≡ record { sent = incoming (drained false) rounds; end_state = reading }
unfolding handle_client_et
handle_client_et-echo socket self rounds buffer ok good =
    client_loop-echo async_read_et reader_et socket self ok (Settled false)
      (λ b answers h. async_read_et-Settled socket b answers ok h) rounds buffer good
