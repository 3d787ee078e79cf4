-- ===== src/Tcp/Drain.antt =====
-- What `async_read` and `async_read_et` (include/coro_epoll/tcp.hpp) leave in the caller's buffer.
use cpp_coroutine_epoll.Common.{
  ℕ, zero, suc, ◌+◌, ◌-◌, ◌≤◌, ◌≡◌, sym, ap, ◌∙◌, Bool, true, false, none, some, List, [], ◌∷◌,
  ◌++◌, append_assoc, arith, length, drop, drop-drop, length-append, ltb,
}
use cpp_coroutine_epoll.Socket.Io.{returned, store, store-append}
use cpp_coroutine_epoll.Socket.Handle.{Handle, usable}
use cpp_coroutine_epoll.Tcp.Read.{
  RecvAnswer, received, interrupted, would_block, failed, Reading, drain_loop, async_read_et,
}

-- The bytes that the kernel hands over until it first says that there are none left, or the stream
-- ends: what a drain should return. `some_read` says that bytes have been handed over before.
unfoldable pub drained : Bool → List RecvAnswer → List ℕ
drained some_read [] = []
drained some_read (received [] ∷ answers) = []
drained some_read (received (b ∷ bytes) ∷ answers) = b ∷ bytes ++ drained true answers
drained some_read (interrupted ∷ answers) = drained some_read answers
drained true (would_block w ∷ answers) = []
drained false (would_block w ∷ answers) = drained false answers
drained some_read (failed e ∷ answers) = []

-- recv(2) never returns more bytes than it was asked for, which is `size - total`.
abbrev pub Fits : ℕ → List RecvAnswer → Type 0
Fits room [] = Unit {0}
Fits room (received bytes ∷ answers) = (length bytes ≤ room) × Fits (room - length bytes) answers
Fits room (interrupted ∷ answers) = Fits room answers
Fits room (would_block w ∷ answers) = Fits room answers
Fits room (failed e ∷ answers) = Fits room answers

length-drained :
    (r : Bool) (answers : List RecvAnswer) (room : ℕ)
    → Fits room answers
    → length (drained r answers) ≤ room
unfolding drained
length-drained r [] room fits = omega arith
length-drained r (received [] ∷ answers) room fits = omega arith
length-drained r (received (b ∷ bytes) ∷ answers) room fits = omega (
  arith,
  length-drained true answers (room - length (b ∷ bytes)) fits.1,
  length-append (b ∷ bytes) (drained true answers),
  fits.0,
)
length-drained r (interrupted ∷ answers) room fits = length-drained r answers room fits
length-drained true (would_block w ∷ answers) room fits = omega arith
length-drained false (would_block w ∷ answers) room fits = length-drained false answers room fits
length-drained r (failed e ∷ answers) room fits = omega arith

-- The answers bring the drain to its end: data and then EAGAIN, or the end of the stream, with no
-- error in between.
abbrev pub Settled : Bool → List RecvAnswer → Type 0
Settled r [] = ⊥
Settled r (received [] ∷ answers) = Unit {0}
Settled r (received (b ∷ bytes) ∷ answers) = Settled true answers
Settled r (interrupted ∷ answers) = Settled r answers
Settled true (would_block w ∷ answers) = Unit {0}
Settled false (would_block none ∷ answers) = Settled false answers
Settled false (would_block (some e) ∷ answers) = ⊥
Settled r (failed e ∷ answers) = ⊥

-- The result of the loop from a state in which `front` has been read and `back` is left.
abbrev pub Drained : List ℕ → List ℕ → List ℕ → Reading → Type 0
Drained front back bytes r =
    (n : ℕ)
    → r.outcome ≡ returned n
    → (n ≡ length front + length bytes) × (r.buffer ≡ front ++ (bytes ++ drop (length bytes) back))

regroup :
    (front chunk later back : List ℕ)
    → (front ++ chunk) ++ (later ++ drop (length later) (drop (length chunk) back))
      ≡ front ++ ((chunk ++ later) ++ drop (length (chunk ++ later)) back)
regroup front chunk later back =
    append_assoc front chunk _
    ∙ ap (λ l. front ++ l)
        (sym (append_assoc chunk later _)
          ∙ ap (λ l. (chunk ++ later) ++ l)
              (drop-drop (length chunk) (length later) back
                ∙ ap (λ k. drop k back) (sym (length-append chunk later))))

pub drain_loop-Drained :
    (answers : List RecvAnswer) (front back : List ℕ) (waits : ℕ)
    → Drained front back
        (drained (ltb 0 (length front)) answers)
        (drain_loop answers (length front) (front ++ back) waits)
unfolding drain_loop drained
drain_loop-Drained [] front back waits n e = absurd (cc)
drain_loop-Drained (received [] ∷ answers) front back waits n e = ground arith
drain_loop-Drained (received (b ∷ bytes) ∷ answers) front back waits n e =
    let chunk = b ∷ bytes in
    let later = drained true answers in
    let joined : length (front ++ chunk) ≡ length front + length chunk =
      length-append front chunk in
    let read_some : ltb 0 (length (front ++ chunk)) ≡ true = ground (arith, joined) in
    let stored : store (length front) chunk (front ++ back)
        ≡ (front ++ chunk) ++ drop (length chunk) back =
      store-append front chunk back ∙ sym (append_assoc front chunk _) in
    let ih = drain_loop-Drained answers (front ++ chunk) (drop (length chunk) back) waits in
    let next : Drained (front ++ chunk) (drop (length chunk) back) later (
        drain_loop answers (length front + length chunk)
          (store (length front) chunk (front ++ back)) waits) =
      rw (← joined, stored) (rw read_some at ih) in
    let (total, contents) = next n e in
    (
      omega (arith, total, joined, length-append chunk later),
      contents ∙ regroup front chunk later back,
    )
drain_loop-Drained (interrupted ∷ answers) front back waits n e =
    drain_loop-Drained answers front back waits n e
drain_loop-Drained (would_block none ∷ answers) [] back waits n e =
    drain_loop-Drained answers [] back (suc waits) n e
drain_loop-Drained (would_block none ∷ answers) (f ∷ front) back waits n e = ground arith
drain_loop-Drained (would_block (some x) ∷ answers) [] back waits n e = absurd (cc)
drain_loop-Drained (would_block (some x) ∷ answers) (f ∷ front) back waits n e = ground arith
drain_loop-Drained (failed x ∷ answers) front back waits n e = absurd (cc)

pub drain_loop-returned :
    (answers : List RecvAnswer) (total : ℕ) (buffer : List ℕ) (waits : ℕ)
    → Settled (ltb 0 total) answers
    → (drain_loop answers total buffer waits).outcome
      ≡ returned (total + length (drained (ltb 0 total) answers))
unfolding drain_loop drained
drain_loop-returned [] total buffer waits h = absurd h
drain_loop-returned (received [] ∷ answers) total buffer waits h = ground arith
drain_loop-returned (received (b ∷ bytes) ∷ answers) total buffer waits h =
    let more : ltb 0 (total + length (b ∷ bytes)) ≡ true = ground arith in
    let ih =
      drain_loop-returned answers (total + length (b ∷ bytes)) (store total (b ∷ bytes) buffer)
        waits in
    rw more at ih h ∙ ap returned (omega (arith, length-append (b ∷ bytes) (drained true answers)))
drain_loop-returned (interrupted ∷ answers) total buffer waits h =
    drain_loop-returned answers total buffer waits h
drain_loop-returned (would_block none ∷ answers) zero buffer waits h =
    drain_loop-returned answers zero buffer (suc waits) h
drain_loop-returned (would_block none ∷ answers) (suc n) buffer waits h = ground arith
drain_loop-returned (would_block (some e) ∷ answers) zero buffer waits h = absurd h
drain_loop-returned (would_block (some e) ∷ answers) (suc n) buffer waits h = ground arith
drain_loop-returned (failed e ∷ answers) total buffer waits h = absurd h

-- On a usable socket, when recv(2) never returns more than it was asked for and its answers bring the
-- drain to an end (data and then EAGAIN, or the end of the stream, without an error): `async_read_et`
-- returns the number of all bytes that the kernel handed over, which the buffer had room for; they
-- are at its front, in order, and the rest of the buffer is as it was.
pub async_read_et_drains :
    (socket : Handle) (buffer : List ℕ) (answers : List RecvAnswer)
    → usable socket ≡ true
    → Fits (length buffer) answers
    → Settled false answers
    → (let bytes = drained false answers in
        let r = async_read_et socket buffer answers in
        (r.outcome ≡ returned (length bytes))
        × (length bytes ≤ length buffer)
        × (r.buffer ≡ bytes ++ drop (length bytes) buffer))
unfolding async_read_et
async_read_et_drains socket buffer answers ok fits settled =
    let ends = drain_loop-returned answers 0 buffer 0 settled in
    rw ok (
      ends ∙ ap returned (omega arith),
      length-drained false answers (length buffer) fits,
      (drain_loop-Drained answers [] buffer 0 _ ends).1,
    )
