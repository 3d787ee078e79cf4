-- ===== src/Udp/Batch.antt =====
-- What comes back from the buffer that `async_recv_from` and `async_recv_from_et`
-- (include/coro_epoll/udp.hpp) have filled.
use mathlib.Core.Path.{ap₂}
use cpp_coroutine_epoll.Common.{
  ℕ, ◌≡◌, refl, sym, ap, ◌∙◌, Bool, true, false, Option, none, some, List, [], ◌∷◌, ◌++◌,
  append_assoc, append-nil, arith, length, take, drop, take-append, drop-append, map,
}
use cpp_coroutine_epoll.System.{Exception}
use cpp_coroutine_epoll.Socket.Io.{returned, store}
use cpp_coroutine_epoll.Socket.Handle.{Handle, usable}
use cpp_coroutine_epoll.Udp.Endpoint.{UdpEndpoint}
use cpp_coroutine_epoll.Udp.Datagrams.{
  RecvFromAnswer, datagram, interrupted, would_block, failed, UdpReceiveResult, result_of,
  recv_loop, async_recv_from, recv_et_loop, async_recv_from_et, echo_batch, echo_one,
}

abbrev pub Datagram : Type 0
Datagram = List ℕ × UdpEndpoint

-- The datagrams that one call of a receive gets from the kernel: waits before the first one are
-- passed over, and one after it ends the drain.
pub arrivals : Bool → List RecvFromAnswer → List Datagram
arrivals some_read [] = []
arrivals some_read (datagram bytes endpoint ∷ answers) = (bytes, endpoint) ∷ arrivals true answers
arrivals some_read (interrupted ∷ answers) = arrivals some_read answers
arrivals true (would_block w ∷ answers) = []
arrivals false (would_block w ∷ answers) = arrivals false answers
arrivals some_read (failed e ∷ answers) = []

abbrev pub results_of : List Datagram → List UdpReceiveResult
results_of [] = []
results_of (d ∷ ds) = result_of d.0 d.1 ∷ results_of ds

abbrev has_some : List UdpReceiveResult → Bool
has_some [] = false
has_some (r ∷ rs) = true

has_some-snoc : (rs : List UdpReceiveResult) (r : UdpReceiveResult) → has_some (rs ++ r ∷ []) ≡ true
has_some-snoc [] r = refl
has_some-snoc (x ∷ rs) r = refl

recv_et_loop-results :
    (answers : List RecvFromAnswer) (rs results : List UdpReceiveResult) (buffer : List ℕ)
    → (recv_et_loop answers rs buffer).outcome ≡ returned results
    → results ≡ rs ++ results_of (arrivals (has_some rs) answers)
unfolding recv_et_loop arrivals
recv_et_loop-results [] rs results buffer e = absurd (cc)
recv_et_loop-results (datagram bytes p ∷ answers) rs results buffer e =
    let r = result_of bytes p in
    let ih = recv_et_loop-results answers (rs ++ r ∷ []) results (store 0 bytes buffer) e in
    (rw (has_some-snoc rs r) at ih) ∙ append_assoc rs (r ∷ []) _
recv_et_loop-results (interrupted ∷ answers) rs results buffer e =
    recv_et_loop-results answers rs results buffer e
recv_et_loop-results (would_block none ∷ answers) [] results buffer e =
    recv_et_loop-results answers [] results buffer e
recv_et_loop-results (would_block none ∷ answers) (r ∷ rs) results buffer e =
    ground (arith, append-nil rs)
recv_et_loop-results (would_block (some x) ∷ answers) [] results buffer e = absurd (cc)
recv_et_loop-results (would_block (some x) ∷ answers) (r ∷ rs) results buffer e =
    ground (arith, append-nil rs)
recv_et_loop-results (failed x ∷ answers) rs results buffer e = absurd (cc)

-- When `async_recv_from_et` returns on a usable socket, its results are those of exactly the datagrams
-- that this drain got from the kernel, in order, each with its own size and sender.
pub async_recv_from_et_results :
    (socket : Handle) (buffer : List ℕ) (answers : List RecvFromAnswer)
    (results : List UdpReceiveResult)
    → usable socket ≡ true
    → (async_recv_from_et socket buffer answers).outcome ≡ returned results
    → results ≡ results_of (arrivals false answers)
unfolding async_recv_from_et
async_recv_from_et_results socket buffer answers results ok e =
    recv_et_loop-results answers [] results buffer (rw ok at e)

-- The answers for a burst of datagrams that are all there, with EAGAIN behind them.
abbrev pub burst : List Datagram → Option Exception → List RecvFromAnswer
burst [] w = would_block w ∷ []
burst (d ∷ ds) w = datagram d.0 d.1 ∷ burst ds w

abbrev pub SameLength : ℕ → List Datagram → Type 0
SameLength k [] = Unit {0}
SameLength k (d ∷ ds) = (length d.0 ≡ k) × SameLength k ds

-- The bytes of the last datagram, `front` if there is none.
abbrev pub last : List ℕ → List Datagram → List ℕ
last front [] = front
last front (d ∷ ds) = last d.0 ds

length-last :
    (k : ℕ) (front : List ℕ) (ds : List Datagram)
    → length front ≡ k
    → SameLength k ds
    → length (last front ds) ≡ k
length-last k front [] h same = h
length-last k front (d ∷ ds) h same = length-last k d.0 ds same.0 same.1

store-front :
    (k : ℕ) (bytes front back : List ℕ)
    → length front ≡ k
    → length bytes ≡ k
    → store 0 bytes (front ++ back) ≡ bytes ++ back
unfolding store
store-front k bytes front back hf hb =
    ap (λ n. bytes ++ drop n (front ++ back)) (hb ∙ sym hf)
    ∙ ap (λ l. bytes ++ l) (drop-append front back)

recv_et_loop-burst :
    (k : ℕ) (ds : List Datagram) (w : Option Exception) (r : UdpReceiveResult)
    (rs : List UdpReceiveResult) (front back : List ℕ)
    → length front ≡ k
    → SameLength k ds
    → recv_et_loop (burst ds w) (r ∷ rs) (front ++ back)
      ≡ record { outcome = returned (r ∷ rs ++ results_of ds); buffer = last front ds ++ back }
unfolding recv_et_loop
recv_et_loop-burst k [] none r rs front back h same = ground (arith, append-nil rs)
recv_et_loop-burst k [] (some e) r rs front back h same = ground (arith, append-nil rs)
recv_et_loop-burst k (d ∷ ds) w r rs front back h same =
    let next = recv_et_loop-burst k ds w r (rs ++ result_of d.0 d.1 ∷ []) d.0 back same.0 same.1 in
    let fresh = result_of d.0 d.1 in
    ap (λ b. recv_et_loop (burst ds w) (r ∷ rs ++ fresh ∷ []) b)
      (store-front k d.0 front back h same.0)
    ∙ next
    ∙ ap (λ l. record { outcome = returned (r ∷ l); buffer = last d.0 ds ++ back })
        (append_assoc rs (fresh ∷ []) (results_of ds))

echo_batch-same :
    (k : ℕ) (ds : List Datagram) (bytes back : List ℕ)
    → length bytes ≡ k
    → SameLength k ds
    → echo_batch (results_of ds) (bytes ++ back) ≡ map (λ d. (bytes, d.1)) ds
unfolding echo_batch
echo_batch-same k [] bytes back h same = refl
echo_batch-same k (d ∷ ds) bytes back h same =
    let front : take (length d.0) (bytes ++ back) ≡ bytes =
      ap (λ n. take n (bytes ++ back)) (same.0 ∙ sym h) ∙ take-append bytes back in
    ap₂ (λ b l. (b, d.1) ∷ l) front (echo_batch-same k ds bytes back h same.1)

-- A burst of datagrams of one length, drained by `async_recv_from_et` and echoed by the example
-- server: every sender gets the bytes of the last datagram of the burst.
pub echo_batch-burst :
    (k : ℕ) (socket : Handle) (buffer : List ℕ) (d : Datagram) (ds : List Datagram)
    (w : Option Exception)
    → usable socket ≡ true
    → SameLength k (d ∷ ds)
    → (let r = async_recv_from_et socket buffer (burst (d ∷ ds) w) in
        (r.outcome ≡ returned (results_of (d ∷ ds)))
        × (echo_batch (results_of (d ∷ ds)) r.buffer ≡ map (λ x. (last d.0 ds, x.1)) (d ∷ ds)))
unfolding async_recv_from_et recv_et_loop store
echo_batch-burst k socket buffer d ds w ok same =
    let back = drop (length d.0) buffer in
    let e = recv_et_loop-burst k ds w (result_of d.0 d.1) [] d.0 back same.0 same.1 in
    let short = length-last k d.0 ds same.0 same.1 in
    let drained : async_recv_from_et socket buffer (burst (d ∷ ds) w)
        ≡ record { outcome = returned (results_of (d ∷ ds)); buffer = last d.0 ds ++ back } =
      rw ok e in
    rw drained (refl, echo_batch-same k (d ∷ ds) (last d.0 ds) back short same)

-- The first datagram that a receive gets.
abbrev pub first_of : List Datagram → Option Datagram
first_of [] = none
first_of (d ∷ ds) = some d

recv_loop-first :
    (answers : List RecvFromAnswer) (buffer : List ℕ) (r : UdpReceiveResult)
    → (recv_loop answers buffer).outcome ≡ returned r
    → some (echo_one r (recv_loop answers buffer).buffer) ≡ first_of (arrivals false answers)
unfolding recv_loop echo_one arrivals store
recv_loop-first [] buffer r e = absurd (cc)
recv_loop-first (datagram bytes p ∷ answers) buffer r e =
    ground (arith, take-append bytes (drop (length bytes) buffer))
recv_loop-first (interrupted ∷ answers) buffer r e = recv_loop-first answers buffer r e
recv_loop-first (would_block none ∷ answers) buffer r e = recv_loop-first answers buffer r e
recv_loop-first (would_block (some x) ∷ answers) buffer r e = absurd (cc)
recv_loop-first (failed x ∷ answers) buffer r e = absurd (cc)

-- The level-triggered receive followed by the echo of its example: if `async_recv_from` returns on a
-- usable socket, the echo is the first datagram that the kernel gave it, its bytes to its sender.
pub async_recv_from_echo :
    (socket : Handle) (buffer : List ℕ) (answers : List RecvFromAnswer) (r : UdpReceiveResult)
    → usable socket ≡ true
    → (async_recv_from socket buffer answers).outcome ≡ returned r
    → some (echo_one r (async_recv_from socket buffer answers).buffer)
      ≡ first_of (arrivals false answers)
unfolding async_recv_from
async_recv_from_echo socket buffer answers r ok e = ground (arith, recv_loop-first answers buffer r)
