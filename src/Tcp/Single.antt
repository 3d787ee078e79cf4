-- ===== src/Tcp/Single.antt =====
-- The coroutines of `TcpSocket` and `TcpServer` (include/coro_epoll/tcp.hpp) that end with the first
-- answer that is neither EINTR nor EAGAIN.
use cpp_coroutine_epoll.Common.{
  ℕ, suc, ◌≡◌, refl, true, Option, none, some, List, [], ◌∷◌, ◌++◌, arith, length, drop, pos,
}
use cpp_coroutine_epoll.Socket.Io.{returned, store}
use cpp_coroutine_epoll.Socket.Handle.{Handle, usable}
use cpp_coroutine_epoll.Tcp.Read.{RecvAnswer, received, read_loop, async_read}
use cpp_coroutine_epoll.Tcp.Server.{
  AcceptAnswer, accepted, accept_loop, async_accept_fd, async_accept,
}

-- What the first call of recv(2) that succeeds delivers, if no other error comes before it.
unfoldable pub first_received : List RecvAnswer → Option (List ℕ)
first_received [] = none
first_received (received bytes ∷ answers) = some bytes
first_received (RecvAnswer.interrupted ∷ answers) = first_received answers
first_received (RecvAnswer.would_block none ∷ answers) = first_received answers
first_received (RecvAnswer.would_block (some e) ∷ answers) = none
first_received (RecvAnswer.failed e ∷ answers) = none

read_loop-first :
    (answers : List RecvAnswer) (bytes buffer : List ℕ) (waits : ℕ)
    → first_received answers ≡ some bytes
    → ((read_loop answers buffer waits).outcome ≡ returned (length bytes))
      × ((read_loop answers buffer waits).buffer ≡ bytes ++ drop (length bytes) buffer)
unfolding read_loop first_received store
read_loop-first [] bytes buffer waits h = absurd (cc)
read_loop-first (received b ∷ answers) bytes buffer waits h = ground arith
read_loop-first (RecvAnswer.interrupted ∷ answers) bytes buffer waits h =
    read_loop-first answers bytes buffer waits h
read_loop-first (RecvAnswer.would_block none ∷ answers) bytes buffer waits h =
    read_loop-first answers bytes buffer (suc waits) h
read_loop-first (RecvAnswer.would_block (some e) ∷ answers) bytes buffer waits h = absurd (cc)
read_loop-first (RecvAnswer.failed e ∷ answers) bytes buffer waits h = absurd (cc)

-- On a usable socket, and when a recv(2) succeeds before any call fails with another error than EINTR
-- and EAGAIN: `async_read` returns the number of bytes that this first one delivers, 0 at the end of
-- the stream; they are at the front of the buffer, and the rest of it is as it was.
pub async_read_first :
    (socket : Handle) (buffer bytes : List ℕ) (answers : List RecvAnswer)
    → usable socket ≡ true
    → first_received answers ≡ some bytes
    → ((async_read socket buffer answers).outcome ≡ returned (length bytes))
      × ((async_read socket buffer answers).buffer ≡ bytes ++ drop (length bytes) buffer)
unfolding async_read
async_read_first socket buffer bytes answers ok first =
    rw ok (read_loop-first answers bytes buffer 0 first)

-- The connection that the first successful accept4(2) hands over.
unfoldable pub first_accepted : List AcceptAnswer → Option ℕ
first_accepted [] = none
first_accepted (accepted fd ∷ answers) = some fd
first_accepted (AcceptAnswer.interrupted ∷ answers) = first_accepted answers
first_accepted (AcceptAnswer.would_block none ∷ answers) = first_accepted answers
first_accepted (AcceptAnswer.would_block (some e) ∷ answers) = none
first_accepted (AcceptAnswer.failed e ∷ answers) = none

accept_loop-first :
    (answers : List AcceptAnswer) (fd : ℕ)
    → first_accepted answers ≡ some fd
    → accept_loop answers ≡ returned fd
unfolding accept_loop first_accepted
accept_loop-first [] fd h = absurd (cc)
accept_loop-first (accepted c ∷ answers) fd h = ground arith
accept_loop-first (AcceptAnswer.interrupted ∷ answers) fd h = accept_loop-first answers fd h
accept_loop-first (AcceptAnswer.would_block none ∷ answers) fd h = accept_loop-first answers fd h
accept_loop-first (AcceptAnswer.would_block (some e) ∷ answers) fd h = absurd (cc)
accept_loop-first (AcceptAnswer.failed e ∷ answers) fd h = absurd (cc)

pub async_accept_fd_first :
    (server : Handle) (fd : ℕ) (answers : List AcceptAnswer)
    → usable server ≡ true
    → first_accepted answers ≡ some fd
    → async_accept_fd server answers ≡ returned fd
unfolding async_accept_fd
async_accept_fd_first server fd answers ok first = rw ok (accept_loop-first answers fd first)

-- On a usable server, and when an accept4(2) succeeds before any call fails with another error than
-- EINTR and EAGAIN: `async_accept` returns a usable socket for that connection.
pub async_accept_first :
    (server : Handle) (fd : ℕ) (answers : List AcceptAnswer)
    → usable server ≡ true
    → first_accepted answers ≡ some fd
    → (async_accept server answers ≡ returned (record { has_loop = true; fd = pos fd }))
      × (usable (record { has_loop = true; fd = pos fd }) ≡ true)
unfolding async_accept usable
async_accept_first server fd answers ok first =
    (rw (async_accept_fd_first server fd answers ok first, async_accept) refl, refl)
