-- ===== src/Tcp/Read.antt =====
-- `async_read` and `async_read_et` of `TcpSocket` in include/coro_epoll/tcp.hpp, on the answers that
-- the kernel gives to their calls of recv(2), one after the other.
use cpp_coroutine_epoll.Common.{
  ℕ, suc, ◌+◌, Option, none, some, List, [], ◌∷◌, length, ltb, if◌then◌else◌,
}
use cpp_coroutine_epoll.System.{Errno, Exception, system_error, runtime_error}
use cpp_coroutine_epoll.Socket.Io.{Outcome, returned, threw, pending, store}
use cpp_coroutine_epoll.Socket.Handle.{Handle, usable}

-- An answer of recv(2). `received` has the bytes, none at the end of the stream; `interrupted` is
-- EINTR; `would_block` is EAGAIN or EWOULDBLOCK, together with how the `co_await` of readiness that
-- may follow it ends: `none` if the coroutine is resumed, or what `add_interest` throws; `failed` is
-- any other errno.
pub data RecvAnswer : Type 0 where
  received : List ℕ → RecvAnswer
  interrupted : RecvAnswer
  would_block : Option Exception → RecvAnswer
  failed : Errno → RecvAnswer

-- How the coroutine stands, the contents of the caller's buffer, and how often it has waited.
pub record Reading : Type 0 where
  pub outcome : Outcome ℕ
  pub buffer : List ℕ
  pub waits : ℕ

-- The body of the loop of `async_read`.
unfoldable pub read_loop : List RecvAnswer → List ℕ → ℕ → Reading
read_loop [] buffer waits = record { outcome = pending; buffer = buffer; waits = waits }
read_loop (received bytes ∷ answers) buffer waits = record {
  outcome = returned (length bytes);
  buffer = store 0 bytes buffer;
  waits = waits;
}
read_loop (interrupted ∷ answers) buffer waits = read_loop answers buffer waits
read_loop (would_block none ∷ answers) buffer waits = read_loop answers buffer (suc waits)
read_loop (would_block (some e) ∷ answers) buffer waits = record {
  outcome = threw e;
  buffer = buffer;
  waits = waits;
}
read_loop (failed e ∷ answers) buffer waits = record {
  outcome = threw (system_error e "recv");
  buffer = buffer;
  waits = waits;
}

unfoldable pub async_read : Handle → List ℕ → List RecvAnswer → Reading
unfolding read_loop
async_read socket buffer answers =
    if usable socket
    then read_loop answers buffer 0
    else record { outcome = threw (runtime_error "invalid TcpSocket"); buffer = buffer; waits = 0 }

-- The body of the loop of `async_read_et`.
unfoldable pub drain_loop : List RecvAnswer → ℕ → List ℕ → ℕ → Reading
drain_loop [] total buffer waits = record { outcome = pending; buffer = buffer; waits = waits }
drain_loop (received [] ∷ answers) total buffer waits = record {
  outcome = returned total;
  buffer = buffer;
  waits = waits;
}
drain_loop (received (b ∷ bytes) ∷ answers) total buffer waits =
    drain_loop answers (total + length (b ∷ bytes)) (store total (b ∷ bytes) buffer) waits
drain_loop (interrupted ∷ answers) total buffer waits = drain_loop answers total buffer waits
drain_loop (would_block none ∷ answers) total buffer waits =
    let rest = drain_loop answers total buffer (suc waits) in
    if ltb 0 total
    then record { outcome = returned total; buffer = buffer; waits = waits }
    else rest
drain_loop (would_block (some e) ∷ answers) total buffer waits = record {
  outcome = if ltb 0 total then returned total else threw e;
  buffer = buffer;
  waits = waits;
}
drain_loop (failed e ∷ answers) total buffer waits = record {
  outcome = threw (system_error e "recv");
  buffer = buffer;
  waits = waits;
}

unfoldable pub async_read_et : Handle → List ℕ → List RecvAnswer → Reading
unfolding drain_loop
async_read_et socket buffer answers =
    if usable socket
    then drain_loop answers 0 buffer 0
    else record { outcome = threw (runtime_error "invalid TcpSocket"); buffer = buffer; waits = 0 }
