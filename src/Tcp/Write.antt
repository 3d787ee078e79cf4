-- ===== src/Tcp/Write.antt =====
-- `async_write` of `TcpSocket` in include/coro_epoll/tcp.hpp, on the answers that the kernel gives to
-- its calls of send(2).
use cpp_coroutine_epoll.Common.{
  ℕ, zero, suc, ◌+◌, Option, none, some, List, [], ◌∷◌, ◌++◌, length, take, drop, ltb,
  if◌then◌else◌,
}
use cpp_coroutine_epoll.System.{Errno, Exception, system_error, runtime_error}
use cpp_coroutine_epoll.Socket.Io.{Outcome, returned, threw, pending}
use cpp_coroutine_epoll.Socket.Handle.{Handle, usable}

-- An answer of send(2). With `sent 0`, as with `would_block` (EAGAIN or EWOULDBLOCK), goes how the
-- `co_await` of readiness that follows ends: `none` if the coroutine is resumed, or what
-- `add_interest` throws. `interrupted` is EINTR, `failed` any other errno.
pub data SendAnswer : Type 0 where
  sent : ℕ → Option Exception → SendAnswer
  interrupted : SendAnswer
  would_block : Option Exception → SendAnswer
  failed : Errno → SendAnswer

-- How the coroutine stands, the bytes that the kernel has accepted, and how often it has waited.
pub record Writing : Type 0 where
  pub outcome : Outcome ℕ
  pub wire : List ℕ
  pub waits : ℕ

-- The loop of `async_write`, from `total` on. The call is `send(fd_, buffer + total, size - total, …)`.
unfoldable pub write_loop : List SendAnswer → List ℕ → ℕ → List ℕ → ℕ → Writing
write_loop [] bytes total wire waits =
    if ltb total (length bytes)
    then record { outcome = pending; wire = wire; waits = waits }
    else record { outcome = returned total; wire = wire; waits = waits }
write_loop (sent (suc n) w ∷ answers) bytes total wire waits =
    let rest =
      write_loop answers bytes (total + suc n) (wire ++ take (suc n) (drop total bytes)) waits in
    if ltb total (length bytes)
    then rest
    else record { outcome = returned total; wire = wire; waits = waits }
write_loop (sent zero none ∷ answers) bytes total wire waits =
    let rest = write_loop answers bytes total wire (suc waits) in
    if ltb total (length bytes)
    then rest
    else record { outcome = returned total; wire = wire; waits = waits }
write_loop (sent zero (some e) ∷ answers) bytes total wire waits =
    if ltb total (length bytes)
    then record { outcome = threw e; wire = wire; waits = waits }
    else record { outcome = returned total; wire = wire; waits = waits }
write_loop (interrupted ∷ answers) bytes total wire waits =
    let rest = write_loop answers bytes total wire waits in
    if ltb total (length bytes)
    then rest
    else record { outcome = returned total; wire = wire; waits = waits }
write_loop (would_block none ∷ answers) bytes total wire waits =
    let rest = write_loop answers bytes total wire (suc waits) in
    if ltb total (length bytes)
    then rest
    else record { outcome = returned total; wire = wire; waits = waits }
write_loop (would_block (some e) ∷ answers) bytes total wire waits =
    if ltb total (length bytes)
    then record { outcome = threw e; wire = wire; waits = waits }
    else record { outcome = returned total; wire = wire; waits = waits }
write_loop (failed e ∷ answers) bytes total wire waits =
    if ltb total (length bytes)
    then record { outcome = threw (system_error e "send"); wire = wire; waits = waits }
    else record { outcome = returned total; wire = wire; waits = waits }

unfoldable pub async_write : Handle → List ℕ → List SendAnswer → Writing
unfolding write_loop
async_write socket bytes answers =
    if usable socket
    then write_loop answers bytes 0 [] 0
    else record { outcome = threw (runtime_error "invalid TcpSocket"); wire = []; waits = 0 }
