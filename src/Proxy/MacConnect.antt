-- ===== src/Proxy/MacConnect.antt =====
-- `async_connect_to` of examples/proxy-server/main.cpp, built on macOS: socket(2) takes no flags there,
-- and the first `try` block has three calls that can throw.
use Prim.Native.String.{◌++◌}
use cpp_coroutine_epoll.Common.{
  ℕ, ◌≡◌, refl, if◌then◌else◌, Bool, true, false, Option, none, some, inl, arith,
}
use cpp_coroutine_epoll.System.{Exception, system_error, runtime_error}
use cpp_coroutine_epoll.Socket.Io.{returned}
use cpp_coroutine_epoll.Socket.Setup.{SocketAnswer, opened, not_opened}
use cpp_coroutine_epoll.Socket.Fcntl.{
  Descriptor, PrepareAnswers, prepare, prepared, prepare-prepared,
}
use cpp_coroutine_epoll.Proxy.Connect.{
  ConnectAnswers, async_connect_to, Connecting, not_connected, closing, after_connect, Settled,
  after_connect-Settled,
}

-- From the end of the first `try` block on; `prepare` is what that block does to the descriptor.
unfoldable pub connect_prepared :
    ConnectAnswers → ℕ → Option Exception × Descriptor → Connecting × Descriptor
connect_prepared a fd (some e, d) = (closing fd e, d)
connect_prepared a fd (none, d) = (after_connect a fd a.connect, d)

-- From the answer of socket(2) on.
unfoldable pub connect_opened :
    ConnectAnswers → PrepareAnswers → Descriptor → SocketAnswer → Connecting × Descriptor
unfolding connect_prepared
connect_opened a p d (not_opened e) = (not_connected (system_error e "socket"), d)
connect_opened a p d (opened fd) = connect_prepared a fd (prepare p d)

-- The coroutine, and the flags of the descriptor that it opens, which are `d` at first.
unfoldable pub async_connect_to_mac :
    ConnectAnswers → PrepareAnswers → Descriptor → Connecting × Descriptor
unfolding connect_opened
async_connect_to_mac a p d =
    if a.valid_address
    then connect_opened a p d a.socket
    else (not_connected (runtime_error ("invalid address: " ++ a.host)), d)

connect_prepared-Settled :
    (a : ConnectAnswers) (fd : ℕ) (r : Option Exception × Descriptor)
    → Settled a (connect_prepared a fd r).0
unfolding connect_prepared
connect_prepared-Settled a fd (some e, d) = inl refl
connect_prepared-Settled a fd (none, d) = after_connect-Settled a fd a.connect refl

connect_opened-Settled :
    (a : ConnectAnswers) (p : PrepareAnswers) (d : Descriptor) (answer : SocketAnswer)
    → Settled a (connect_opened a p d answer).0
unfolding connect_opened
connect_opened-Settled a p d (not_opened e) = inl refl
connect_opened-Settled a p d (opened fd) = connect_prepared-Settled a fd (prepare p d)

if_opened :
    (P : Connecting × Descriptor → Type 0) (b : Bool) {x y : Connecting × Descriptor}
    → P x
    → P y
    → P (if b then x else y)
if_opened P true p q = p
if_opened P false p q = q

-- Whatever the calls answer: the coroutine returns its descriptor, open, only when the connection has
-- been made; while it waits it has closed nothing; and when it throws it has closed what it opened,
-- unless the exception is that of the wait for writability, where it has closed nothing.
pub async_connect_to_mac-Settled :
    (a : ConnectAnswers) (p : PrepareAnswers) (d : Descriptor)
    → Settled a (async_connect_to_mac a p d).0
unfolding async_connect_to_mac
async_connect_to_mac-Settled a p d =
    if_opened (λ c. Settled a c.0) a.valid_address (connect_opened-Settled a p d a.socket)
      (inl refl)

connect_prepared-flags :
    (a : ConnectAnswers) (fd fd' : ℕ) (r : Option Exception × Descriptor) (d : Descriptor)
    → (r.0 ≡ none → r.1 ≡ d)
    → (connect_prepared a fd r).0.outcome ≡ returned fd'
    → (connect_prepared a fd r).1 ≡ d
unfolding connect_prepared
connect_prepared-flags a fd fd' (some e, d') d fine done = ground arith
connect_prepared-flags a fd fd' (none, d') d fine done = fine refl

connect_opened-flags :
    (a : ConnectAnswers) (p : PrepareAnswers) (d : Descriptor) (fd : ℕ) (answer : SocketAnswer)
    → (connect_opened a p d answer).0.outcome ≡ returned fd
    → (connect_opened a p d answer).1 ≡ prepared d
unfolding connect_opened
connect_opened-flags a p d fd (not_opened e) done = ground arith
connect_opened-flags a p d fd (opened fd') done =
    connect_prepared-flags a fd' fd (prepare p d) (prepared d) (prepare-prepared p d) done

-- A descriptor that is returned does not block, is closed on exec and raises no SIGPIPE, and keeps
-- its other flags.
pub async_connect_to_mac-prepared :
    (a : ConnectAnswers) (p : PrepareAnswers) (d : Descriptor) (fd : ℕ)
    → (async_connect_to_mac a p d).0.outcome ≡ returned fd
    → (async_connect_to_mac a p d).1 ≡ prepared d
unfolding async_connect_to_mac
async_connect_to_mac-prepared a p d fd =
    if_opened (λ c. c.0.outcome ≡ returned fd → c.1 ≡ prepared d) a.valid_address
      (connect_opened-flags a p d fd a.socket) (λ done. ground arith)

-- When the calls that prepare the descriptor succeed, the coroutine stands as the one on Linux.
pub async_connect_to_mac_lem :
    (a : ConnectAnswers) (p : PrepareAnswers) (d : Descriptor)
    → (prepare p d).0 ≡ none
    → (async_connect_to_mac a p d).0 ≡ async_connect_to a
unfolding async_connect_to_mac async_connect_to connect_opened connect_prepared
async_connect_to_mac_lem a p d fine = ground arith
