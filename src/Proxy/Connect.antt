-- ===== src/Proxy/Connect.antt =====
-- `async_connect_to` of examples/proxy-server/main.cpp, built on Linux: SOCK_NONBLOCK and SOCK_CLOEXEC
-- are defined there and SO_NOSIGPIPE is not, so that nothing in the first `try` block throws.
use Prim.Native.String.{String, ◌++◌}
use cpp_coroutine_epoll.Common.{
  ℕ, ◌≡◌, refl, Bool, true, false, Option, none, some, List, [], ◌∷◌, inl, ◌⊎◌, arith,
}
use cpp_coroutine_epoll.System.{Errno, einprogress, Exception, system_error, runtime_error}
use cpp_coroutine_epoll.Socket.Io.{Outcome, returned, threw, pending}
use cpp_coroutine_epoll.Socket.Setup.{SocketAnswer, opened, not_opened}

-- The argument `host`, and what the calls answer; `none` is success, or an SO_ERROR of 0. `waited` is
-- how the `co_await` of writability ends.
pub record ConnectAnswers : Type 0 where
  pub host : String
  pub valid_address : Bool
  pub socket : SocketAnswer
  pub connect : Option Errno
  pub waited : Outcome {0} Unit
  pub getsockopt : Option Errno
  pub so_error : Option Errno

-- How the coroutine stands, and the descriptors that it has opened and given to ::close.
pub record Connecting : Type 0 where
  pub outcome : Outcome ℕ
  pub opened_fds : List ℕ
  pub closed_fds : List ℕ

abbrev pub not_connected : Exception → Connecting
not_connected e = record { outcome = threw e; opened_fds = []; closed_fds = [] }

abbrev pub closing : ℕ → Exception → Connecting
closing fd e = record { outcome = threw e; opened_fds = fd ∷ []; closed_fds = fd ∷ [] }

abbrev pub keeping : ℕ → Outcome ℕ → Connecting
keeping fd o = record { outcome = o; opened_fds = fd ∷ []; closed_fds = [] }

-- Behind the wait.
unfoldable pub verify : ConnectAnswers → ℕ → Connecting
verify a fd = elim a.getsockopt [
  | some e ↦ closing fd (system_error e "getsockopt SO_ERROR")
  | none ↦ elim a.so_error [
    | some e ↦ closing fd (system_error e "connect")
    | none ↦ keeping fd (returned fd)
  ]
]

-- `co_await loop.writable(fd)`, which is outside every `try` block.
unfoldable pub wait_writable : ConnectAnswers → ℕ → Connecting
unfolding verify
wait_writable a fd = elim a.waited [
  | pending ↦ keeping fd pending
  | threw e ↦ keeping fd (threw e)
  | returned done ↦ verify a fd
]

-- From ::connect on, by its answer.
unfoldable pub after_connect : ConnectAnswers → ℕ → Option Errno → Connecting
unfolding wait_writable
after_connect a fd none = keeping fd (returned fd)
after_connect a fd (some einprogress) = wait_writable a fd
after_connect a fd (some e) = closing fd (system_error e "connect")

unfoldable pub async_connect_to : ConnectAnswers → Connecting
unfolding after_connect
async_connect_to a = elim a.valid_address [
  | false ↦ not_connected (runtime_error ("invalid address: " ++ a.host))
  | true ↦ elim a.socket [
    | not_opened e ↦ not_connected (system_error e "socket")
    | opened fd ↦ after_connect a fd a.connect
  ]
]

-- The connection has been made: at once, or after the wait.
abbrev pub Connected : ConnectAnswers → Type 0
Connected a = (a.connect ≡ none) ⊎ ((a.getsockopt ≡ none) × (a.so_error ≡ none))

-- What has become of the descriptor when the coroutine stands as `c`.
abbrev pub Settled : ConnectAnswers → Connecting → Type 0
Settled a c = elim c.outcome [
  | returned fd ↦ (c.opened_fds ≡ fd ∷ []) × (c.closed_fds ≡ []) × Connected a
  | threw e ↦ (c.closed_fds ≡ c.opened_fds) ⊎ ((a.waited ≡ threw e) × (c.closed_fds ≡ []))
  | pending ↦ (c.closed_fds ≡ []) × (a.waited ≡ pending)
]

verify-Settled : (a : ConnectAnswers) (fd : ℕ) → Settled a (verify a fd)
unfolding verify
verify-Settled a fd = ground arith

wait_writable-Settled : (a : ConnectAnswers) (fd : ℕ) → Settled a (wait_writable a fd)
unfolding wait_writable
wait_writable-Settled a fd = ground (arith, verify-Settled a fd)

pub after_connect-Settled :
    (a : ConnectAnswers) (fd : ℕ) (answer : Option Errno)
    → a.connect ≡ answer
    → Settled a (after_connect a fd answer)
unfolding after_connect
after_connect-Settled a fd none e = (refl, refl, inl e)
after_connect-Settled a fd (some einprogress) e = wait_writable-Settled a fd
after_connect-Settled a fd (some x) e = inl refl
