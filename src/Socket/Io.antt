-- ===== src/Socket/Io.antt =====
-- How a coroutine on a socket stands, and the buffers that its system calls fill.
use cpp_coroutine_epoll.Common.{ℕ, zero, suc, ◌≡◌, refl, List, [], ◌∷◌, ◌++◌, length, drop}
use cpp_coroutine_epoll.System.{Exception}

-- `pending`: the coroutine waits for the kernel's next answer.
pub data Outcome {ℓ} (A : Type ℓ) : Type ℓ where
  returned : A → Outcome A
  threw : Exception → Outcome A
  pending : Outcome A

-- `recv(fd, buffer + at, …)`: the bytes are stored from offset `at` on.
unfoldable pub store : ℕ → List ℕ → List ℕ → List ℕ
store zero bytes buffer = bytes ++ drop (length bytes) buffer
store (suc at) bytes [] = []
store (suc at) bytes (b ∷ buffer) = b ∷ store at bytes buffer

pub store-append :
    (front bytes back : List ℕ)
    → store (length front) bytes (front ++ back) ≡ front ++ (bytes ++ drop (length bytes) back)
unfolding store
store-append [] bytes back = refl
store-append (f ∷ front) bytes back = rw (store-append front bytes back)
