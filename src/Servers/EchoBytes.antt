-- ===== src/Servers/EchoBytes.antt =====
-- What the TCP echo servers (examples/tcp-echo-server/main.cpp, examples/tcp-echo-server-et/main.cpp)
-- send back.
use cpp_coroutine_epoll.Common.{
  ℕ, ◌≡◌, refl, sym, ap, ◌∙◌, Option, none, some, List, [], ◌∷◌, ◌++◌, append_assoc, length, take,
  drop, take-append, ◌==◌, Bool-cases, inl, inr,
}
use cpp_coroutine_epoll.System.{Exception}
use cpp_coroutine_epoll.Socket.Io.{Outcome, returned, threw, pending}
use cpp_coroutine_epoll.Socket.Handle.{Handle}
use cpp_coroutine_epoll.ThreadPool.Job.{Result, await_resume-run_job}
use cpp_coroutine_epoll.Tcp.Read.{RecvAnswer, Reading}
use cpp_coroutine_epoll.Tcp.Write.{SendAnswer, async_write}
use cpp_coroutine_epoll.Tcp.Delivery.{async_write_prefix, async_write_whole}
use cpp_coroutine_epoll.Servers.Echo.{
  Round, Echoing, submit_payload, after_write, after_job, after_read, client_loop,
}

-- A way to read, with what it delivers of the answers of recv(2).
pub record Reader (read : Handle → List ℕ → List RecvAnswer → Reading) : Type 0 where
  pub delivered : List RecvAnswer → List ℕ
  pub read_lem :
      (socket : Handle) (buffer : List ℕ) (answers : List RecvAnswer) (n : ℕ)
      → (read socket buffer answers).outcome ≡ returned n
      → (n ≡ length (delivered answers))
        × ((read socket buffer answers).buffer
            ≡ delivered answers ++ drop (length (delivered answers)) buffer)

pub submit_payload_lem :
    (self : ℕ) (input : List ℕ) → submit_payload self input ≡ some (Result.value input)
unfolding submit_payload
submit_payload_lem self input = (await_resume-run_job self (Result.value input)).0

-- The bytes that the client has sent, as the rounds of the loop get them.
abbrev pub incoming : (List RecvAnswer → List ℕ) → List Round → List ℕ
incoming delivered [] = []
incoming delivered (round ∷ rounds) = delivered round.reads ++ incoming delivered rounds

-- `e` has sent back a front part of `bytes`.
abbrev pub IsPrefix : Echoing → List ℕ → Type 0
IsPrefix e bytes = (rest : List ℕ) × (e.sent ++ rest ≡ bytes)

pub after_write-IsPrefix :
    (o : Outcome ℕ) (output more wire unsent : List ℕ) (rest : Echoing)
    → (wire ++ unsent ≡ output)
    → ((n : ℕ) → o ≡ returned n → wire ≡ output)
    → IsPrefix rest more
    → IsPrefix (after_write o wire rest) (output ++ more)
unfolding after_write
after_write-IsPrefix pending output more wire unsent rest q whole p =
    (unsent ++ more, sym (append_assoc wire unsent more) ∙ ap (λ l. l ++ more) q)
after_write-IsPrefix (threw e) output more wire unsent rest q whole p =
    (unsent ++ more, sym (append_assoc wire unsent more) ∙ ap (λ l. l ++ more) q)
after_write-IsPrefix (returned n) output more wire unsent rest q whole (left, p) = (
  left,
  append_assoc wire rest.sent left ∙ ap (λ l. wire ++ l) p ∙ ap (λ l. l ++ more) (whole n refl),
)

module _ (read : Handle → List ℕ → List RecvAnswer → Reading) (reader : Reader read)
    (socket : Handle) (self : ℕ) where
  open reader use {delivered, read_lem}

  after_job-IsPrefix :
      (refused : Option Exception) (input more : List ℕ) (writes : List SendAnswer) (rest : Echoing)
      → IsPrefix rest more
      → IsPrefix (after_job socket refused (some (Result.value input)) writes rest) (input ++ more)
  unfolding after_job
  after_job-IsPrefix (some e) input more writes rest p = (input ++ more, refl)
  after_job-IsPrefix none input more writes rest p =
      let (unsent, q) = async_write_prefix socket input writes in
      after_write-IsPrefix (async_write socket input writes).outcome input more _ unsent rest q
        (async_write_whole socket input writes) p

  after_read-IsPrefix :
      (o : Outcome ℕ) (chunk more buffer : List ℕ) (round : Round) (rest : Echoing)
      → ((n : ℕ) → o ≡ returned n → take n buffer ≡ chunk)
      → IsPrefix rest more
      → IsPrefix (after_read socket self o buffer round rest) (chunk ++ more)
  unfolding after_read
  after_read-IsPrefix pending chunk more buffer round rest taken p = (chunk ++ more, refl)
  after_read-IsPrefix (threw e) chunk more buffer round rest taken p = (chunk ++ more, refl)
  after_read-IsPrefix (returned n) chunk more buffer round rest taken p =
      elim (Bool-cases (n == 0)) [
        | inl none_read ↦ rw none_read (chunk ++ more, refl)
        | inr some_read ↦
            rw (some_read, taken n refl, submit_payload_lem self chunk)
              (after_job-IsPrefix round.refused chunk more round.writes rest p)
      ]

  pub delivers :
      (buffer : List ℕ) (answers : List RecvAnswer) (n : ℕ)
      → (read socket buffer answers).outcome ≡ returned n
      → take n (read socket buffer answers).buffer ≡ delivered answers
  delivers buffer answers n e =
      let (size, contents) = read_lem socket buffer answers n e in
      ap (λ k. take k (read socket buffer answers).buffer) size
      ∙ ap (take (length (delivered answers))) contents
      ∙ take-append (delivered answers) _

  pub client_loop-IsPrefix :
      (rounds : List Round) (buffer : List ℕ)
      → IsPrefix (client_loop read socket self rounds buffer) (incoming delivered rounds)
  unfolding client_loop
  client_loop-IsPrefix [] buffer = ([], refl)
  client_loop-IsPrefix (round ∷ rounds) buffer =
      let r = read socket buffer round.reads in
      after_read-IsPrefix r.outcome (delivered round.reads) (incoming delivered rounds) r.buffer
        round _ (delivers buffer round.reads) (client_loop-IsPrefix rounds r.buffer)
