-- ===== src/Servers/Echo.antt =====
-- `handle_client` of examples/tcp-echo-server/main.cpp and examples/tcp-echo-server-et/main.cpp: a
-- connection is read, each chunk goes through a job of the thread pool, and what that returns is
-- written back.
use cpp_coroutine_epoll.Common.{
  ℕ, Option, none, some, List, [], ◌∷◌, ◌++◌, ◌==◌, if◌then◌else◌, take,
}
use cpp_coroutine_epoll.System.{Exception, is_std}
use cpp_coroutine_epoll.Socket.Io.{Outcome, returned, threw, pending}
use cpp_coroutine_epoll.Socket.Handle.{Handle}
use cpp_coroutine_epoll.ThreadPool.Job.{Result, await_suspend, run_job, await_resume}
use cpp_coroutine_epoll.Tcp.Read.{RecvAnswer, Reading, async_read, async_read_et}
use cpp_coroutine_epoll.Tcp.Write.{SendAnswer, async_write}

-- What the environment does in one round of the loop: the answers to recv(2), what `enqueue` throws if
-- the pool is stopped, and the answers to send(2).
pub record Round : Type 0 where
  pub reads : List RecvAnswer
  pub refused : Option Exception
  pub writes : List SendAnswer

-- How the coroutine stands: it has come to its end with the connection, or after an exception whose
-- text it printed; an exception left it; or it waits in a read or a write. `undefined` is the read of
-- an empty result.
pub data ClientEnd : Type 0 where
  closed reading writing undefined : ClientEnd
  printed escaped : Exception → ClientEnd

-- `sent` has the bytes that the kernel has accepted, oldest first.
pub record Echoing : Type 0 where
  pub sent : List ℕ
  pub end_state : ClientEnd

abbrev pub ends : ClientEnd → Echoing
ends e = record { sent = []; end_state = e }

-- The handler of `catch (const std::exception&)`.
abbrev pub caught : Exception → ClientEnd
caught e = if is_std e then printed e else escaped e

unfoldable pub process_payload : List ℕ → List ℕ
process_payload input = input

-- `co_await business_pool.submit(…)` of the coroutine `self`.
unfoldable pub submit_payload : ℕ → List ℕ → Option (Result (List ℕ))
unfolding process_payload
submit_payload self input =
    await_resume (run_job (Result.value (process_payload input)) (await_suspend self))

-- The end of a round, by how its `async_write` ends; `wire` is what the kernel has accepted of it, and
-- `rest` what the rounds behind it do.
unfoldable pub after_write : Outcome ℕ → List ℕ → Echoing → Echoing
after_write pending wire rest = record { sent = wire; end_state = writing }
after_write (threw e) wire rest = record { sent = wire; end_state = caught e }
after_write (returned n) wire rest = record rest { sent = wire ++ rest.sent }

-- A round behind its read, by what `enqueue` throws and by the result of the job.
unfoldable pub after_job :
    Handle → Option Exception → Option (Result (List ℕ)) → List SendAnswer → Echoing → Echoing
unfolding after_write
after_job socket (some e) result writes rest = ends (caught e)
after_job socket none none writes rest = ends undefined
after_job socket none (some (Result.throws e)) writes rest = ends (caught e)
after_job socket none (some (Result.value output)) writes rest =
    let w = async_write socket output writes in after_write w.outcome w.wire rest

-- A round, by how its read ends and what that leaves in the buffer.
unfoldable pub after_read : Handle → ℕ → Outcome ℕ → List ℕ → Round → Echoing → Echoing
unfolding after_job
after_read socket self pending buffer round rest = ends reading
after_read socket self (threw e) buffer round rest = ends (caught e)
after_read socket self (returned count) buffer round rest =
    if count == 0
    then ends closed
    else after_job socket round.refused (submit_payload self (take count buffer)) round.writes rest

-- The loop, with its way to read as an argument.
unfoldable pub client_loop :
    (Handle → List ℕ → List RecvAnswer → Reading) → Handle → ℕ → List Round → List ℕ → Echoing
unfolding after_read
client_loop read socket self [] buffer = ends reading
client_loop read socket self (round ∷ rounds) buffer =
    let r = read socket buffer round.reads in
    after_read socket self r.outcome r.buffer round (client_loop read socket self rounds r.buffer)

-- `handle_client` of the level-triggered and of the edge-triggered server, whose buffer has been
-- given.
unfoldable pub handle_client : Handle → ℕ → List Round → List ℕ → Echoing
unfolding client_loop
handle_client socket self rounds buffer = client_loop async_read socket self rounds buffer

unfoldable pub handle_client_et : Handle → ℕ → List Round → List ℕ → Echoing
unfolding client_loop
handle_client_et socket self rounds buffer = client_loop async_read_et socket self rounds buffer
