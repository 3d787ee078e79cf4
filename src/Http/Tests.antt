-- ===== src/Http/Tests.antt =====
-- A request as curl writes it, and the server's answer.
use cpp_coroutine_epoll.Common.{
  ℕ, zero, suc, ◌+◌, ◌/◌, ◌%◌, ◌≡◌, ◌≢◌, refl, true, none, some, List, [], ◌∷◌, ◌++◌, arith, ltb,
  if◌then◌else◌, Bool-cases, inl, inr, pos, map, All, ◌==◌,
}
use cpp_coroutine_epoll.Common.Bytes.{codes, bytes_eq, Lacks, Lacks-append}
use cpp_coroutine_epoll.Http.Lines.{parsed, stream, lf}
use cpp_coroutine_epoll.Http.Request.{HttpRequest, parse_request, skip_blanks, all_blank, space}
use cpp_coroutine_epoll.Http.Parse.{print_request, IsWritable, parse_request-print_request}
use cpp_coroutine_epoll.Http.Response.{StaticFiles, to_string, handle_route}
use cpp_coroutine_epoll.Http.Client.{handle_client, no_fuel}
use cpp_coroutine_epoll.Http.Dialogue.{print_requests, handle_client_total}
use cpp_coroutine_epoll.Socket.Io.{returned}
use cpp_coroutine_epoll.Socket.Handle.{Handle, usable}
use cpp_coroutine_epoll.Tcp.Server.{
  AcceptAnswer, accepted, interrupted, would_block, async_accept_fd, accept_loop,
}
use cpp_coroutine_epoll.Tcp.Single.{first_accepted}
use cpp_coroutine_epoll.Servers.AcceptAll.{one_each}
use cpp_coroutine_epoll.Http.Server.{
  written, answered_first, accept_and_handle, accept_and_handle-answers,
}
use cpp_coroutine_epoll.Http.Framing.{read_lines, handle_route-to_string}

abbrev hello : HttpRequest
hello = record {
  method = codes "GET";
  path = codes "/hello";
  version = codes "HTTP/1.1";
  headers = (codes "host", codes "a") ∷ (codes "x", codes "b") ∷ [];
}

hello-IsWritable : IsWritable hello
unfolding bytes_eq skip_blanks all_blank
hello-IsWritable = ground arith

parse_request-print_request_example :
    parse_request 3 (stream (print_request hello (codes "body")) none)
    ≡ some (parsed hello (stream (codes "body") none))
parse_request-print_request_example =
    parse_request-print_request hello (codes "body") none 3 hello-IsWritable (omega arith)

-- std::to_string for an unsigned number, with fuel for its digits.
unfoldable digits_loop : ℕ → ℕ → List ℕ
digits_loop zero n = []
digits_loop (suc fuel) n =
    let front = digits_loop fuel (n / 10) in (if ltb n 10 then [] else front) ++ (48 + n % 10) ∷ []

digits_loop-Lacks : (fuel n : ℕ) → Lacks lf (digits_loop fuel n)
unfolding digits_loop
digits_loop-Lacks zero n = tt
digits_loop-Lacks (suc fuel) n =
    Lacks-append lf (if ltb n 10 then [] else digits_loop fuel (n / 10)) ((48 + n % 10) ∷ [])
      (elim (Bool-cases (ltb n 10)) [
        | inl small ↦ rw small tt
        | inr large ↦ rw large (digits_loop-Lacks fuel (n / 10))
      ])
      (omega arith, tt)

abbrev decimal : ℕ → List ℕ
decimal n = digits_loop 20 n

abbrev files : StaticFiles
files = record { index_html = codes "<p>hi</p>"; status_json = codes "{}" }

handle_client_total_example :
    (handle_client decimal files (none ∷ []) (stream (codes "GET / HTTP/1.1") none)).end_state
    ≢ no_fuel
handle_client_total_example =
    handle_client_total decimal files (none ∷ []) (stream (codes "GET / HTTP/1.1") none)

handle_route-to_string_example :
    read_lines 5 (stream (to_string decimal (handle_route files hello) ++ codes "HTTP/1.1") none)
    ≡ parsed
        ((codes "HTTP/1.1 " ++ decimal 200 ++ space ∷ codes "OK")
          ∷ codes "Content-Type: text/plain; charset=utf-8"
          ∷ (codes "Content-Length: " ++ decimal 14)
          ∷ codes "Connection: keep-alive"
          ∷ []
          ∷ [])
        (stream (codes "Hello, World!\nHTTP/1.1") none)
unfolding handle_route bytes_eq
handle_route-to_string_example =
    handle_route-to_string decimal files hello (codes "HTTP/1.1") none (digits_loop-Lacks 20)

abbrev listening : Handle
listening = record { has_loop = true; fd = pos 3 }

-- Two connections: on the first one of two requests has been answered, on the second both.
abbrev rounds : List (List AcceptAnswer)
rounds = (accepted 7 ∷ []) ∷ (interrupted ∷ accepted 8 ∷ []) ∷ []

abbrev two_hellos : ℕ → List HttpRequest
two_hellos fd = hello ∷ hello ∷ []

abbrev done_on : ℕ → ℕ
done_on fd = if fd == 7 then 1 else 2

rounds_accept : All (λ answers. (fd : ℕ) × (first_accepted answers ≡ some fd)) rounds
unfolding first_accepted
rounds_accept = ((7, refl), ((8, refl), tt))

none_pending : (fd : ℕ) → async_accept_fd listening (would_block none ∷ []) ≢ returned fd
unfolding async_accept_fd accept_loop usable
none_pending fd e = cc

accept_and_handle-answers_example :
    (accept_and_handle decimal files listening (rounds ++ (would_block none ∷ []) ∷ []) (λ fd.
      record {
        incoming = stream (print_requests (two_hellos fd)) none;
        writes = written decimal files (done_on fd);
      })).sessions
    ≡ map (λ fd. (fd, answered_first decimal files (done_on fd) (two_hellos fd))) (one_each rounds)
unfolding usable
accept_and_handle-answers_example =
    accept_and_handle-answers decimal files listening rounds (would_block none ∷ []) done_on
      two_hellos refl rounds_accept none_pending (λ fd. ground arith)
      (λ fd. (hello-IsWritable, (hello-IsWritable, tt))) (λ fd. (refl, (refl, tt)))
