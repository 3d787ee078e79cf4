-- ===== src/Http/Server.antt =====
-- `accept_and_handle` of examples/http-server/main.cpp with the coroutines that it spawns: all
-- connections of one event loop.
use mathlib.Core.Path.{fun_ext}
use cpp_coroutine_epoll.Common.{
  ℕ, zero, suc, ◌≤◌, ◌≡◌, ◌≢◌, ◌∙◌, refl, ap, true, false, Option, none, some, List, [], ◌∷◌, ◌++◌,
  arith, length, take, map, All, ◌==◌, if◌then◌else◌,
}
use cpp_coroutine_epoll.System.{Exception}
use cpp_coroutine_epoll.Socket.Io.{returned}
use cpp_coroutine_epoll.Socket.Handle.{Handle, usable}
use cpp_coroutine_epoll.Tcp.Server.{AcceptAnswer, async_accept_fd}
use cpp_coroutine_epoll.Tcp.Single.{first_accepted}
use cpp_coroutine_epoll.Servers.Accept
use cpp_coroutine_epoll.Servers.Accept.{AcceptEnd}
use cpp_coroutine_epoll.Servers.AcceptAll.{one_each, accept_and_handle_spawns}
use cpp_coroutine_epoll.Http.Lines.{Stream, parsed, stream}
use cpp_coroutine_epoll.Http.Request.{HttpRequest, empty_request, is_empty, parse_request}
use cpp_coroutine_epoll.Http.Parse.{IsWritable, print_request, parse_request-print_request}
use cpp_coroutine_epoll.Http.Response.{StaticFiles, to_string, handle_route}
use cpp_coroutine_epoll.Http.Client.{Serving, closed, writing, handle_client}
use cpp_coroutine_epoll.Http.Dialogue.{print_requests, length-print_request, at_end}

-- What happens on a connection: the bytes that come, and how the writes end so far.
pub record Peer : Type 0 where
  pub incoming : Stream
  pub writes : List (Option Exception)

-- The spawned coroutines by the descriptors of their connections, oldest first, and the accept loop.
pub record Service : Type 0 where
  pub sessions : List (ℕ × Serving)
  pub end_state : AcceptEnd

module _ (digits : ℕ → List ℕ) (files : StaticFiles) where
  -- `peer fd` is what happens on the connection that accept4(2) answers with `fd`.
  unfoldable pub accept_and_handle : Handle → List (List AcceptAnswer) → (ℕ → Peer) → Service
  accept_and_handle server rounds peer =
      let accepted = Accept.accept_and_handle server rounds in
      record {
        sessions =
            map (λ fd. (fd, handle_client digits files (peer fd).writes (peer fd).incoming))
              accepted.spawned;
        end_state = accepted.end_state;
      }

  -- `k` writes have been done.
  abbrev pub written : ℕ → List (Option Exception)
  written zero = []
  written (suc k) = none ∷ written k

  -- What a connection has got when `k` of its writes have been done.
  abbrev pub answered_first : ℕ → List HttpRequest → Serving
  answered_first k requests = record {
    responses = take k (map (λ r. to_string digits (handle_route files r)) requests);
    end_state = if k == length requests then closed else writing;
  }

  first_request :
      (r : HttpRequest) (rs : List HttpRequest)
      → IsWritable r
      → (let bytes = print_request r (print_requests rs) in
          parse_request (suc (length bytes)) (stream bytes none)
          ≡ some (parsed r (stream (print_requests rs) none)))
  first_request r rs good =
      let tail = print_requests rs in
      parse_request-print_request r tail none (suc (length (print_request r tail))) good
        (omega (arith, length-print_request r tail))

  handle_client-take :
      (k : ℕ) (requests : List HttpRequest)
      → k ≤ length requests
      → All IsWritable requests
      → All (λ r. is_empty r.method ≡ false) requests
      → handle_client digits files (written k) (stream (print_requests requests) none)
        ≡ answered_first k requests
  unfolding handle_client print_requests
  handle_client-take zero [] small good named =
      let silent : parse_request 1 (stream [] none) ≡ some (parsed empty_request (stream [] none)) =
        at_end in
      rw (silent, handle_client) refl
  handle_client-take zero (r ∷ rs) small good named =
      rw (first_request r rs good.0, handle_client) (rw (named.0) (ground arith))
  handle_client-take (suc k) [] small good named = absurd (omega arith)
  handle_client-take (suc k) (r ∷ rs) small good named =
      rw (first_request r rs good.0, handle_client)
        (rw (named.0, handle_client-take k rs (omega arith) good.1 named.1) (ground arith))

  -- On a usable server whose accept loop has taken a connection in every round but the last, which does
  -- not return, and whose clients have written requests, each with a method, one behind the other: each
  -- accepted connection, and no other, has a coroutine, in the order of acceptance; and when `k fd`
  -- of its writes are done, no more than there are requests, it has answered the first `k fd` of
  -- its requests with the responses of their routes, in order, and has ended if these are all.
  pub accept_and_handle-answers :
      (server : Handle) (rounds : List (List AcceptAnswer)) (last : List AcceptAnswer) (k : ℕ → ℕ)
      (requests : ℕ → List HttpRequest)
      → usable server ≡ true
      → All (λ answers. (fd : ℕ) × (first_accepted answers ≡ some fd)) rounds
      → ((fd : ℕ) → async_accept_fd server last ≢ returned fd)
      → ((fd : ℕ) → k fd ≤ length (requests fd))
      → ((fd : ℕ) → All IsWritable (requests fd))
      → ((fd : ℕ) → All (λ r. is_empty r.method ≡ false) (requests fd))
      → (accept_and_handle server (rounds ++ last ∷ []) (λ fd. record {
        incoming = stream (print_requests (requests fd)) none;
        writes = written (k fd);
      })).sessions
        ≡ map (λ fd. (fd, answered_first (k fd) (requests fd))) (one_each rounds)
  unfolding accept_and_handle
  accept_and_handle-answers server rounds last k requests ok good open_end small fit named =
      ap (map _) (accept_and_handle_spawns server rounds last ok good open_end)
      ∙ ap (λ f. map f (one_each rounds))
          (fun_ext (λ fd.
            ap (λ s. (fd, s))
              (handle_client-take (k fd) (requests fd) (small fd) (fit fd) (named fd))))
