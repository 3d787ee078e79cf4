-- ===== src/Http/Dialogue.antt =====
-- A connection of the HTTP server as a whole: what `handle_client` answers to what a client writes,
-- and how a client reads it.
use cpp_coroutine_epoll.Common.{
  ℕ, suc, ◌≤◌, ◌≡◌, ◌≢◌, refl, false, Option, none, some, List, [], ◌∷◌, ◌++◌, arith, length,
  length-append, map, All, Option-cases, inl, inr,
}
use cpp_coroutine_epoll.System.{Exception}
use cpp_coroutine_epoll.Http.Lines.{Stream, parsed, threw, read_line, stream, cr, lf}
use cpp_coroutine_epoll.Http.Request.{
  HttpRequest, empty_request, colon, is_empty, parse_request, space,
}
use cpp_coroutine_epoll.Http.Parse.{
  print_headers, print_request, IsWritable, parse_request-print_request, parse_request_total,
}
use cpp_coroutine_epoll.Http.Response.{StaticFiles, to_string, handle_route}
use cpp_coroutine_epoll.Http.Client.{closed, no_fuel, handle_client}

-- Requests written one behind the other, without waiting for responses.
unfoldable pub print_requests : List HttpRequest → List ℕ
print_requests [] = []
print_requests (r ∷ rs) = print_request r (print_requests rs)

length-print_headers :
    (headers : List (List ℕ × List ℕ)) (tail : List ℕ)
    → length headers ≤ length (print_headers headers tail)
unfolding print_headers
length-print_headers [] tail = omega arith
length-print_headers ((k, v) ∷ headers) tail =
    let rest = cr ∷ lf ∷ print_headers headers tail in
    omega (arith, length-print_headers headers tail, length-append (k ++ colon ∷ space ∷ v) rest)

pub length-print_request :
    (r : HttpRequest) (tail : List ℕ) → length r.headers ≤ length (print_request r tail)
unfolding print_request
length-print_request r tail =
    let line = r.method ++ space ∷ (r.path ++ space ∷ r.version) in
    omega (
      arith,
      length-print_headers r.headers tail,
      length-append line (cr ∷ lf ∷ print_headers r.headers tail),
    )

pub at_end : parse_request 1 (stream [] none) ≡ some (parsed empty_request (stream [] none))
unfolding parse_request read_line
at_end = refl

abbrev pub all_written : List HttpRequest → List (Option Exception)
all_written [] = []
all_written (r ∷ rs) = none ∷ all_written rs

-- For any requests that are written one behind the other on a connection, each with a method: if every
-- `async_write` returns, `handle_client` answers each with the response of its route, in their order,
-- and ends when the client has closed the connection.
pub handle_client-print_requests :
    (digits : ℕ → List ℕ) (files : StaticFiles) (requests : List HttpRequest)
    → All IsWritable requests
    → All (λ r. is_empty r.method ≡ false) requests
    → handle_client digits files (all_written requests) (stream (print_requests requests) none)
      ≡ record {
        responses = map (λ r. to_string digits (handle_route files r)) requests;
        end_state = closed;
      }
unfolding handle_client print_requests
handle_client-print_requests digits files [] good named =
    let silent : parse_request 1 (stream [] none) ≡ some (parsed empty_request (stream [] none)) =
      at_end in
    rw (silent, handle_client) refl
handle_client-print_requests digits files (r ∷ rs) good named =
    let tail = print_requests rs in
    let read =
      parse_request-print_request r tail none (suc (length (print_request r tail))) good.0
        (omega (arith, length-print_request r tail)) in
    rw (read, handle_client)
      (rw (named.0, handle_client-print_requests digits files rs good.1 named.1) refl)

-- On any input, and however its writes end, `handle_client` comes to an end or waits in a write: the
-- fuel that the model gives to each request is never used up.
pub handle_client_total :
    (digits : ℕ → List ℕ) (files : StaticFiles) (writes : List (Option Exception)) (s : Stream)
    → (handle_client digits files writes s).end_state ≢ no_fuel
unfolding handle_client
handle_client_total digits files [] s =
    elim (Option-cases (parse_request (suc (length s.bytes)) s)) [
      | inl out ↦ absurd (parse_request_total (suc (length s.bytes)) s (omega arith) out)
      | inr (threw x, got) ↦ rw (got, handle_client) (ground arith)
      | inr (parsed request s', got) ↦ rw (got, handle_client) (ground arith)
    ]
handle_client_total digits files (none ∷ writes) s =
    elim (Option-cases (parse_request (suc (length s.bytes)) s)) [
      | inl out ↦ absurd (parse_request_total (suc (length s.bytes)) s (omega arith) out)
      | inr (threw x, got) ↦ rw (got, handle_client) (ground arith)
      | inr (parsed request s', got) ↦
          rw (got, handle_client) (ground (arith, handle_client_total digits files writes s'))
    ]
handle_client_total digits files (some e ∷ writes) s =
    elim (Option-cases (parse_request (suc (length s.bytes)) s)) [
      | inl out ↦ absurd (parse_request_total (suc (length s.bytes)) s (omega arith) out)
      | inr (threw x, got) ↦ rw (got, handle_client) (ground arith)
      | inr (parsed request s', got) ↦ rw (got, handle_client) (ground arith)
    ]
