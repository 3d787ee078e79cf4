-- ===== src/Http/Framing.antt =====
-- How a client of the HTTP server (examples/http-server/main.cpp) finds the end of a response.
use cpp_coroutine_epoll.Common.{
  ℕ, zero, suc, ◌≡◌, refl, ap, ◌∙◌, Option, List, [], ◌∷◌, ◌++◌, append_assoc, arith, length,
}
use cpp_coroutine_epoll.Common.Bytes.{codes, Lacks, Lacks-append}
use cpp_coroutine_epoll.System.{Exception}
use cpp_coroutine_epoll.Http.Lines.{
  Stream, Parsed, parsed, threw, read_line, stream, cr, lf, read_line-line,
}
use cpp_coroutine_epoll.Http.Request.{HttpRequest, space}
use cpp_coroutine_epoll.Http.Response.{
  HttpResponse, StaticFiles, header_lines, to_string, handle_route,
}

-- `n` calls of `read_line`, by a client.
unfoldable pub read_lines : ℕ → Stream → Parsed (List (List ℕ))
read_lines zero s = parsed [] s
read_lines (suc n) s = elim (read_line s) [
  | threw e ↦ threw e
  | parsed line s' ↦ elim (read_lines n s') [
    | threw e ↦ threw e
    | parsed lines s'' ↦ parsed (line ∷ lines) s''
  ]
]

-- A response without headers of its own and without line feeds in the rest of its head.
record IsPlain (r : HttpResponse) : Type 0 where
  no_headers : r.headers ≡ []
  text_line : Lacks lf r.status_text
  type_line : Lacks lf r.content_type

handle_route-IsPlain :
    (files : StaticFiles) (request : HttpRequest) → IsPlain (handle_route files request)
unfolding handle_route
handle_route-IsPlain files request = ground arith

read_lines-line :
    (n : ℕ) (line rest : List ℕ) (lines : List (List ℕ)) (broken : Option Exception) (s : Stream)
    → Lacks lf line
    → read_lines n (stream rest broken) ≡ parsed lines s
    → read_lines (suc n) (stream (line ++ cr ∷ lf ∷ rest) broken) ≡ parsed (line ∷ lines) s
unfolding read_lines
read_lines-line n line rest lines broken s h next =
    rw ((read_line-line line rest broken h).0, read_lines) (rw (next, read_lines) refl)

abbrev status_line : (ℕ → List ℕ) → HttpResponse → List ℕ
status_line digits r = codes "HTTP/1.1 " ++ digits r.status ++ space ∷ r.status_text

abbrev type_header : HttpResponse → List ℕ
type_header r = codes "Content-Type: " ++ r.content_type

abbrev length_header : (ℕ → List ℕ) → HttpResponse → List ℕ
length_header digits r = codes "Content-Length: " ++ digits (length r.body)

abbrev keep_alive : List ℕ
keep_alive = codes "Connection: keep-alive"

to_string-append :
    (digits : ℕ → List ℕ) (r : HttpResponse) (rest : List ℕ)
    → r.headers ≡ []
    → to_string digits r ++ rest
      ≡ status_line digits r
        ++ cr
          ∷ lf
          ∷ (type_header r
              ++ cr
                ∷ lf
                ∷ (length_header digits r
                    ++ cr ∷ lf ∷ (keep_alive ++ cr ∷ lf ∷ cr ∷ lf ∷ (r.body ++ rest))))
unfolding to_string
to_string-append digits r rest none_given =
    let tail = keep_alive ++ cr ∷ lf ∷ header_lines r.headers (cr ∷ lf ∷ r.body) in
    let sized = length_header digits r ++ cr ∷ lf ∷ tail in
    let typed = type_header r ++ cr ∷ lf ∷ sized in
    append_assoc (status_line digits r) (cr ∷ lf ∷ typed) rest
    ∙ ap (λ l. status_line digits r ++ cr ∷ lf ∷ l)
        (append_assoc (type_header r) (cr ∷ lf ∷ sized) rest
          ∙ ap (λ l. type_header r ++ cr ∷ lf ∷ l)
              (append_assoc (length_header digits r) (cr ∷ lf ∷ tail) rest
                ∙ ap
                    (λ h.
                      length_header digits r
                      ++ cr
                        ∷ lf
                        ∷ (keep_alive ++ cr ∷ lf ∷ (header_lines h (cr ∷ lf ∷ r.body) ++ rest)))
                    none_given))

read_lines-to_string :
    (digits : ℕ → List ℕ) (r : HttpResponse) (rest : List ℕ) (broken : Option Exception)
    → ((n : ℕ) → Lacks lf (digits n))
    → IsPlain r
    → read_lines 5 (stream (to_string digits r ++ rest) broken)
      ≡ parsed
          (status_line digits r ∷ type_header r ∷ length_header digits r ∷ keep_alive ∷ [] ∷ [])
          (stream (r.body ++ rest) broken)
unfolding read_lines
read_lines-to_string digits r rest broken no_line_feed plain =
    rw (to_string-append digits r rest plain.no_headers) (
      read_lines-line 4 (status_line digits r) _ _ broken _
        (Lacks-append lf (codes "HTTP/1.1 ") (digits r.status ++ space ∷ r.status_text)
          (ground arith)
          (Lacks-append lf (digits r.status) (space ∷ r.status_text) (no_line_feed r.status)
            (omega arith, plain.text_line)))
        (read_lines-line 3 (type_header r) _ _ broken _
          (Lacks-append lf (codes "Content-Type: ") r.content_type (ground arith) plain.type_line)
          (read_lines-line 2 (length_header digits r) _ _ broken _
            (Lacks-append lf (codes "Content-Length: ") (digits (length r.body)) (ground arith)
              (no_line_feed (length r.body)))
            (read_lines-line 1 keep_alive _ _ broken _ (ground arith) (
              read_lines-line 0 [] (r.body ++ rest) [] broken (stream (r.body ++ rest) broken) tt
                refl)))))

-- Provided that std::to_string writes no line feed: a client that reads five lines of a response of
-- the server has its head, whose third line has the size of the body, and what follows in the
-- stream is the body with what comes behind it.
pub handle_route-to_string :
    (digits : ℕ → List ℕ) (files : StaticFiles) (request : HttpRequest) (rest : List ℕ)
    (broken : Option Exception)
    → ((n : ℕ) → Lacks lf (digits n))
    → (let r = handle_route files request in
        read_lines 5 (stream (to_string digits r ++ rest) broken)
        ≡ parsed
            ((codes "HTTP/1.1 " ++ digits r.status ++ space ∷ r.status_text)
              ∷ (codes "Content-Type: " ++ r.content_type)
              ∷ (codes "Content-Length: " ++ digits (length r.body))
              ∷ codes "Connection: keep-alive"
              ∷ []
              ∷ [])
            (stream (r.body ++ rest) broken))
handle_route-to_string digits files request rest broken no_line_feed =
    read_lines-to_string digits (handle_route files request) rest broken no_line_feed
      (handle_route-IsPlain files request)
