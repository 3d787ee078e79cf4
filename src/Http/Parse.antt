-- ===== src/Http/Parse.antt =====
-- `parse_request` (examples/http-server/main.cpp) comes to an end, and reads what a client writes.
use cpp_coroutine_epoll.Common.{
  ℕ, zero, suc, ◌+◌, ◌<◌, ◌≡◌, ◌≢◌, refl, ap, ◌∙◌, false, Option, none, some, List, [], ◌∷◌, ◌++◌,
  append_assoc, append-nil, arith, length, drop, take-append, Option-cases, inl, inr, ◌⊎◌, map, All,
}
use cpp_coroutine_epoll.Common.Bytes.{bytes_eq, Lacks, Lacks-append, find_byte-append}
use cpp_coroutine_epoll.System.{Exception}
use cpp_coroutine_epoll.Http.Lines.{
  Stream, Parsed, parsed, threw, read_line, read_line-shorter, read_line-le, read_line-line, stream,
  cr, lf,
}
use cpp_coroutine_epoll.Http.Request.{
  HttpRequest, space, colon, is_empty, split_request_line, tolower, all_blank, skip_blanks,
  set_header, split_header, add_header, header_loop, parse_request,
}

Parsed-cases :
    (r : Parsed (List ℕ))
    → ((line : List ℕ) × (s : Stream) × (r ≡ parsed line s)) ⊎ ((e : Exception) × (r ≡ threw e))
Parsed-cases (parsed line s) = inl (line, s, refl)
Parsed-cases (threw e) = inr (e, refl)

header_loop_total :
    (fuel : ℕ) (request : HttpRequest) (s : Stream)
    → length s.bytes < fuel
    → header_loop fuel request s ≢ none
unfolding header_loop
header_loop_total zero request s h e = absurd (omega arith)
header_loop_total (suc fuel) request s h e = elim (Parsed-cases (read_line s)) [
  | inr (x, r) ↦ ground arith
  | inl (line, s', r) ↦ ground (
    arith,
    read_line-shorter s s' line r,
    header_loop_total fuel (record request { headers = add_header line request.headers }) s',
  )
]

-- With more fuel than there are bytes to come, `parse_request` never runs out of it: the loop over the
-- header lines ends, on any input.
pub parse_request_total :
    (fuel : ℕ) (s : Stream) → length s.bytes < fuel → parse_request fuel s ≢ none
unfolding parse_request
parse_request_total fuel s h e = elim (Parsed-cases (read_line s)) [
  | inr (x, r) ↦ ground arith
  | inl (line, s', r) ↦ elim (Option-cases (split_request_line line)) [
    | inl q ↦ ground arith
    | inr (request, q) ↦ ground (arith, read_line-le s s' line r, header_loop_total fuel request s')
  ]
]

-- The text of a request as a client writes it, with `tail` behind it.
unfoldable pub print_headers : List (List ℕ × List ℕ) → List ℕ → List ℕ
print_headers [] tail = cr ∷ lf ∷ tail
print_headers ((key, value) ∷ headers) tail =
    (key ++ colon ∷ space ∷ value) ++ cr ∷ lf ∷ print_headers headers tail

unfoldable pub print_request : HttpRequest → List ℕ → List ℕ
print_request r tail =
    (r.method ++ space ∷ (r.path ++ space ∷ r.version)) ++ cr ∷ lf ∷ print_headers r.headers tail

-- A header that survives: a lower-case key without colon or line feed, and a value that starts with
-- something other than a blank and has no line feed.
pub record IsHeader (h : List ℕ × List ℕ) : Type 0 where
  pub lower : map tolower h.0 ≡ h.0
  pub no_colon : Lacks colon h.0
  pub key_line : Lacks lf h.0
  pub value_line : Lacks lf h.1
  pub starts : skip_blanks h.1 ≡ h.1
  pub not_blank : all_blank h.1 ≡ false

-- No key of `headers` occurs twice, or among those of `seen`.
abbrev pub NewKeys : List (List ℕ × List ℕ) → List (List ℕ × List ℕ) → Type 0
NewKeys seen [] = Unit {0}
NewKeys seen (h ∷ headers) =
    All (λ s. bytes_eq s.0 h.0 ≡ false) seen × NewKeys (seen ++ h ∷ []) headers

pub record IsWritable (r : HttpRequest) : Type 0 where
  pub method_word : Lacks space r.method
  pub path_word : Lacks space r.path
  pub method_line : Lacks lf r.method
  pub path_line : Lacks lf r.path
  pub version_line : Lacks lf r.version
  pub good_headers : All IsHeader r.headers
  pub new_keys : NewKeys [] r.headers

drop-past : (xs ys : List ℕ) (c : ℕ) → drop (length xs + 1) (xs ++ c ∷ ys) ≡ ys
drop-past [] ys c = refl
drop-past (x ∷ xs) ys c =
    let e : suc (length xs) + 1 ≡ suc (length xs + 1) = omega arith in rw e (drop-past xs ys c)

split_header-print :
    (h : List ℕ × List ℕ) → IsHeader h → split_header (h.0 ++ colon ∷ space ∷ h.1) ≡ some h
unfolding split_header all_blank skip_blanks
split_header-print h v =
    rw
      (
        find_byte-append colon h.0 (space ∷ h.1) v.no_colon,
        split_header,
        take-append h.0 (colon ∷ space ∷ h.1),
        drop-past h.0 (space ∷ h.1) colon,
        v.lower,
      )
      (rw (v.not_blank, v.starts))

set_header-new :
    (key value : List ℕ) (headers : List (List ℕ × List ℕ))
    → All (λ s. bytes_eq s.0 key ≡ false) headers
    → set_header key value headers ≡ headers ++ (key, value) ∷ []
unfolding set_header
set_header-new key value [] new = refl
set_header-new key value ((k, v) ∷ headers) new =
    rw new.0 (ap (λ l. (k, v) ∷ l) (set_header-new key value headers new.1))

not_empty : (k v : List ℕ) → is_empty (k ++ colon ∷ v) ≡ false
not_empty [] v = refl
not_empty (c ∷ k) v = refl

header_line : (h : List ℕ × List ℕ) → IsHeader h → Lacks lf (h.0 ++ colon ∷ space ∷ h.1)
header_line h v =
    Lacks-append lf h.0 (colon ∷ space ∷ h.1) v.key_line (omega arith, (omega arith, v.value_line))

add_header-print :
    (h : List ℕ × List ℕ) (seen : List (List ℕ × List ℕ))
    → IsHeader h
    → All (λ s. bytes_eq s.0 h.0 ≡ false) seen
    → add_header (h.0 ++ colon ∷ space ∷ h.1) seen ≡ seen ++ h ∷ []
unfolding add_header
add_header-print h seen good new =
    rw (split_header-print h good, add_header) (set_header-new h.0 h.1 seen new)

header_loop-print :
    (headers seen : List (List ℕ × List ℕ)) (request : HttpRequest) (tail : List ℕ)
    (broken : Option Exception) (fuel : ℕ)
    → All IsHeader headers
    → NewKeys seen headers
    → length headers < fuel
    → header_loop fuel
        (record request { headers = seen })
        (stream (print_headers headers tail) broken)
      ≡ some (parsed (record request { headers = seen ++ headers }) (stream tail broken))
unfolding header_loop print_headers
header_loop-print headers seen request tail broken zero good new h = absurd (omega arith)
header_loop-print [] seen request tail broken (suc fuel) good new h =
    let read : read_line (stream (cr ∷ lf ∷ tail) broken) ≡ parsed [] (stream tail broken) =
      (read_line-line [] tail broken tt).0 in
    rw (read, header_loop) (rw (append-nil seen))
header_loop-print (x ∷ headers) seen request tail broken (suc fuel) good new h =
    let read =
      (read_line-line (x.0 ++ colon ∷ space ∷ x.1) (print_headers headers tail) broken
        (header_line x good.0)).0 in
    let next =
      header_loop-print headers (seen ++ x ∷ []) request tail broken fuel good.1 new.1
        (omega arith) in
    rw (read, header_loop)
      (rw (not_empty x.0 (space ∷ x.1), add_header-print x seen good.0 new.0)
        (next
          ∙ ap (λ l. some (parsed (record request { headers = l }) (stream tail broken)))
              (append_assoc seen (x ∷ []) headers)))

split_request_line-print :
    (r : HttpRequest)
    → IsWritable r
    → split_request_line (r.method ++ space ∷ (r.path ++ space ∷ r.version))
      ≡ some (record r { headers = [] })
unfolding split_request_line
split_request_line-print r v =
    rw
      (
        find_byte-append space r.method (r.path ++ space ∷ r.version) v.method_word,
        split_request_line,
      )
      (rw (drop-past r.method (r.path ++ space ∷ r.version) space) (
        rw (find_byte-append space r.path r.version v.path_word) (
          rw (
            take-append r.method (space ∷ (r.path ++ space ∷ r.version)),
            drop-past r.method (r.path ++ space ∷ r.version) space,
            take-append r.path (space ∷ r.version),
            drop-past r.path r.version space,
          ))))

request_line :
    (r : HttpRequest) → IsWritable r → Lacks lf (r.method ++ space ∷ (r.path ++ space ∷ r.version))
request_line r v =
    Lacks-append lf r.method _ v.method_line
      (omega arith, Lacks-append lf r.path _ v.path_line (omega arith, v.version_line))

request_not_empty : (m rest : List ℕ) → is_empty (m ++ space ∷ rest) ≡ false
request_not_empty [] rest = refl
request_not_empty (c ∷ m) rest = refl

-- A request written with one line for each header is read back: method, path and version without
-- spaces and line feeds where they may not be, and headers with distinct lower-case keys, come out of
-- `parse_request` as they went in, and the stream goes on behind the empty line.
pub parse_request-print_request :
    (r : HttpRequest) (tail : List ℕ) (broken : Option Exception) (fuel : ℕ)
    → IsWritable r
    → length r.headers < fuel
    → parse_request fuel (stream (print_request r tail) broken)
      ≡ some (parsed r (stream tail broken))
unfolding print_request parse_request
parse_request-print_request r tail broken fuel v h =
    let line = r.method ++ space ∷ (r.path ++ space ∷ r.version) in
    let read = (read_line-line line (print_headers r.headers tail) broken (request_line r v)).0 in
    rw (read, parse_request)
      (rw (request_not_empty r.method (r.path ++ space ∷ r.version)) (
        rw (split_request_line-print r v, split_request_line)
          (header_loop-print r.headers [] r tail broken fuel v.good_headers v.new_keys h)))
