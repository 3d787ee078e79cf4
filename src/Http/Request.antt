-- ===== src/Http/Request.antt =====
-- `parse_request` of examples/http-server/main.cpp.
use cpp_coroutine_epoll.Common.{
  ℕ, zero, suc, ◌+◌, Bool, true, false, ◌&&◌, ◌||◌, Option, none, some, List, [], ◌∷◌, take, drop,
  ◌==◌, leb, if◌then◌else◌, map,
}
use cpp_coroutine_epoll.Common.Bytes.{codes, bytes_eq, find_byte}
use cpp_coroutine_epoll.System.{runtime_error}
use cpp_coroutine_epoll.Http.Lines.{Stream, Parsed, parsed, threw, read_line}

-- `headers` is the map, as a list with one entry for a key.
pub record HttpRequest : Type 0 where
  pub method : List ℕ
  pub path : List ℕ
  pub version : List ℕ
  pub headers : List (List ℕ × List ℕ)

abbrev pub empty_request : HttpRequest
empty_request = record { method = []; path = []; version = []; headers = [] }

abbrev pub space : ℕ
space = b' '

abbrev pub colon : ℕ
colon = b':'

abbrev pub is_empty : List ℕ → Bool
is_empty [] = true
is_empty (b ∷ bs) = false

-- `std::string::substr(at)`, at a position inside the string.
abbrev pub substr_from : ℕ → List ℕ → List ℕ
substr_from at s = drop at s

-- The block that splits the request line; `none` is the exception for a line without a space. The
-- second search starts behind the first space.
unfoldable pub split_request_line : List ℕ → Option HttpRequest
split_request_line line = elim (find_byte space line) [
  | none ↦ none
  | some sp1 ↦
      let tail = substr_from (sp1 + 1) line in
      elim (find_byte space tail) [
        | none ↦ some (record {
          method = take sp1 line;
          path = tail;
          version = codes "HTTP/1.0";
          headers = [];
        })
        | some n ↦ some (record {
          method = take sp1 line;
          path = take n tail;
          version = substr_from (n + 1) tail;
          headers = [];
        })
      ]
]

-- `::tolower` on ASCII.
abbrev pub tolower : ℕ → ℕ
tolower c = if leb b'A' c && leb c b'Z' then c + 32 else c

abbrev pub is_blank : ℕ → Bool
is_blank c = c == space || c == 9

unfoldable pub all_blank : List ℕ → Bool
all_blank [] = true
all_blank (c ∷ cs) = is_blank c && all_blank cs

unfoldable pub skip_blanks : List ℕ → List ℕ
skip_blanks [] = []
skip_blanks (c ∷ cs) = let rest = skip_blanks cs in if is_blank c then rest else c ∷ cs

-- `find_first_not_of(" \t")` and the `substr` behind its test: without a position, no change.
unfoldable pub trim : List ℕ → List ℕ
unfolding all_blank skip_blanks
trim value = if all_blank value then value else skip_blanks value

-- `request.headers[key] = value`
unfoldable pub set_header : List ℕ → List ℕ → List (List ℕ × List ℕ) → List (List ℕ × List ℕ)
set_header key value [] = (key, value) ∷ []
set_header key value ((k, v) ∷ headers) =
    if bytes_eq k key then (key, value) ∷ headers else (k, v) ∷ set_header key value headers

-- One header line, at its first colon: the lower-case key and the trimmed value; `none` is skipped.
unfoldable pub split_header : List ℕ → Option (List ℕ × List ℕ)
unfolding trim
split_header line = elim (find_byte colon line) [
  | none ↦ none
  | some n ↦ some (map tolower (take n line), trim (substr_from (n + 1) line))
]

unfoldable pub add_header : List ℕ → List (List ℕ × List ℕ) → List (List ℕ × List ℕ)
unfolding split_header set_header
add_header line headers = elim (split_header line) [
  | none ↦ headers
  | some (key, value) ↦ set_header key value headers
]

-- The loop over the header lines, with fuel: `none` means that it ran out.
unfoldable pub header_loop : ℕ → HttpRequest → Stream → Option (Parsed HttpRequest)
unfolding add_header
header_loop zero request s = none
header_loop (suc fuel) request s = elim (read_line s) [
  | threw e ↦ some (threw e)
  | parsed line s' ↦
      let rest =
        header_loop fuel (record request { headers = add_header line request.headers }) s' in
      if is_empty line then some (parsed request s') else rest
]

unfoldable pub parse_request : ℕ → Stream → Option (Parsed HttpRequest)
unfolding split_request_line header_loop
parse_request fuel s = elim (read_line s) [
  | threw e ↦ some (threw e)
  | parsed line s' ↦
      if is_empty line then some (parsed empty_request s') else elim (split_request_line line) [
        | none ↦ some (threw (runtime_error "malformed request line"))
        | some request ↦ header_loop fuel request s'
      ]
]
