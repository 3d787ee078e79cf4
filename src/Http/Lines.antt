-- ===== src/Http/Lines.antt =====
-- `read_line` of examples/http-server/main.cpp. What the socket still delivers is a list of bytes, and
-- behind them the end of the stream or an error that `async_read` throws.
use cpp_coroutine_epoll.Common.{
  ℕ, suc, ◌-◌, ◌≤◌, ◌<◌, ◌≡◌, ◌≢◌, refl, ap, ◌∙◌, Bool, true, false, ◌&&◌, Option, none, some, List,
  [], ◌∷◌, ◌++◌, append_assoc, append-nil, arith, length, take, get_elem?, take-append,
  length-append, ◌==◌, leb, if◌then◌else◌, ◌⊎◌,
}
use cpp_coroutine_epoll.Common.Bytes.{Lacks}
use cpp_coroutine_epoll.System.{Exception}

-- The bytes still to come, and how the stream ends: `none` is its orderly end.
pub record Stream : Type 0 where
  pub bytes : List ℕ
  pub broken : Option Exception

-- A value with the rest of the stream, or an exception.
pub data Parsed (A : Type 0) : Type 0 where
  parsed : A → Stream → Parsed A
  threw : Exception → Parsed A

abbrev pub cr : ℕ
cr = 13

abbrev pub lf : ℕ
lf = 10

abbrev pub is_byte : Option ℕ → ℕ → Bool
is_byte none c = false
is_byte (some x) c = x == c

-- `line.size() >= 2 && line[line.size() - 2] == '\r' && line[line.size() - 1] == '\n'`
unfoldable pub ends_line : List ℕ → Bool
ends_line line =
    leb 2 (length line)
    && (is_byte (get_elem? line (length line - 2)) cr
        && is_byte (get_elem? line (length line - 1)) lf)

unfoldable pub read_line_loop : List ℕ → List ℕ → Option Exception → Parsed (List ℕ)
unfolding ends_line
read_line_loop line [] none = parsed line (record { bytes = []; broken = none })
read_line_loop line [] (some e) = threw e
read_line_loop line (c ∷ bytes) broken =
    let line' = line ++ c ∷ [] in
    let rest = read_line_loop line' bytes broken in
    if ends_line line'
    then parsed (take (length line' - 2) line') (record { bytes = bytes; broken = broken })
    else rest

unfoldable pub read_line : Stream → Parsed (List ℕ)
unfolding read_line_loop
read_line s = read_line_loop [] s.bytes s.broken

get-last : (line : List ℕ) (c : ℕ) → get_elem? (line ++ c ∷ []) (length line) ≡ some c
get-last [] c = refl
get-last (x ∷ line) c = get-last line c

ends_line-last : (line : List ℕ) (c : ℕ) → c ≢ lf → ends_line (line ++ c ∷ []) ≡ false
unfolding ends_line
ends_line-last line c ne =
    let size : length (line ++ c ∷ []) - 1 ≡ length line =
      omega (arith, length-append line (c ∷ [])) in
    rw size (rw (get-last line c) (ground arith))

get-two : (line : List ℕ) (c d : ℕ) → get_elem? (line ++ c ∷ d ∷ []) (length line) ≡ some c
get-two [] c d = refl
get-two (x ∷ line) c d = get-two line c d

get-two_last :
    (line : List ℕ) (c d : ℕ) → get_elem? (line ++ c ∷ d ∷ []) (suc (length line)) ≡ some d
get-two_last [] c d = refl
get-two_last (x ∷ line) c d = get-two_last line c d

ends_line-crlf : (line : List ℕ) → ends_line (line ++ cr ∷ lf ∷ []) ≡ true
unfolding ends_line
ends_line-crlf line =
    let size : length (line ++ cr ∷ lf ∷ []) ≡ suc (suc (length line)) =
      omega (arith, length-append line (cr ∷ lf ∷ [])) in
    let first : suc (suc (length line)) - 2 ≡ length line = omega arith in
    let second : suc (suc (length line)) - 1 ≡ suc (length line) = omega arith in
    rw (size, first, second, get-two line cr lf, get-two_last line cr lf) (ground arith)

strip-crlf :
    (line : List ℕ) → take (length (line ++ cr ∷ lf ∷ []) - 2) (line ++ cr ∷ lf ∷ []) ≡ line
strip-crlf line =
    let size : length (line ++ cr ∷ lf ∷ []) - 2 ≡ length line =
      omega (arith, length-append line (cr ∷ lf ∷ [])) in
    rw size (take-append line (cr ∷ lf ∷ []))

read_line_loop-crlf :
    (front todo rest : List ℕ) (broken : Option Exception)
    → Lacks lf todo
    → read_line_loop front (todo ++ cr ∷ lf ∷ rest) broken
      ≡ parsed (front ++ todo) (record { bytes = rest; broken = broken })
unfolding read_line_loop
read_line_loop-crlf front [] rest broken h =
    let joined : (front ++ cr ∷ []) ++ lf ∷ [] ≡ front ++ cr ∷ lf ∷ [] =
      append_assoc front (cr ∷ []) (lf ∷ []) in
    rw (
      ends_line-last front cr (omega arith),
      joined,
      ends_line-crlf front,
      strip-crlf front,
      append-nil front,
    )
read_line_loop-crlf front (x ∷ todo) rest broken h = rw (ends_line-last front x h.0) (
    read_line_loop-crlf (front ++ x ∷ []) todo rest broken h.1
    ∙ ap (λ l. parsed l (record { bytes = rest; broken = broken }))
        (append_assoc front (x ∷ []) todo))

read_line_loop-end :
    (front todo : List ℕ)
    → Lacks lf todo
    → read_line_loop front todo none ≡ parsed (front ++ todo) (record { bytes = []; broken = none })
unfolding read_line_loop
read_line_loop-end front [] h = rw (append-nil front)
read_line_loop-end front (x ∷ todo) h = rw (ends_line-last front x h.0) (
    read_line_loop-end (front ++ x ∷ []) todo h.1
    ∙ ap (λ l. parsed l (record { bytes = []; broken = none })) (append_assoc front (x ∷ []) todo))

abbrev pub stream : List ℕ → Option Exception → Stream
stream bytes broken = record { bytes = bytes; broken = broken }

-- A line with no line feed in it, followed by CR LF, is read as it is, and the stream goes on behind
-- the line feed; one that the end of the stream cuts off is read just the same, as if complete.
pub read_line-line :
    (line rest : List ℕ) (broken : Option Exception)
    → Lacks lf line
    → (read_line (stream (line ++ cr ∷ lf ∷ rest) broken) ≡ parsed line (stream rest broken))
      × (read_line (stream line none) ≡ parsed line (stream [] none))
unfolding read_line
read_line-line line rest broken h =
    (read_line_loop-crlf [] line rest broken h, read_line_loop-end [] line h)

read_line_loop-le :
    (front bytes line : List ℕ) (broken : Option Exception) (s : Stream)
    → read_line_loop front bytes broken ≡ parsed line s
    → length s.bytes ≤ length bytes
unfolding read_line_loop
read_line_loop-le front [] line none s e = ground arith
read_line_loop-le front [] line (some x) s e = absurd (cc)
read_line_loop-le front (c ∷ bytes) line broken s e =
    ground (arith, read_line_loop-le (front ++ c ∷ []) bytes line broken s)

-- A line takes bytes from the stream, unless there are none.
read_line_loop-shorter :
    (front bytes line : List ℕ) (broken : Option Exception) (s : Stream)
    → read_line_loop front bytes broken ≡ parsed line s
    → (line ≡ front) ⊎ (length s.bytes < length bytes)
unfolding read_line_loop
read_line_loop-shorter front [] line none s e = ground arith
read_line_loop-shorter front [] line (some x) s e = absurd (cc)
read_line_loop-shorter front (c ∷ bytes) line broken s e =
    ground (arith, read_line_loop-le (front ++ c ∷ []) bytes line broken s)

pub read_line-shorter :
    (s s' : Stream) (line : List ℕ)
    → read_line s ≡ parsed line s'
    → (line ≡ []) ⊎ (length s'.bytes < length s.bytes)
unfolding read_line
read_line-shorter s s' line e = read_line_loop-shorter [] s.bytes line s.broken s' e

pub read_line-le :
    (s s' : Stream) (line : List ℕ)
    → read_line s ≡ parsed line s'
    → length s'.bytes ≤ length s.bytes
unfolding read_line
read_line-le s s' line e = read_line_loop-le [] s.bytes line s.broken s' e
