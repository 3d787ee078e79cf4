-- ===== src/Cli/Numbers.antt =====
-- What the `parse_…` functions of examples/*/main.cpp share: std::from_chars on the whole of an
-- argument, and the tests of its result. A text is a list of bytes.
use Prim.Native.String.{String}
use cpp_coroutine_epoll.Common.{
  ℕ, ◌+◌, ◌-◌, ◌*◌, ◌^◌, Bool, true, false, not, ◌&&◌, ◌||◌, List, [], ◌∷◌, ◌==◌, ltb, leb,
  if◌then◌else◌,
}
use cpp_coroutine_epoll.System.{Exception, runtime_error}

-- What std::from_chars leaves: the number, what stands behind `ptr`, and `error != std::errc{}`.
pub record FromChars : Type 0 where
  pub value : ℕ
  pub rest : List ℕ
  pub error : Bool

abbrev pub is_digit : ℕ → Bool
is_digit c = leb b'0' c && leb c b'9'

-- The number that the digits at the front of a text spell behind `n`, and what follows them.
unfoldable pub scan : ℕ → List ℕ → ℕ × List ℕ
scan n [] = (n, [])
scan n (c ∷ text) =
    let more = scan (n * 10 + (c - b'0')) text in if is_digit c then more else (n, c ∷ text)

abbrev pub starts_with_digit : List ℕ → Bool
starts_with_digit [] = false
starts_with_digit (c ∷ text) = is_digit c

-- For an unsigned type of `bits` bits: no digit is invalid_argument, a number that does not fit is
-- result_out_of_range, and both leave the variable, which the callers have set to 0.
unfoldable pub from_chars : ℕ → List ℕ → FromChars
unfolding scan
from_chars bits text =
    let (n, rest) = scan 0 text in
    if starts_with_digit text
    then record { value = if ltb n (2 ^ bits) then n else 0; rest = rest; error = leb (2 ^ bits) n }
    else record { value = 0; rest = text; error = true }

abbrev pub is_empty : List ℕ → Bool
is_empty [] = true
is_empty (c ∷ text) = false

-- What a `parse_…` function comes to.
pub data Parsed : Type 0 where
  returned : ℕ → Parsed
  threw : Exception → Parsed

-- A std::uint32_t read from the argument, as a port; `what` is the text of the exception.
unfoldable pub parse_port_text : String → List ℕ → Parsed
unfolding from_chars
parse_port_text what text =
    let r = from_chars 32 text in
    if r.error || not (is_empty r.rest) || r.value == 0 || ltb 65535 r.value
    then threw (runtime_error what)
    else returned r.value

-- A std::size_t of 64 bits, as a number of threads.
unfoldable pub parse_count_text : String → List ℕ → Parsed
unfolding from_chars
parse_count_text what text =
    let r = from_chars 64 text in
    if r.error || not (is_empty r.rest) || r.value == 0
    then threw (runtime_error what)
    else returned r.value
