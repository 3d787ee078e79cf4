-- ===== src/Http/Client.antt =====
-- `handle_client` of examples/http-server/main.cpp: the requests of one connection, one after the other.
use cpp_coroutine_epoll.Common.{ℕ, suc, Option, none, some, List, [], ◌∷◌, length, if◌then◌else◌}
use cpp_coroutine_epoll.System.{Exception, is_std}
use cpp_coroutine_epoll.Http.Lines.{Stream, parsed, threw}
use cpp_coroutine_epoll.Http.Request.{is_empty, parse_request}
use cpp_coroutine_epoll.Http.Response.{StaticFiles, to_string, handle_route}

-- How the coroutine stands: it has come to its end with the connection, or after an exception whose
-- text it printed; an exception left it; it is waiting in `async_write`; or the model ran out of fuel.
pub data ClientEnd : Type 0 where
  closed writing no_fuel : ClientEnd
  printed escaped : Exception → ClientEnd

-- `responses` are the texts that have been written, oldest first.
pub record Serving : Type 0 where
  pub responses : List (List ℕ)
  pub end_state : ClientEnd

abbrev pub ends : ClientEnd → Serving
ends e = record { responses = []; end_state = e }

-- The handler of `catch (const std::exception&)`.
abbrev pub caught : Exception → Serving
caught e = if is_std e then ends (printed e) else ends (escaped e)

abbrev pub answered : List ℕ → Serving → Serving
answered text rest = record rest { responses = text ∷ rest.responses }

-- `writes` is how each `async_write` ends: `none` if it returns. A request gets one more unit of fuel
-- than there are bytes to come.
unfoldable pub handle_client :
    (ℕ → List ℕ) → StaticFiles → List (Option Exception) → Stream → Serving
handle_client digits files [] s = elim (parse_request (suc (length s.bytes)) s) [
  | none ↦ ends no_fuel
  | some (threw e) ↦ caught e
  | some (parsed request s') ↦ if is_empty request.method then ends closed else ends writing
]
handle_client digits files (none ∷ writes) s = elim (parse_request (suc (length s.bytes)) s) [
  | none ↦ ends no_fuel
  | some (threw e) ↦ caught e
  | some (parsed request s') ↦
      let rest = handle_client digits files writes s' in
      if is_empty request.method
      then ends closed
      else answered (to_string digits (handle_route files request)) rest
]
handle_client digits files (some e ∷ writes) s = elim (parse_request (suc (length s.bytes)) s) [
  | none ↦ ends no_fuel
  | some (threw x) ↦ caught x
  | some (parsed request s') ↦ if is_empty request.method then ends closed else caught e
]
