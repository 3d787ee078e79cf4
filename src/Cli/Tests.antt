-- ===== src/Cli/Tests.antt =====
-- An argument that is a port.
use cpp_coroutine_epoll.Common.{◌≡◌, ◌≤◌, ◌<◌, ◌↔◌, List, [], ◌∷◌, ℕ, All}
use cpp_coroutine_epoll.Cli.Numbers.{returned, parse_port_text}
use cpp_coroutine_epoll.Cli.Exact.{IsDigit, decimal, parse_port_text_exact}

-- "8080"
abbrev text : List ℕ
text = 56 ∷ 48 ∷ 56 ∷ 48 ∷ []

parse_port_text_exact_example :
    (parse_port_text "port" text ≡ returned 8080)
    ↔ (All IsDigit text × (decimal 0 text ≡ 8080) × (0 < 8080) × (8080 ≤ 65535))
parse_port_text_exact_example = parse_port_text_exact "port" text 8080
