-- ===== src/Cli/Exact.antt =====
-- Which arguments the servers accept (examples/*/main.cpp), against the decimal numbers.
use Prim.Native.String.{String}
use cpp_coroutine_epoll.Common.{
  ℕ, ◌+◌, ◌-◌, ◌*◌, ◌^◌, ◌≤◌, ◌<◌, ◌≡◌, ◌↔◌, refl, List, [], ◌∷◌, All, arith,
}
use cpp_coroutine_epoll.Cli.Numbers.{scan, returned, parse_port_text, parse_count_text}

abbrev pub IsDigit : ℕ → Type 0
IsDigit c = (b'0' ≤ c) × (c ≤ b'9')

-- The number that a text of digits spells behind `n`.
pub decimal : ℕ → List ℕ → ℕ
decimal n [] = n
decimal n (c ∷ text) = decimal (n * 10 + (c - b'0')) text

scan-All :
    (text : List ℕ) (n : ℕ)
    → ((scan n text).1 ≡ [])
    → All IsDigit text × ((scan n text).0 ≡ decimal n text)
unfolding scan decimal
scan-All [] n h = (tt, refl)
scan-All (c ∷ text) n h = ground (arith, scan-All text (n * 10 + (c - b'0')))

scan-decimal : (text : List ℕ) (n : ℕ) → All IsDigit text → scan n text ≡ (decimal n text, [])
unfolding scan decimal
scan-decimal [] n h = refl
scan-decimal (c ∷ text) n h = ground (arith, scan-decimal text (n * 10 + (c - b'0')) h.1)

-- An argument is taken as the port `p` exactly when it consists of decimal digits that spell `p`, and
-- `p` is from 1 to 65535: signs, blanks, an empty text and numbers beyond any width are refused.
pub parse_port_text_exact :
    (what : String) (text : List ℕ) (p : ℕ)
    → (parse_port_text what text ≡ returned p)
      ↔ (All IsDigit text × (decimal 0 text ≡ p) × (0 < p) × (p ≤ 65535))
unfolding parse_port_text scan decimal
parse_port_text_exact what [] p = ground arith
parse_port_text_exact what (c ∷ text) p = (
  (λ e. ground (arith, scan-All (c ∷ text) 0)),
  (λ h. ground (arith, scan-decimal (c ∷ text) 0 h.0)),
)

-- Likewise for a number of threads, which is from 1 to 2 ^ 64 - 1.
pub parse_count_text_exact :
    (what : String) (text : List ℕ) (n : ℕ)
    → (parse_count_text what text ≡ returned n)
      ↔ (All IsDigit text × (decimal 0 text ≡ n) × (0 < n) × (n < 2 ^ 64))
unfolding parse_count_text scan decimal
parse_count_text_exact what [] n = ground arith
parse_count_text_exact what (c ∷ text) n = (
  (λ e. ground (arith, scan-All (c ∷ text) 0)),
  (λ h. ground (arith, scan-decimal (c ∷ text) 0 h.0)),
)
