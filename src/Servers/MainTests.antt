-- ===== src/Servers/MainTests.antt =====
-- The TCP echo server with two threads, started and failing to start.
use cpp_coroutine_epoll.Common.{
  ℕ, ◌<◌, ◌≡◌, refl, Option, none, some, [], ◌∷◌, ◌==◌, if◌then◌else◌, arith,
}
use cpp_coroutine_epoll.Common.Family.{count}
use cpp_coroutine_epoll.System.{Exception, system_error, ebadf}
use cpp_coroutine_epoll.Cli.Numbers.{parse_port_text, parse_count_text, from_chars, scan}
use cpp_coroutine_epoll.Cli.Programs.{Arguments, tcp_echo_port, tcp_echo_workers, tcp_echo_business}
use cpp_coroutine_epoll.Servers.Startup.{
  Settings, configured, Startup, joining, and_then, tcp_echo_settings, tcp_echo, settings_of,
  main_of,
}
use cpp_coroutine_epoll.Servers.Bounds.{IsRunnable, settings_bounds}
use cpp_coroutine_epoll.Servers.Balanced.{main_balanced}

-- "echo", "8888", "2".
abbrev argv : Arguments
argv = (101 ∷ 99 ∷ 104 ∷ 111 ∷ []) ∷ (56 ∷ 56 ∷ 56 ∷ 56 ∷ []) ∷ (50 ∷ []) ∷ []

abbrev two_workers : Settings
two_workers = record { port = 8888; workers = 2; business = some 2 }

configured_so : settings_of 4 argv none tcp_echo ≡ configured two_workers
unfolding settings_of tcp_echo_settings tcp_echo_port tcp_echo_workers tcp_echo_business and_then
    parse_port_text parse_count_text from_chars scan
configured_so = refl

settings_bounds_example : IsRunnable two_workers
settings_bounds_example =
    settings_bounds tcp_echo 4 argv none two_workers (omega arith) configured_so

main_balanced_example :
    (st : Startup) × (main_of 4 argv none (λ j. none) tcp_echo ≡ joining st)
    × ((i : ℕ) → i < 2 → (count i st.servers ≡ 1) × (count i st.posted ≡ 1))
main_balanced_example =
    main_balanced tcp_echo 4 argv none (λ j. none) two_workers (omega arith) configured_so
      (λ j. refl)

-- The second socket cannot be set up.
abbrev second_fails : ℕ → Option Exception
second_fails j = if j == 1 then some (system_error ebadf "bind") else none
