-- ===== src/Servers/Bounds.antt =====
-- What the `main` functions of the examples (examples/*/main.cpp) accept from the command line.
use cpp_coroutine_epoll.Common.{
  ℕ, zero, suc, ◌^◌, ◌≤◌, ◌<◌, ◌≡◌, refl, Option, none, some, List, get_elem?, arith, Option-cases,
  inl, inr,
}
use cpp_coroutine_epoll.System.{Exception}
use Prim.Native.String.{String}
use cpp_coroutine_epoll.ThreadPool.Pool as ThreadPool
use cpp_coroutine_epoll.Cli.Numbers.{Parsed, returned, threw}
use cpp_coroutine_epoll.Cli.Exact.{parse_port_text_exact, parse_count_text_exact}
use cpp_coroutine_epoll.Cli.Programs.{
  Arguments, port_or, count_or, default_workers, required_port, tcp_echo_port, tcp_echo_workers,
  tcp_echo_business, tcp_echo_et_port, tcp_echo_et_workers, tcp_echo_et_business, udp_echo_port,
  udp_echo_workers, udp_echo_business, udp_echo_et_port, udp_echo_et_workers, udp_echo_et_business,
  http_port, http_workers, proxy_listen_port, proxy_backend_host, proxy_backend_port, proxy_workers,
}
use cpp_coroutine_epoll.Servers.Startup.{
  Settings, Configured, configured, and_then, pool_error, with_pool, Server, tcp_echo, tcp_echo_et,
  udp_echo, udp_echo_et, http, proxy, settings_of, tcp_echo_settings, tcp_echo_et_settings,
  udp_echo_settings, udp_echo_et_settings, http_settings, proxy_settings,
}

-- Settings with which `main` gets as far as its loop.
pub record IsRunnable (s : Settings) : Type 0 where
  pub port_pos : 0 < s.port
  pub port_le : s.port ≤ 65535
  pub workers_pos : 0 < s.workers
  pub workers_lt : s.workers < 2 ^ 64
  pub pool_fine : pool_error s.business ≡ none

port_or_bounds :
    (default n : ℕ) (arg : Option (List ℕ))
    → 0 < default
    → default ≤ 65535
    → port_or default arg ≡ returned n
    → (0 < n) × (n ≤ 65535)
port_or_bounds default n none lo hi e = ground arith
port_or_bounds default n (some text) lo hi e =
    let h = (parse_port_text_exact "port must be an integer between 1 and 65535" text n).0 e in
    (h.2, h.3)

required_port_bounds :
    (what : String) (n : ℕ) (arg : Option (List ℕ))
    → required_port what arg ≡ returned n
    → (0 < n) × (n ≤ 65535)
required_port_bounds what n none e = absurd (cc)
required_port_bounds what n (some text) e =
    let h = (parse_port_text_exact what text n).0 e in (h.2, h.3)

count_or_bounds :
    (what : String) (default n : ℕ) (arg : Option (List ℕ))
    → 0 < default
    → default < 2 ^ 64
    → count_or what default arg ≡ returned n
    → (0 < n) × (n < 2 ^ 64)
count_or_bounds what default n none lo hi e = ground arith
count_or_bounds what default n (some text) lo hi e =
    let h = (parse_count_text_exact what text n).0 e in (h.2, h.3)

pool_error_pos : (n : ℕ) → 0 < n → pool_error (some n) ≡ none
unfolding pool_error ThreadPool.construct
pool_error_pos zero h = absurd (omega arith)
pool_error_pos (suc n) h = refl

-- Inversion of a step of a `main` that has come to settings.
and_then_cases :
    (p : Parsed) (rest : ℕ → Configured) (s : Settings)
    → and_then p rest ≡ configured s
    → (n : ℕ) × (p ≡ returned n) × (rest n ≡ configured s)
unfolding and_then
and_then_cases (returned n) rest s e = (n, refl, e)
and_then_cases (threw x) rest s e = absurd (cc)

with_pool_bounds :
    (port workers : ℕ) (arg : Option (List ℕ)) (what : String) (s : Settings)
    → (0 < port) × (port ≤ 65535)
    → (0 < workers) × (workers < 2 ^ 64)
    → with_pool port workers (count_or what workers arg) ≡ configured s
    → IsRunnable s
with_pool_bounds port workers arg what s hp hw e =
    let (b, got, same) = and_then_cases (count_or what workers arg) _ s e in
    let fine = pool_error_pos b (count_or_bounds what workers b arg hw.0 hw.1 got).0 in
    ground (arith, fine)

-- The settings of an echo server, from its three arguments.
echo_bounds :
    (default hardware : ℕ) (argv : Arguments) (what why : String) (s : Settings)
    → 0 < default
    → default ≤ 65535
    → hardware < 2 ^ 64
    → and_then (port_or default (get_elem? argv 1)) (λ port.
      and_then
        (count_or what (default_workers hardware) (get_elem? argv 2))
        (λ workers. with_pool port workers (count_or why workers (get_elem? argv 3))))
      ≡ configured s
    → IsRunnable s
echo_bounds default hardware argv what why s lo hi small e =
    let (port, p, e') = and_then_cases _ _ s e in
    let (workers, w, e'') = and_then_cases _ _ s e' in
    with_pool_bounds port workers (get_elem? argv 3) why s
      (port_or_bounds default port (get_elem? argv 1) lo hi p)
      (count_or_bounds what (default_workers hardware) workers (get_elem? argv 2) (ground arith)
        (ground arith) w)
      e''

plain_bounds :
    (port workers : ℕ) (s : Settings)
    → (0 < port) × (port ≤ 65535)
    → (0 < workers) × (workers < 2 ^ 64)
    → configured (record { port = port; workers = workers; business = none }) ≡ configured s
    → IsRunnable s
unfolding pool_error
plain_bounds port workers s hp hw e = ground arith

http_bounds :
    (hardware : ℕ) (argv : Arguments) (loaded : Option Exception) (s : Settings)
    → hardware < 2 ^ 64
    → http_settings hardware argv loaded ≡ configured s
    → IsRunnable s
unfolding http_settings http_port http_workers
http_bounds hardware argv (some x) s small e = absurd (cc)
http_bounds hardware argv none s small e =
    let (port, p, e') = and_then_cases _ _ s e in
    let (workers, w, e'') = and_then_cases _ _ s e' in
    plain_bounds port workers s
      (port_or_bounds 8080 port (get_elem? argv 1) (omega arith) (omega arith) p)
      (count_or_bounds _ (default_workers hardware) workers (get_elem? argv 2) (ground arith)
        (ground arith) w)
      e''

proxy_bounds :
    (hardware : ℕ) (argv : Arguments) (s : Settings)
    → hardware < 2 ^ 64
    → proxy_settings hardware argv ≡ configured s
    → IsRunnable s
unfolding proxy_settings proxy_listen_port proxy_backend_port proxy_workers
proxy_bounds hardware argv s small e =
    let (port, p, e') = and_then_cases _ _ s e in
    elim (Option-cases (proxy_backend_host argv)) [
      | inl missing ↦ absurd (ground arith)
      | inr (host, found) ↦
          let (backend, b, e'') = and_then_cases _ _ s (rw (found, proxy_settings) at e') in
          let (workers, w, e''') = and_then_cases _ _ s e'' in
          plain_bounds port workers s (required_port_bounds _ port (get_elem? argv 1) p)
            (count_or_bounds _ (default_workers hardware) workers (get_elem? argv 4) (ground arith)
              (ground arith) w)
            e'''
    ]

-- Whatever the command line of a server, if its `main` gets settings from it: the port is from 1 to
-- 65535, the number of threads from 1 to 2 ^ 64 - 1, and the thread pool, if the server has one, can
-- be constructed, provided that std::thread::hardware_concurrency is below 2 ^ 64.
pub settings_bounds :
    (server : Server) (hardware : ℕ) (argv : Arguments) (loaded : Option Exception) (s : Settings)
    → hardware < 2 ^ 64
    → settings_of hardware argv loaded server ≡ configured s
    → IsRunnable s
unfolding settings_of tcp_echo_settings tcp_echo_et_settings udp_echo_settings udp_echo_et_settings
    tcp_echo_port tcp_echo_workers tcp_echo_business tcp_echo_et_port tcp_echo_et_workers
    tcp_echo_et_business udp_echo_port udp_echo_workers udp_echo_business udp_echo_et_port
    udp_echo_et_workers udp_echo_et_business
settings_bounds tcp_echo hardware argv loaded s small e =
    echo_bounds 8888 hardware argv _ _ s (omega arith) (omega arith) small e
settings_bounds tcp_echo_et hardware argv loaded s small e =
    echo_bounds 8888 hardware argv _ _ s (omega arith) (omega arith) small e
settings_bounds udp_echo hardware argv loaded s small e =
    echo_bounds 8080 hardware argv _ _ s (omega arith) (omega arith) small e
settings_bounds udp_echo_et hardware argv loaded s small e =
    echo_bounds 8080 hardware argv _ _ s (omega arith) (omega arith) small e
settings_bounds http hardware argv loaded s small e = http_bounds hardware argv loaded s small e
settings_bounds proxy hardware argv loaded s small e = proxy_bounds hardware argv s small e
