-- ===== src/Servers/Startup.antt =====
-- The `main` functions of examples/*/main.cpp: the settings from the command line, a group of event
-- loops, and one listening socket for each of them, whose accept loop is posted to it.
use cpp_coroutine_epoll.Common.{ℕ, zero, suc, ◌+◌, Option, none, some, List, [], ◌∷◌, ◌++◌}
use cpp_coroutine_epoll.System.{Exception}
use cpp_coroutine_epoll.ThreadPool.Pool as ThreadPool
use cpp_coroutine_epoll.WorkerGroup.Group.{WorkerGroup, constructed, refused, construct, next}
use cpp_coroutine_epoll.Cli.Numbers.{Parsed, returned, threw}
use cpp_coroutine_epoll.Cli.Programs.{
  Arguments, tcp_echo_port, tcp_echo_workers, tcp_echo_business, tcp_echo_et_port,
  tcp_echo_et_workers, tcp_echo_et_business, udp_echo_port, udp_echo_workers, udp_echo_business,
  udp_echo_et_port, udp_echo_et_workers, udp_echo_et_business, http_port, http_workers,
  proxy_listen_port, proxy_backend_host, proxy_backend_port, proxy_workers, usage_error,
}

-- The numbers that a `main` reads: `business` only where it has a thread pool.
pub record Settings : Type 0 where
  pub port : ℕ
  pub workers : ℕ
  pub business : Option ℕ

pub data Configured : Type 0 where
  configured : Settings → Configured
  rejected : Exception → Configured

-- One statement of a `main` behind another.
unfoldable pub and_then : Parsed → (ℕ → Configured) → Configured
and_then (returned n) rest = rest n
and_then (threw e) rest = rejected e

-- What `main` has done in its `for` loop: `servers` has the loop of each socket in the vector, and
-- `posted` the loops that a callback has been posted to, which refers to the socket at the same place.
pub record Startup : Type 0 where
  pub group : WorkerGroup
  pub servers : List ℕ
  pub posted : List ℕ

-- `setup i` is what `listen`, or `bind`, of the i-th socket throws.
unfoldable pub start_servers : ℕ → ℕ → (ℕ → Option Exception) → Startup → Startup × Option Exception
start_servers zero i setup s = (s, none)
start_servers (suc k) i setup s =
    let (loop, group) = next s.group in
    let rest = start_servers k (i + 1) setup (record {
      group = group;
      servers = s.servers ++ loop ∷ [];
      posted = s.posted ++ loop ∷ [];
    }) in
    elim (setup i) [ some e ↦ (record s { group = group }, some e) | none ↦ rest ]

-- How a `main` stands: in `workers.join()`, or returning 1 after it has printed an exception. Then
-- the sockets of `destroyed` have been destroyed, while `posted` is with loops that still run.
pub data MainEnd : Type 0 where
  joining : Startup → MainEnd
  failed : (e : Exception) (destroyed posted : List ℕ) → MainEnd

-- A pool that cannot be constructed, if there is one.
unfoldable pub pool_error : Option ℕ → Option Exception
pool_error none = none
pool_error (some n) = elim (ThreadPool.construct n) [
  | ThreadPool.constructed count pool ↦ none
  | ThreadPool.refused e ↦ some e
]

unfoldable pub run_settings : Settings → (ℕ → Option Exception) → MainEnd
unfolding start_servers pool_error
run_settings s setup = elim (construct s.workers) [
  | refused e ↦ failed e [] []
  | constructed group ↦ elim (pool_error s.business) [
    | some e ↦ failed e [] []
    | none ↦
        let (started, thrown) =
          start_servers s.workers 0 setup (record { group = group; servers = []; posted = [] }) in
        elim thrown [ none ↦ joining started | some e ↦ failed e started.servers started.posted ]
  ]
]

unfoldable pub run_main : Configured → (ℕ → Option Exception) → MainEnd
unfolding run_settings
run_main (configured s) setup = run_settings s setup
run_main (rejected e) setup = failed e [] []

abbrev pub with_pool : ℕ → ℕ → Parsed → Configured
with_pool port workers business =
    and_then business λ b. configured (record { port = port; workers = workers; business = some b })

module _ (hardware : ℕ) (argv : Arguments) where
  unfoldable pub tcp_echo_settings : Configured
  tcp_echo_settings = and_then (tcp_echo_port argv) λ port.
      and_then (tcp_echo_workers hardware argv)
        λ workers. with_pool port workers (tcp_echo_business argv workers)

  unfoldable pub tcp_echo_et_settings : Configured
  tcp_echo_et_settings = and_then (tcp_echo_et_port argv) λ port.
      and_then (tcp_echo_et_workers hardware argv)
        λ workers. with_pool port workers (tcp_echo_et_business argv workers)

  unfoldable pub udp_echo_settings : Configured
  udp_echo_settings = and_then (udp_echo_port argv) λ port.
      and_then (udp_echo_workers hardware argv)
        λ workers. with_pool port workers (udp_echo_business argv workers)

  unfoldable pub udp_echo_et_settings : Configured
  udp_echo_et_settings = and_then (udp_echo_et_port argv) λ port.
      and_then (udp_echo_et_workers hardware argv)
        λ workers. with_pool port workers (udp_echo_et_business argv workers)

  -- `loaded` is what `load_static_files` throws: see `loading_error` in Http/Files.antt.
  unfoldable pub http_settings : Option Exception → Configured
  http_settings (some e) = rejected e
  http_settings none = and_then (http_port argv) λ port.
      and_then (http_workers hardware argv)
        λ workers. configured (record { port = port; workers = workers; business = none })

  -- The port is the one that the proxy listens on.
  unfoldable pub proxy_settings : Configured
  proxy_settings = and_then (proxy_listen_port argv) λ port. elim (proxy_backend_host argv) [
    | none ↦ rejected usage_error
    | some host ↦ and_then (proxy_backend_port argv) λ backend.
        and_then (proxy_workers hardware argv)
          λ workers. configured (record { port = port; workers = workers; business = none })
  ]

-- The six `main` functions.
module _ (hardware : ℕ) (argv : Arguments) (setup : ℕ → Option Exception) where
  unfoldable pub tcp_echo_main : MainEnd
  tcp_echo_main = run_main (tcp_echo_settings hardware argv) setup

  unfoldable pub tcp_echo_et_main : MainEnd
  tcp_echo_et_main = run_main (tcp_echo_et_settings hardware argv) setup

  unfoldable pub udp_echo_main : MainEnd
  udp_echo_main = run_main (udp_echo_settings hardware argv) setup

  unfoldable pub udp_echo_et_main : MainEnd
  udp_echo_et_main = run_main (udp_echo_et_settings hardware argv) setup

  unfoldable pub http_main : Option Exception → MainEnd
  http_main loaded = run_main (http_settings hardware argv loaded) setup

  unfoldable pub proxy_main : MainEnd
  proxy_main = run_main (proxy_settings hardware argv) setup

-- The six of them under one name; `loaded` matters to the HTTP server only.
pub data Server : Type 0 where
  tcp_echo tcp_echo_et udp_echo udp_echo_et http proxy : Server

module _ (hardware : ℕ) (argv : Arguments) (loaded : Option Exception) where
  unfoldable pub settings_of : Server → Configured
  settings_of tcp_echo = tcp_echo_settings hardware argv
  settings_of tcp_echo_et = tcp_echo_et_settings hardware argv
  settings_of udp_echo = udp_echo_settings hardware argv
  settings_of udp_echo_et = udp_echo_et_settings hardware argv
  settings_of http = http_settings hardware argv loaded
  settings_of proxy = proxy_settings hardware argv

  unfoldable pub main_of : (ℕ → Option Exception) → Server → MainEnd
  main_of setup tcp_echo = tcp_echo_main hardware argv setup
  main_of setup tcp_echo_et = tcp_echo_et_main hardware argv setup
  main_of setup udp_echo = udp_echo_main hardware argv setup
  main_of setup udp_echo_et = udp_echo_et_main hardware argv setup
  main_of setup http = http_main hardware argv setup loaded
  main_of setup proxy = proxy_main hardware argv setup
