-- ===== src/Cli/Programs.antt =====
-- The arguments of each example server (examples/*/main.cpp). `argv` holds the program's name and the
-- arguments, so that `argc < n + 1` is to have no entry at `n`; `hardware` is what
-- std::thread::hardware_concurrency returns.
use Prim.Native.String.{String}
use cpp_coroutine_epoll.Common.{ℕ, Option, none, some, List, get_elem?, ◌==◌, if◌then◌else◌}
use cpp_coroutine_epoll.System.{Exception, runtime_error}
use cpp_coroutine_epoll.Cli.Numbers.{Parsed, returned, threw, parse_port_text, parse_count_text}

abbrev pub Arguments : Type 0
Arguments = List (List ℕ)

abbrev pub port_or : ℕ → Option (List ℕ) → Parsed
port_or default none = returned default
port_or default (some text) = parse_port_text "port must be an integer between 1 and 65535" text

abbrev pub count_or : String → ℕ → Option (List ℕ) → Parsed
count_or what default none = returned default
count_or what default (some text) = parse_count_text what text

abbrev pub default_workers : ℕ → ℕ
default_workers hardware = if hardware == 0 then 4 else hardware

abbrev pub count_error : String
count_error = "worker count must be a positive integer"

abbrev pub business_error : String
business_error = "business worker count must be a positive integer"

-- examples/tcp-echo-server/main.cpp
unfoldable pub tcp_echo_port : Arguments → Parsed
tcp_echo_port argv = port_or 8888 (get_elem? argv 1)

unfoldable pub tcp_echo_workers : ℕ → Arguments → Parsed
tcp_echo_workers hardware argv = count_or count_error (default_workers hardware) (get_elem? argv 2)

unfoldable pub tcp_echo_business : Arguments → ℕ → Parsed
tcp_echo_business argv default = count_or business_error default (get_elem? argv 3)

-- examples/tcp-echo-server-et/main.cpp
unfoldable pub tcp_echo_et_port : Arguments → Parsed
tcp_echo_et_port argv = port_or 8888 (get_elem? argv 1)

unfoldable pub tcp_echo_et_workers : ℕ → Arguments → Parsed
tcp_echo_et_workers hardware argv =
    count_or count_error (default_workers hardware) (get_elem? argv 2)

unfoldable pub tcp_echo_et_business : Arguments → ℕ → Parsed
tcp_echo_et_business argv default = count_or business_error default (get_elem? argv 3)

-- examples/udp-echo-server/main.cpp
unfoldable pub udp_echo_port : Arguments → Parsed
udp_echo_port argv = port_or 8080 (get_elem? argv 1)

unfoldable pub udp_echo_workers : ℕ → Arguments → Parsed
udp_echo_workers hardware argv = count_or count_error (default_workers hardware) (get_elem? argv 2)

unfoldable pub udp_echo_business : Arguments → ℕ → Parsed
udp_echo_business argv default = count_or business_error default (get_elem? argv 3)

-- examples/udp-echo-server-et/main.cpp
unfoldable pub udp_echo_et_port : Arguments → Parsed
udp_echo_et_port argv = port_or 8080 (get_elem? argv 1)

unfoldable pub udp_echo_et_workers : ℕ → Arguments → Parsed
udp_echo_et_workers hardware argv =
    count_or count_error (default_workers hardware) (get_elem? argv 2)

unfoldable pub udp_echo_et_business : Arguments → ℕ → Parsed
udp_echo_et_business argv default = count_or business_error default (get_elem? argv 3)

-- examples/http-server/main.cpp
unfoldable pub http_port : Arguments → Parsed
http_port argv = port_or 8080 (get_elem? argv 1)

unfoldable pub http_workers : ℕ → Arguments → Parsed
http_workers hardware argv = count_or count_error (default_workers hardware) (get_elem? argv 2)

-- examples/proxy-server/main.cpp
abbrev pub usage : String
usage = "usage: proxy_server <listen_port> <backend_host> <backend_port> [worker_count]"

abbrev pub usage_error : Exception
usage_error = runtime_error usage

abbrev pub required_port : String → Option (List ℕ) → Parsed
required_port what none = threw usage_error
required_port what (some text) = parse_port_text what text

unfoldable pub proxy_listen_port : Arguments → Parsed
proxy_listen_port argv =
    required_port "listen port must be an integer between 1 and 65535" (get_elem? argv 1)

-- `none` is the exception with the usage.
unfoldable pub proxy_backend_host : Arguments → Option (List ℕ)
proxy_backend_host argv = get_elem? argv 2

unfoldable pub proxy_backend_port : Arguments → Parsed
proxy_backend_port argv =
    required_port "backend port must be an integer between 1 and 65535" (get_elem? argv 3)

unfoldable pub proxy_workers : ℕ → Arguments → Parsed
proxy_workers hardware argv = count_or count_error (default_workers hardware) (get_elem? argv 4)
