-- ===== src/Udp/Endpoint.antt =====
-- `UdpEndpoint` of include/coro_epoll/udp.hpp.
use cpp_coroutine_epoll.Common.{ℕ, ◌+◌, ◌*◌, ◌/◌, ◌%◌, ◌^◌, ◌<◌, ◌≡◌, arith}
use cpp_coroutine_epoll.System.{Errno, Exception, invalid_argument, system_error}

-- The members of `sockaddr_in` that the class reads, both in network byte order.
pub record UdpEndpoint : Type 0 where
  pub sin_addr : ℕ
  pub sin_port : ℕ

-- htons and ntohs on a little-endian machine: the two bytes of a uint16_t swapped.
unfoldable pub swap_bytes : ℕ → ℕ
swap_bytes x = x % 256 * 256 + x / 256 % 256

-- inet_pton: 1 with the address, 0, or -1 with an errno.
pub data PtonAnswer : Type 0 where
  parsed : ℕ → PtonAnswer
  not_an_address : PtonAnswer
  unsupported : Errno → PtonAnswer

pub data Construction : Type 0 where
  constructed : UdpEndpoint → Construction
  refused : Exception → Construction

-- `UdpEndpoint(std::string_view, std::uint16_t)`, on the answer of inet_pton for the text.
unfoldable pub construct : PtonAnswer → ℕ → Construction
unfolding swap_bytes
construct (parsed addr) port = constructed (record { sin_addr = addr; sin_port = swap_bytes port })
construct not_an_address port = refused (invalid_argument "invalid IPv4 address")
construct (unsupported e) port = refused (system_error e "inet_pton")

unfoldable pub port : UdpEndpoint → ℕ
unfolding swap_bytes
port endpoint = swap_bytes endpoint.sin_port

-- An endpoint that the constructor makes of an address and a 16-bit port has that port.
pub port-construct :
    (answer : PtonAnswer) (p : ℕ) (endpoint : UdpEndpoint)
    → p < 2 ^ 16
    → construct answer p ≡ constructed endpoint
    → port endpoint ≡ p
unfolding construct port
port-construct (parsed addr) p endpoint h e =
    let stored : endpoint.sin_port ≡ p % 256 * 256 + p / 256 % 256 = ground arith in
    omega (arith, stored)
port-construct not_an_address p endpoint h e = absurd (cc)
port-construct (unsupported x) p endpoint h e = absurd (cc)
