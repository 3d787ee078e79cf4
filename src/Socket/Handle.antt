-- ===== src/Socket/Handle.antt =====
-- The pair of `loop_` and `fd_` in `TcpSocket` (include/coro_epoll/tcp.hpp) and `UdpSocket`
-- (include/coro_epoll/udp.hpp): construction, move and close.
use cpp_coroutine_epoll.Common.{
  ℕ, Bool, true, false, not, ◌||◌, List, [], ◌∷◌, ◌++◌, if◌then◌else◌, ℤ, pos, negsuc, minus_one,
  is_negative,
}
use cpp_coroutine_epoll.System.{Exception, invalid_argument}

-- `has_loop` says that `loop_` is not null.
pub record Handle : Type 0 where
  pub has_loop : Bool
  pub fd : ℤ

-- What the destructors and `close` have done, oldest first: the descriptors removed from the event
-- loop, and those given to ::close.
pub record Log : Type 0 where
  pub removed : List ℕ
  pub closed : List ℕ

abbrev pub nothing_done : Log
nothing_done = record { removed = []; closed = [] }

-- `TcpSocket() = default`
abbrev pub unset : Handle
unset = record { has_loop = false; fd = minus_one }

pub data Construction : Type 0 where
  constructed : Handle → Construction
  refused : Exception → Construction

-- `TcpSocket(EventLoop&, int)`
unfoldable pub construct : ℤ → Construction
construct fd =
    if is_negative fd
    then refused (invalid_argument "TcpSocket requires a valid file descriptor")
    else constructed (record { has_loop = true; fd = fd })

-- `valid`
unfoldable pub valid : Handle → Bool
valid h = not (is_negative h.fd)

-- The test of `ensure_valid`, which throws where this is false.
unfoldable pub usable : Handle → Bool
usable h = not (not h.has_loop || is_negative h.fd)

-- `if (loop_) loop_->remove(fd_); ::close(fd_);`
unfoldable pub release : ℕ → Bool → Log → Log
release fd has_loop log = record {
  removed = if has_loop then log.removed ++ fd ∷ [] else log.removed;
  closed = log.closed ++ fd ∷ [];
}

-- `TcpSocket::close`
unfoldable pub close : Handle → Log → Handle × Log
unfolding release
close h log = elim h.fd [ negsuc n ↦ (h, log) | pos fd ↦ (unset, release fd h.has_loop log) ]

-- `UdpSocket::close` keeps the pointer to the loop, so that `bind` may follow.
unfoldable pub close_udp : Handle → Log → Handle × Log
unfolding release
close_udp h log = elim h.fd [
  | negsuc n ↦ (h, log)
  | pos fd ↦ (record h { fd = minus_one }, release fd h.has_loop log)
]

-- The move constructor: the new object, and what is left of `other`.
unfoldable pub move : Handle → Handle × Handle
move other = (other, unset)

-- The move assignment `target = std::move(other)` of two objects: both, and the log.
unfoldable pub move_assign : Handle → Handle → Log → Handle × Handle × Log
unfolding close
move_assign target other log = (other, unset, (close target log).1)

-- `target = std::move(target)`, which the test `this != &other` catches.
unfoldable pub move_assign_self : Handle → Log → Handle × Log
move_assign_self target log = (target, log)
