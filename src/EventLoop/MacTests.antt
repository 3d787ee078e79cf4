-- ===== src/EventLoop/MacTests.antt =====
-- Waits and events on macOS (include/coro_epoll/event_loop.hpp).
use cpp_coroutine_epoll.Common.{false, some, pos}
use cpp_coroutine_epoll.EventLoop.State.{FdState}
use cpp_coroutine_epoll.EventLoop.Kqueue.{filter_read, filter_write, Kevent, MacLoop}
use cpp_coroutine_epoll.EventLoop.MacLoop.{add_interest_mac}
use cpp_coroutine_epoll.EventLoop.MacFixture.{two_tables, empty_loop}

abbrev both_wait : FdState
both_wait = record { read_handle = some 1; write_handle = some 2; edge_trigger = false }

-- Coroutine 1 waits to read from descriptor 7, coroutine 2 to write to it.
abbrev one_waits : MacLoop two_tables
one_waits = (add_interest_mac two_tables (pos 7) filter_read 1 false empty_loop).0

abbrev two_wait : MacLoop two_tables
two_wait = (add_interest_mac two_tables (pos 7) filter_write 2 false one_waits).0

abbrev readable_event : Kevent
readable_event = record { ident = 7; filter = filter_read; has_error = false }

-- A writer waits on descriptor 9, where a reader cannot be registered.
abbrev writer_waits : MacLoop two_tables
writer_waits = (add_interest_mac two_tables (pos 9) filter_write 2 false empty_loop).0
