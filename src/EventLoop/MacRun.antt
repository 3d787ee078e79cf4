-- ===== src/EventLoop/MacRun.antt =====
-- `dispatch` and `run` of include/coro_epoll/event_loop.hpp, on macOS.
use cpp_coroutine_epoll.Common.{ℕ, Option, none, some, List, [], ◌∷◌, if◌then◌else◌}
use cpp_coroutine_epoll.System.{Errno, Exception, system_error}
use cpp_coroutine_epoll.EventLoop.Pipe.{drain_wakeup_mac}
use cpp_coroutine_epoll.EventLoop.Kqueue.{Kqueue, Kevent}
use cpp_coroutine_epoll.EventLoop.MacLoop.{Dispatched, dispatch_mac}
use cpp_coroutine_epoll.EventLoop.MacTasks.{
  MacEventLoop, MacProgram, noted, resume_mac, drain_pending_mac, compact_mac,
}
use cpp_coroutine_epoll.EventLoop.Run.{Outcome, returned, blocked, threw, escaping, is_eintr}

-- What kevent(2) answers when it waits: events, or -1 with an errno.
pub data KeventAnswer : Type 0 where
  ready : List Kevent → KeventAnswer
  failed : Errno → KeventAnswer

module _ (kqueue : Kqueue) (program : MacProgram kqueue) where
  abbrev Loop : Type 0
  Loop = MacEventLoop kqueue

  -- `drain_pending_tasks(); compact_finished_tasks();`
  unfoldable pub drain_and_compact_mac : Loop → Loop × Option Exception
  drain_and_compact_mac l =
      let (l', thrown) = drain_pending_mac kqueue program l in
      elim thrown [ none ↦ compact_mac kqueue program l' | some e ↦ (l', some e) ]

  unfoldable pub resume_all : List ℕ → Loop → Loop
  resume_all [] l = l
  resume_all (h ∷ hs) l = resume_all hs (resume_mac kqueue program h l)

  -- What `dispatch` does to the rest of the loop.
  unfoldable pub after_dispatch : Dispatched kqueue → Loop → Loop × Option Exception
  after_dispatch d l =
      let changed = record l { registrations = d.loop; thrown = noted d.thrown l.thrown } in
      if d.drains
      then drain_and_compact_mac (record changed { pipe = drain_wakeup_mac l.pipe })
      else (resume_all d.resumes changed, d.thrown)

  unfoldable pub dispatch_event : Kevent → Loop → Loop × Option Exception
  unfolding after_dispatch
  dispatch_event event l = after_dispatch (dispatch_mac kqueue event l.registrations) l

  -- The `for` loop of `run`, which catches everything.
  unfoldable pub dispatch_events : List Kevent → Loop → Loop
  dispatch_events [] l = l
  dispatch_events (e ∷ es) l = dispatch_events es (dispatch_event e l).0

  -- `run`, on the answers that kevent(2) gives it one after the other.
  unfoldable pub run_mac : List KeventAnswer → Loop → Loop × Outcome
  run_mac [] l =
      if l.stopped
      then (l, returned)
      else (let (l', thrown) = drain_and_compact_mac l in
          elim (escaping thrown) [ some e ↦ (l', threw e) | none ↦ (l', blocked) ])
  run_mac (ready events ∷ answers) l =
      let (l', thrown) = drain_and_compact_mac l in
      let rest = run_mac answers (dispatch_events events l') in
      if l.stopped
      then (l, returned)
      else elim (escaping thrown) [ some e ↦ (l', threw e) | none ↦ rest ]
  run_mac (failed e ∷ answers) l =
      let (l', thrown) = drain_and_compact_mac l in
      let rest = run_mac answers l' in
      if l.stopped then (l, returned) else elim (escaping thrown) [
        | some x ↦ (l', threw x)
        | none ↦ if is_eintr e then rest else (l', threw (system_error e "kevent_wait"))
      ]
