-- ===== src/EventLoop/Run.antt =====
-- `dispatch` and `run` of include/coro_epoll/event_loop.hpp, on Linux.
use cpp_coroutine_epoll.Common.{
  ℕ, Bool, true, false, ◌||◌, Option, none, some, List, [], ◌∷◌, bit_or, ◌==◌, if◌then◌else◌, find,
  put,
}
use cpp_coroutine_epoll.System.{
  Errno, eintr, Exception, system_error, is_std, epollin, epollout, epollerr, epollhup, epollrdhup,
  has, Epoll,
}
use cpp_coroutine_epoll.EventLoop.State.{FdState, EventLoop}
use cpp_coroutine_epoll.EventLoop.Interest.{update_or_remove_impl}
use cpp_coroutine_epoll.EventLoop.Tasks.{
  Program, resume, drain_pending_tasks, compact_finished_tasks,
}

-- An `epoll_event`: its `data.fd` and its `events`.
pub record Event : Type 0 where
  pub fd : ℕ
  pub events : ℕ

abbrev pub has_error : ℕ → Bool
has_error events = has events (bit_or (bit_or epollerr epollhup) epollrdhup)

abbrev pub read_ready : ℕ → Bool
read_ready events = has events epollin || has_error events

abbrev pub write_ready : ℕ → Bool
write_ready events = has events epollout || has_error events

-- The entry after the two calls of std::exchange, and the handles that they return.
abbrev pub exchanged : ℕ → FdState → FdState
exchanged events st = record st {
  read_handle = if read_ready events then none else st.read_handle;
  write_handle = if write_ready events then none else st.write_handle;
}

abbrev pub taken_read : ℕ → FdState → Option ℕ
taken_read events st = if read_ready events then st.read_handle else none

abbrev pub taken_write : ℕ → FdState → Option ℕ
taken_write events st = if write_ready events then st.write_handle else none

-- What epoll_wait answers: events, or -1 with an errno.
pub data WaitAnswer : Type 0 where
  ready : List Event → WaitAnswer
  failed : Errno → WaitAnswer

-- How a call of `run` stands: it returned, it is blocked in epoll_wait, or an exception left it.
pub data Outcome : Type 0 where
  returned blocked : Outcome
  threw : Exception → Outcome

-- `catch (const std::exception&)` of `run`: the exception that leaves the iteration.
abbrev pub escaping : Option Exception → Option Exception
escaping none = none
escaping (some e) = if is_std e then none else some e

abbrev pub is_eintr : Errno → Bool
is_eintr eintr = true
is_eintr e = false

module _ (epoll : Epoll) (program : Program epoll.Kernel) where
  abbrev Loop : Type 0
  Loop = EventLoop epoll.Kernel

  -- `if (handle) handle.resume();`
  unfoldable pub resume_if_set : Option ℕ → Loop → Loop
  resume_if_set none l = l
  resume_if_set (some h) l = resume epoll program h l

  -- `drain_pending_tasks(); compact_finished_tasks();`
  unfoldable pub drain_and_compact : Loop → Loop × Option Exception
  drain_and_compact l =
      let (l', thrown) = drain_pending_tasks epoll program l in
      elim thrown [ none ↦ compact_finished_tasks epoll l' | some e ↦ (l', some e) ]

  -- The rest of `dispatch` for an event on a descriptor with the entry `st`.
  unfoldable pub dispatch_entry : ℕ → ℕ → FdState → Loop → Loop × Option Exception
  dispatch_entry fd events st l =
      let st' = exchanged events st in
      let (l', thrown) =
        update_or_remove_impl epoll fd st' st'.edge_trigger
          (record l { states = put fd st' l.states }) in
      elim thrown [
        | some e ↦ (l', some e)
        | none ↦
            (resume_if_set (taken_write events st) (resume_if_set (taken_read events st) l'), none)
      ]

  unfoldable pub dispatch : Event → Loop → Loop × Option Exception
  dispatch event l =
      if event.fd == l.wakeup_fd
      then drain_and_compact (record l { signalled = false })
      else elim (find event.fd l.states) [
        | none ↦ (l, none)
        | some st ↦ dispatch_entry event.fd event.events st l
      ]

  -- The `for` loop of `run`, which catches everything.
  unfoldable pub dispatch_all : List Event → Loop → Loop
  dispatch_all [] l = l
  dispatch_all (e ∷ es) l = dispatch_all es (dispatch e l).0

  -- `run`, on the answers that epoll_wait gives it one after the other.
  unfoldable pub run : List WaitAnswer → Loop → Loop × Outcome
  run [] l =
      if l.stopped
      then (l, returned)
      else (let (l', thrown) = drain_and_compact l in
          elim (escaping thrown) [ some e ↦ (l', threw e) | none ↦ (l', blocked) ])
  run (ready events ∷ answers) l =
      let (l', thrown) = drain_and_compact l in
      let rest = run answers (dispatch_all events l') in
      if l.stopped
      then (l, returned)
      else elim (escaping thrown) [ some e ↦ (l', threw e) | none ↦ rest ]
  run (failed e ∷ answers) l =
      let (l', thrown) = drain_and_compact l in
      let rest = run answers l' in
      if l.stopped then (l, returned) else elim (escaping thrown) [
        | some x ↦ (l', threw x)
        | none ↦ if is_eintr e then rest else (l', threw (system_error e "epoll_wait"))
      ]
