-- ===== src/Task/Handles.antt =====
-- The handle of `Task` in include/coro_epoll/task.hpp: construction, move, destruction, `done`,
-- `exception`, `resume`, and how `co_await` begins.
use cpp_coroutine_epoll.Common.{
  ℕ, suc, Bool, true, false, not, if◌then◌else◌, Option, none, some, List, [], ◌∷◌, ◌++◌,
}
use cpp_coroutine_epoll.Common.Family.{update}
use cpp_coroutine_epoll.System.{Exception}
use cpp_coroutine_epoll.Task.Frames.{
  Ending, Promise, fresh, return_value, unhandled_exception, await_resume,
}

-- What is left of a coroutine: how it ends when it is resumed, or that it suspends again.
pub data Run (A : Type 0) : Type 0 where
  ends : Ending A → Run A
  pauses : Run A → Run A

-- The frame that a coroutine_handle refers to: suspended, or at its final suspension.
pub data Coroutine (A : Type 0) : Type 0 where
  suspended : Run A → Promise A → Coroutine A
  final : Promise A → Coroutine A

-- The frames, numbered in the order in which they are made, and those that have been destroyed.
pub record Frames (A : Type 0) : Type 0 where
  pub next : ℕ
  pub frame : ℕ → Coroutine A
  pub destroyed : List ℕ

-- `handle_`
abbrev pub Handle : Type 0
Handle = Option ℕ

-- The move constructor: the new object, and what is left of `other`.
unfoldable pub move : Handle → Handle × Handle
move other = (other, none)

-- `co_await` of a task: it goes on at once with the result; or the awaited coroutine is resumed
-- first; or it reads the promise of no frame, or an empty result.
pub data Awaited (A : Type 0) : Type 0 where
  ready : Ending A → Awaited A
  runs : Frames A → Awaited A
  undefined : Awaited A

module _ {A : Type 0} where
  -- `coroutine_handle::done`
  unfoldable pub at_end : Coroutine A → Bool
  at_end (suspended r p) = false
  at_end (final p) = true

  -- `coroutine_handle::resume`, with what `promise_type` does at the end.
  unfoldable pub resume_frame : Coroutine A → Coroutine A
  resume_frame (suspended (ends (Ending.value v)) p) = final (return_value v p)
  resume_frame (suspended (ends (Ending.throws e)) p) = final (unhandled_exception e p)
  resume_frame (suspended (pauses r) p) = suspended r p
  resume_frame (final p) = final p

  -- The call of a coroutine: `initial_suspend` keeps it at its beginning, and `get_return_object`
  -- makes the task.
  unfoldable pub create : Run A → Frames A → Handle × Frames A
  create r fs = (
    some fs.next,
    record fs { next = suc fs.next; frame = update fs.frame fs.next (suspended r fresh) },
  )

  -- The private `destroy`, which is the destructor too.
  unfoldable pub destroy : Handle → Frames A → Handle × Frames A
  destroy none fs = (none, fs)
  destroy (some f) fs = (none, record fs { destroyed = fs.destroyed ++ f ∷ [] })

  -- `target = std::move(other)` of two objects: both, and the frames.
  unfoldable pub move_assign : Handle → Handle → Frames A → Handle × Handle × Frames A
  unfolding destroy
  move_assign target other fs = (other, none, (destroy target fs).1)

  -- The same with `this != &other`; `same` says that both are one object.
  unfoldable pub assign : Bool → Handle → Handle → Frames A → Handle × Handle × Frames A
  unfolding move_assign
  assign same target other fs =
      if not same then move_assign target other fs else (target, other, fs)

  unfoldable pub done : Handle → Frames A → Bool
  unfolding at_end
  done none fs = true
  done (some f) fs = at_end (fs.frame f)

  unfoldable pub exception : Handle → Frames A → Option Exception
  exception none fs = none
  exception (some f) fs = elim (fs.frame f) [ suspended r p ↦ none | final p ↦ p.exception ]

  unfoldable pub resume : Handle → Frames A → Frames A
  unfolding at_end resume_frame
  resume none fs = fs
  resume (some f) fs =
      if at_end (fs.frame f)
      then fs
      else record fs { frame = update fs.frame f (resume_frame (fs.frame f)) }

  abbrev pub ready_or_undefined : Option (Ending A) → Awaited A
  ready_or_undefined none = undefined
  ready_or_undefined (some r) = ready r

  -- `await_ready`, then `await_resume` or `await_suspend`; the continuation that this sets is in
  -- Task/Frames.antt.
  unfoldable pub await_frame : ℕ → Frames A → Coroutine A → Awaited A
  unfolding await_resume resume
  await_frame f fs (suspended r p) = runs (resume (some f) fs)
  await_frame f fs (final p) = ready_or_undefined (await_resume p)

  unfoldable pub await_task : Handle → Frames A → Awaited A
  unfolding await_frame
  await_task none fs = undefined
  await_task (some f) fs = await_frame f fs (fs.frame f)
