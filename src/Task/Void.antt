-- ===== src/Task/Void.antt =====
-- `Task<void>` of include/coro_epoll/task.hpp, the specialisation whose promise has no value.
use cpp_coroutine_epoll.Common.{
  ℕ, suc, Bool, true, false, not, if◌then◌else◌, Option, none, some, List, [], ◌∷◌, ◌++◌,
}
use cpp_coroutine_epoll.Common.Family.{update}
use cpp_coroutine_epoll.System.{Exception}
use cpp_coroutine_epoll.Task.Frames.{Ending}
use cpp_coroutine_epoll.Task.Handles.{Run, ends, pauses, Handle}

pub record VoidPromise : Type 0 where
  pub exception : Option Exception

abbrev pub fresh_void : VoidPromise
fresh_void = record { exception = none }

unfoldable pub return_void : VoidPromise → VoidPromise
return_void p = p

unfoldable pub unhandled_exception_void : Exception → VoidPromise → VoidPromise
unhandled_exception_void e p = record p { exception = some e }

-- `Awaiter::await_resume`, which rethrows or returns.
unfoldable pub await_resume_void : VoidPromise → Ending (Unit {0})
await_resume_void p = elim p.exception [ some e ↦ Ending.throws e | none ↦ Ending.value tt ]

-- The frame that a coroutine_handle refers to: suspended, or at its final suspension.
pub data VoidCoroutine : Type 0 where
  suspended : Run (Unit {0}) → VoidPromise → VoidCoroutine
  final : VoidPromise → VoidCoroutine

pub record VoidFrames : Type 0 where
  pub next : ℕ
  pub frame : ℕ → VoidCoroutine
  pub destroyed : List ℕ

-- `coroutine_handle::done`
unfoldable pub at_end_void : VoidCoroutine → Bool
at_end_void (suspended r p) = false
at_end_void (final p) = true

-- `coroutine_handle::resume`, with what `promise_type` does at the end.
unfoldable pub resume_frame_void : VoidCoroutine → VoidCoroutine
unfolding return_void unhandled_exception_void
resume_frame_void (suspended (ends (Ending.value v)) p) = final (return_void p)
resume_frame_void (suspended (ends (Ending.throws e)) p) = final (unhandled_exception_void e p)
resume_frame_void (suspended (pauses r) p) = suspended r p
resume_frame_void (final p) = final p

-- `get_return_object` and `initial_suspend`
unfoldable pub create_void : Run (Unit {0}) → VoidFrames → Handle × VoidFrames
create_void r fs = (
  some fs.next,
  record fs { next = suc fs.next; frame = update fs.frame fs.next (suspended r fresh_void) },
)

-- The private `destroy`, which is the destructor too.
unfoldable pub destroy_void : Handle → VoidFrames → Handle × VoidFrames
destroy_void none fs = (none, fs)
destroy_void (some f) fs = (none, record fs { destroyed = fs.destroyed ++ f ∷ [] })

-- `target = std::move(other)` of two objects: both, and the frames.
unfoldable pub move_assign_void : Handle → Handle → VoidFrames → Handle × Handle × VoidFrames
unfolding destroy_void
move_assign_void target other fs = (other, none, (destroy_void target fs).1)

-- The same with `this != &other`; `same` says that both are one object.
unfoldable pub assign_void : Bool → Handle → Handle → VoidFrames → Handle × Handle × VoidFrames
unfolding move_assign_void
assign_void same target other fs =
    if not same then move_assign_void target other fs else (target, other, fs)

-- The move constructor: the new object, and what is left of `other`.
unfoldable pub move_void : Handle → Handle × Handle
move_void other = (other, none)

unfoldable pub done_void : Handle → VoidFrames → Bool
unfolding at_end_void
done_void none fs = true
done_void (some f) fs = at_end_void (fs.frame f)

unfoldable pub exception_void : Handle → VoidFrames → Option Exception
exception_void none fs = none
exception_void (some f) fs = elim (fs.frame f) [ suspended r p ↦ none | final p ↦ p.exception ]

unfoldable pub resume_void : Handle → VoidFrames → VoidFrames
unfolding at_end_void resume_frame_void
resume_void none fs = fs
resume_void (some f) fs =
    if at_end_void (fs.frame f)
    then fs
    else record fs { frame = update fs.frame f (resume_frame_void (fs.frame f)) }

-- How `co_await` of a task begins: it goes on at once with a result; the awaited coroutine is resumed
-- first; or the promise of no frame, or an empty result, is read.
pub data Begin : Type 0 where
  goes_on : Ending (Unit {0}) → Begin
  resumes_it undefined : Begin

-- The result of a frame at its end; `await_suspend` resumes any other, after it has set the continuation
-- of its promise (Task/VoidFrames).
abbrev pub begin_void : ℕ → VoidFrames → VoidCoroutine → Begin × VoidFrames
begin_void f fs (suspended r p) = (resumes_it, resume_void (some f) fs)
begin_void f fs (final p) = (goes_on (await_resume_void p), fs)

-- `await_ready`, then `await_resume` or `await_suspend`.
unfoldable pub co_await_void : Handle → VoidFrames → Begin × VoidFrames
unfolding await_resume_void resume_void
co_await_void none fs = (undefined, fs)
co_await_void (some f) fs = begin_void f fs (fs.frame f)
