-- ===== src/Task/Tests.antt =====
-- A task that catches what a task it awaits throws, and one that is moved.
use Prim.Native.Nat.{ℕ}
use cpp_coroutine_epoll.Common.{
  none, some, List, [], ◌∷◌, ◌+◌, ◌≡◌, ◌≢◌, ◌≤◌, ◌<◌, ◌↔◌, refl, arith,
}
use cpp_coroutine_epoll.Common.Family.{update, count}
use cpp_coroutine_epoll.System.{runtime_error}
use cpp_coroutine_epoll.Task.Frames.{
  Ending, Body, returns, raises, suspends, awaits, fresh, running, finished, Steps,
}
use cpp_coroutine_epoll.Task.Await.{eval, Steps-eval}
use cpp_coroutine_epoll.Task.Handles.{
  Run, ends, pauses, final, create, move_assign, undefined, await_task, done, exception,
}
use cpp_coroutine_epoll.Task.Lifetime.{
  Tasks, no_tasks, Reach, begin, later, creates, assigns, frames_destroyed_once,
}
use cpp_coroutine_epoll.Task.Void.{fresh_void, done_void, exception_void, co_await_void}
use cpp_coroutine_epoll.Task.VoidFrames.{VoidSteps, runs, finishes, VoidSteps-eval}
use cpp_coroutine_epoll.Task.Class.{Operation, performs, task_unit, task_void, no_objects, begin_of}
use cpp_coroutine_epoll.Task.Same.{performs_same}
use cpp_coroutine_epoll.Task.Resumption.{await_task_defined}

abbrev handler : Ending ℕ → Body ℕ
handler (Ending.value v) = returns (v + 1)
handler (Ending.throws e) = suspends (returns 0)

abbrev outer : Body ℕ
outer = awaits (suspends (raises (runtime_error "inner"))) handler

Steps-eval_example :
    Steps (running outer fresh []) (finished (record { value = some 0; exception = none }) [])
unfolding eval
Steps-eval_example = Steps-eval outer []

abbrev pausing : Run ℕ
pausing = pauses (ends (Ending.value 5))

abbrev none_yet : Tasks ℕ
none_yet = no_tasks (λ f. final fresh)

abbrev one_task : Tasks ℕ
one_task = record {
  handles = update none_yet.handles 0 (create pausing none_yet.frames).0;
  frames = (create pausing none_yet.frames).1;
}

abbrev two_tasks : Tasks ℕ
two_tasks = record {
  handles = update one_task.handles 1 (create pausing one_task.frames).0;
  frames = (create pausing one_task.frames).1;
}

-- The first task is assigned the second, which is left empty.
abbrev assigned : Tasks ℕ
assigned = record {
  handles =
      update
        (update two_tasks.handles 0
          (move_assign (two_tasks.handles 0) (two_tasks.handles 1) two_tasks.frames).0)
        1 (move_assign (two_tasks.handles 0) (two_tasks.handles 1) two_tasks.frames).1;
  frames = (move_assign (two_tasks.handles 0) (two_tasks.handles 1) two_tasks.frames).2;
}

assigned-Reach : Reach 2 assigned
unfolding create
assigned-Reach =
    later
      (later (later (begin (λ f. final fresh)) (creates 0 pausing (omega arith) refl))
        (creates 1 pausing (omega arith) refl))
      (assigns 0 1 (omega arith) (omega arith) (ground arith))

frames_destroyed_once_example :
    (count 0 assigned.frames.destroyed ≤ 1)
    × ((i : ℕ) → i < 2 → assigned.handles i ≡ some 0 → count 0 assigned.frames.destroyed ≡ 0)
    × (((i : ℕ) → i < 2 → assigned.handles i ≢ some 0)
        → 0 < assigned.frames.next
        → count 0 assigned.frames.destroyed ≡ 1)
frames_destroyed_once_example = frames_destroyed_once assigned-Reach 0

await_task_defined_example :
    (await_task (assigned.handles 1) assigned.frames ≡ undefined) ↔ (assigned.handles 1 ≡ none)
await_task_defined_example = await_task_defined assigned-Reach 1 (omega arith)

-- The second task throws when it is resumed, and is assigned to the first.
abbrev some_operations : List Operation
some_operations =
    Operation.creates 0 (pauses (ends (Ending.value tt)))
    ∷ Operation.creates 1 (ends (Ending.throws (runtime_error "inner")))
    ∷ Operation.resumes 1
    ∷ Operation.assigns 0 1
    ∷ Operation.assigns 0 0
    ∷ Operation.awaits 0
    ∷ []

performs_same_example :
    let s = performs task_unit some_operations (no_objects task_unit) in
    let v = performs task_void some_operations (no_objects task_void) in
    (s.frames.destroyed ≡ v.frames.destroyed)
    × (done (s.handles 0) s.frames ≡ done_void (v.handles 0) v.frames)
    × (exception (s.handles 0) s.frames ≡ exception_void (v.handles 0) v.frames)
    × ((begin_of s.frames (await_task (s.handles 0) s.frames)).0
        ≡ (co_await_void (v.handles 0) v.frames).0)
performs_same_example = performs_same some_operations 0

abbrev catches : Ending (Unit {0}) → Body (Unit {0})
catches (Ending.value v) = raises (runtime_error "outer")
catches (Ending.throws e) = suspends (returns tt)

-- A coroutine that awaits one that throws, and catches its exception.
VoidSteps-eval_example :
    VoidSteps
      (runs (awaits (suspends (raises (runtime_error "inner"))) catches) fresh_void [])
      (finishes fresh_void [])
unfolding eval
VoidSteps-eval_example =
    VoidSteps-eval (awaits (suspends (raises (runtime_error "inner"))) catches) []
