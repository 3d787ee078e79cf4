-- ===== src/Task/Frames.antt =====
-- `Task` of include/coro_epoll/task.hpp: promises, `co_await` of one task in another, and the way back
-- at `final_suspend`.
use cpp_coroutine_epoll.Common.{Option, none, some, List, [], ◌∷◌}
use cpp_coroutine_epoll.System.{Exception}

-- How the body of a coroutine ends.
pub data Ending (A : Type 0) : Type 0 where
  value : A → Ending A
  throws : Exception → Ending A

-- The body of a coroutine from a point on: `co_return`, an exception that leaves it, a suspension in
-- the event loop or the thread pool, and `co_await` of a task, whose value or exception the rest of
-- the body gets. What runs between these points is not seen; a task is awaited once, when it has not
-- begun, so that `await_ready` is false, and all tasks of a chain have one result type.
pub data Body (A : Type 0) : Type 0 where
  returns : A → Body A
  raises : Exception → Body A
  suspends : Body A → Body A
  awaits : Body A → (Ending A → Body A) → Body A

-- `promise_type`; its `continuation` is the first of the frames below it in a `Machine`.
pub record Promise (A : Type 0) : Type 0 where
  pub value : Option A
  pub exception : Option Exception

-- A coroutine that is suspended in `co_await` of another: the rest of its body, and its promise.
pub record Frame (A : Type 0) : Type 0 where
  pub rest : Ending A → Body A
  pub promise : Promise A

module _ {A : Type 0} where
  abbrev pub fresh : Promise A
  fresh = record { value = none; exception = none }

  unfoldable pub return_value : A → Promise A → Promise A
  return_value v p = record p { value = some v }

  unfoldable pub unhandled_exception : Exception → Promise A → Promise A
  unhandled_exception e p = record p { exception = some e }

  -- `Awaiter::await_resume`: `none` is the undefined dereference of an empty optional.
  unfoldable pub await_resume : Promise A → Option (Ending A)
  await_resume p = elim p.exception [
    | some e ↦ some (Ending.throws e)
    | none ↦ elim p.value [ none ↦ none | some v ↦ some (Ending.value v) ]
  ]

-- A chain of coroutines, each awaiting the one before it: the innermost runs, or its handle is with
-- the loop or the pool, or it is at its final suspension.
pub data Machine (A : Type 0) : Type 0 where
  running waiting : Body A → Promise A → List (Frame A) → Machine A
  finished : Promise A → List (Frame A) → Machine A

module _ {A : Type 0} where
  -- `await_suspend` of `Awaiter` sets the continuation and resumes the awaited coroutine, which
  -- `initial_suspend` has kept at its beginning; `await_suspend` of `FinalAwaiter` resumes the
  -- continuation, if there is one, which goes on with `await_resume`. A waiting coroutine goes on
  -- when its handle is resumed.
  unfoldable pub step : Machine A → Machine A
  unfolding return_value unhandled_exception await_resume
  step (running (returns v) p callers) = finished (return_value v p) callers
  step (running (raises e) p callers) = finished (unhandled_exception e p) callers
  step (running (suspends b) p callers) = waiting b p callers
  step (running (awaits b k) p callers) =
      running b fresh (record { rest = k; promise = p } ∷ callers)
  step (waiting b p callers) = running b p callers
  step (finished p []) = finished p []
  step (finished p (f ∷ callers)) = elim (await_resume p) [
    | none ↦ finished p (f ∷ callers)
    | some r ↦ running (f.rest r) f.promise callers
  ]

  pub data Steps (m : Machine A) : Machine A → Type 0 where
    here : Steps m m
    then_step : {n : Machine A} → Steps m n → Steps m (step n)
