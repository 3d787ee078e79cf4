-- ===== src/Task/VoidFrames.antt =====
-- The continuations of `Task<void>` (include/coro_epoll/task.hpp): `co_await` of one task in another,
-- and the way back at `final_suspend`.
use cpp_coroutine_epoll.Common.{
  ◌≡◌, ◌≢◌, refl, Option, none, some, List, [], ◌∷◌, map, Option-cases, inl, inr, subst, arith,
}
use cpp_coroutine_epoll.System.{Exception}
use cpp_coroutine_epoll.Task.Frames.{
  Ending, Body, returns, raises, suspends, awaits, Promise, Frame, return_value,
  unhandled_exception, await_resume, Machine, running, waiting, finished, step, Steps, here,
  then_step,
}
use cpp_coroutine_epoll.Task.Void.{
  VoidPromise, fresh_void, return_void, unhandled_exception_void, await_resume_void,
}
use cpp_coroutine_epoll.Task.Await.{eval, promise_of, Steps-eval}

-- A coroutine that is suspended in `co_await` of another: the rest of its body, and its promise.
pub record VoidFrame : Type 0 where
  pub rest : Ending (Unit {0}) → Body (Unit {0})
  pub promise : VoidPromise

-- A chain of coroutines as in Task/Frames; the `continuation` of a promise is the first frame below it.
pub data VoidMachine : Type 0 where
  runs waits : Body (Unit {0}) → VoidPromise → List VoidFrame → VoidMachine
  finishes : VoidPromise → List VoidFrame → VoidMachine

unfoldable pub step_void : VoidMachine → VoidMachine
unfolding return_void unhandled_exception_void await_resume_void
step_void (runs (returns v) p callers) = finishes (return_void p) callers
step_void (runs (raises e) p callers) = finishes (unhandled_exception_void e p) callers
step_void (runs (suspends b) p callers) = waits b p callers
step_void (runs (awaits b k) p callers) =
    runs b fresh_void (record { rest = k; promise = p } ∷ callers)
step_void (waits b p callers) = runs b p callers
step_void (finishes p []) = finishes p []
step_void (finishes p (f ∷ callers)) = runs (f.rest (await_resume_void p)) f.promise callers

pub data VoidSteps (m : VoidMachine) : VoidMachine → Type 0 where
  start : VoidSteps m m
  later : {n : VoidMachine} → VoidSteps m n → VoidSteps m (step_void n)

-- The machine of `Task<T>`, less the value of each promise.
abbrev forget_promise : Promise (Unit {0}) → VoidPromise
forget_promise p = record { exception = p.exception }

abbrev forget_frame : Frame (Unit {0}) → VoidFrame
forget_frame f = record { rest = f.rest; promise = forget_promise f.promise }

abbrev forget : Machine (Unit {0}) → VoidMachine
forget (running b p callers) = runs b (forget_promise p) (map forget_frame callers)
forget (waiting b p callers) = waits b (forget_promise p) (map forget_frame callers)
forget (finished p callers) = finishes (forget_promise p) (map forget_frame callers)

-- A coroutine at its final suspension has a result.
abbrev HasResult : Machine (Unit {0}) → Type 0
HasResult (running b p callers) = Unit
HasResult (waiting b p callers) = Unit
HasResult (finished p callers) = await_resume p ≢ none

step-HasResult : (m : Machine (Unit {0})) → HasResult m → HasResult (step m)
unfolding step return_value unhandled_exception await_resume
step-HasResult (running (returns v) p callers) has = ground arith
step-HasResult (running (raises e) p callers) has = ground arith
step-HasResult (running (suspends b) p callers) has = tt
step-HasResult (running (awaits b k) p callers) has = tt
step-HasResult (waiting b p callers) has = tt
step-HasResult (finished p []) has = has
step-HasResult (finished p (f ∷ callers)) has = elim (Option-cases (await_resume p)) [
  | inl e ↦ absurd (has e)
  | inr (r, e) ↦ rw (e, step) tt
]

resumed_from :
    (v : Option (Unit {0})) (e : Option Exception)
    → (let p : Promise (Unit {0}) = record { value = v; exception = e } in
        await_resume p ≢ none → await_resume p ≡ some (await_resume_void (forget_promise p)))
unfolding await_resume await_resume_void
resumed_from v (some e) has = refl
resumed_from (some tt) none has = refl
resumed_from none none has = absurd (has refl)

resumed_same :
    (p : Promise (Unit {0}))
    → await_resume p ≢ none
    → await_resume p ≡ some (await_resume_void (forget_promise p))
resumed_same p has = resumed_from p.value p.exception has

forget-step : (m : Machine (Unit {0})) → HasResult m → step_void (forget m) ≡ forget (step m)
unfolding step step_void return_value unhandled_exception return_void unhandled_exception_void
forget-step (running (returns v) p callers) has = refl
forget-step (running (raises e) p callers) has = refl
forget-step (running (suspends b) p callers) has = refl
forget-step (running (awaits b k) p callers) has = refl
forget-step (waiting b p callers) has = refl
forget-step (finished p []) has = refl
forget-step (finished p (f ∷ callers)) has = rw (resumed_same p has, step) refl

Steps-VoidSteps :
    {m n : Machine (Unit {0})}
    → HasResult m
    → Steps m n
    → HasResult n × VoidSteps (forget m) (forget n)
Steps-VoidSteps has here = (has, start)
Steps-VoidSteps {m} has (then_step {n = n} steps) =
    let (has', steps') = Steps-VoidSteps has steps in
    (step-HasResult n has', subst (λ s. VoidSteps (forget m) s) (forget-step n has') (later steps'))

-- A `Task<void>` that is awaited, by whatever chain of callers, comes to its end, when its suspensions
-- are all resumed, with the exception in its promise that its body throws as a plain function with
-- calls in place of `co_await`, and with none if that function returns.
pub VoidSteps-eval :
    (body : Body (Unit {0})) (callers : List (Frame (Unit {0})))
    → VoidSteps
        (runs body fresh_void (map forget_frame callers))
        (finishes (forget_promise (promise_of (eval body))) (map forget_frame callers))
VoidSteps-eval body callers = (Steps-VoidSteps tt (Steps-eval body callers)).1
