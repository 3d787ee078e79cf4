-- ===== src/Task/Await.antt =====
-- `co_await` of tasks (include/coro_epoll/task.hpp) against calls of plain functions.
use cpp_coroutine_epoll.Common.{◌≡◌, refl, none, some, List, ◌∷◌, subst}
use cpp_coroutine_epoll.Task.Frames.{
  Ending, Body, returns, raises, suspends, awaits, Promise, Frame, fresh, await_resume, Machine,
  running, finished, step, Steps, here, then_step,
}

module _ {A : Type 0} where
  -- The body as a plain function: an awaited task is a call, and a suspension nothing.
  unfoldable pub eval : Body A → Ending A
  eval (returns v) = Ending.value v
  eval (raises e) = Ending.throws e
  eval (suspends b) = eval b
  eval (awaits b k) = eval (k (eval b))

  -- The promise that holds a result.
  abbrev pub promise_of : Ending A → Promise A
  promise_of (Ending.value v) = record { value = some v; exception = none }
  promise_of (Ending.throws e) = record { value = none; exception = some e }

  Steps-trans : {l m n : Machine A} → Steps l m → Steps m n → Steps l n
  Steps-trans a here = a
  Steps-trans a (then_step b) = then_step (Steps-trans a b)

  goes_back :
      (r : Ending A) (f : Frame A) (callers : List (Frame A))
      → step (finished (promise_of r) (f ∷ callers)) ≡ running (f.rest r) f.promise callers
  unfolding step await_resume
  goes_back (Ending.value v) f callers = refl
  goes_back (Ending.throws e) f callers = refl

  -- A task that is awaited, by whatever chain of callers, comes to its end, when its suspensions
  -- are all resumed, with the value or exception in its promise that its body has as a plain
  -- function with calls in place of `co_await`.
  pub Steps-eval :
      (body : Body A) (callers : List (Frame A))
      → Steps (running body fresh callers) (finished (promise_of (eval body)) callers)
  unfolding step eval
  Steps-eval (returns v) callers = then_step here
  Steps-eval (raises e) callers = then_step here
  Steps-eval (suspends b) callers = Steps-trans (then_step (then_step here)) (Steps-eval b callers)
  Steps-eval (awaits b k) callers =
      let f : Frame A = record { rest = k; promise = fresh } in
      let called = Steps-trans (then_step here) (Steps-eval b (f ∷ callers)) in
      Steps-trans
        (subst (λ m. Steps (running (awaits b k) fresh callers) m) (goes_back (eval b) f callers)
          (then_step called))
        (Steps-eval (k (eval b)) callers)
