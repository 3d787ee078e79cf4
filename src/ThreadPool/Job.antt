-- ===== src/ThreadPool/Job.antt =====
-- `ThreadPoolState` and `Awaiter` of include/coro_epoll/thread_pool.hpp: how the result of a job gets
-- back to the coroutine that submitted it.
use cpp_coroutine_epoll.Common.{ℕ, ◌≡◌, refl, Option, none, some}
use cpp_coroutine_epoll.System.{Exception}

-- What a call of the job's function does. The result type is void where `R` is `Unit`.
pub data Result (R : Type 0) : Type 0 where
  value : R → Result R
  throws : Exception → Result R

pub record JobState (R : Type 0) : Type 0 where
  pub value : Option R
  pub exception : Option Exception
  pub continuation : Option ℕ

module _ {R : Type 0} where
  -- `std::make_shared<ThreadPoolState<Result>>()`, then `await_suspend` up to the call of `enqueue`.
  unfoldable pub await_suspend : ℕ → JobState R
  await_suspend handle = record { value = none; exception = none; continuation = some handle }

  -- The lambda that a worker thread runs, up to the post: `function` is what the job does.
  unfoldable pub run_job : Result R → JobState R → JobState R
  run_job (Result.value r) s = record s { value = some r }
  run_job (throws e) s = record s { exception = some e }

  -- `await_resume`: `none` is the undefined dereference of an empty optional.
  unfoldable pub await_resume : JobState R → Option (Result R)
  await_resume s = elim s.exception [
    | some e ↦ some (throws e)
    | none ↦ elim s.value [ none ↦ none | some r ↦ some (Result.value r) ]
  ]

  -- The coroutine that submitted a job gets from `await_resume` exactly what the job's function
  -- returned or threw, and it is that coroutine which the posted callback resumes.
  pub await_resume-run_job :
      (handle : ℕ) (function : Result R)
      → (await_resume (run_job function (await_suspend handle)) ≡ some function)
        × ((run_job function (await_suspend handle)).continuation ≡ some handle)
  unfolding await_resume run_job await_suspend
  await_resume-run_job handle (Result.value r) = (refl, refl)
  await_resume-run_job handle (throws e) = (refl, refl)
