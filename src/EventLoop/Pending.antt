-- ===== src/EventLoop/Pending.antt =====
-- The queue of posted callbacks and the list of top-level tasks.
use cpp_coroutine_epoll.Common.{
  ℕ, ◌≡◌, inl, inr, refl, ap, ◌∙◌, true, false, none, some, List, [], ◌∷◌, ◌++◌, arith,
  if◌then◌else◌, ℤ, pos, negsuc, Bool-cases, Option-cases, All,
}
use cpp_coroutine_epoll.System.{Exception, Epoll, is_std}
use cpp_coroutine_epoll.EventLoop.State.{TaskEntry, EventLoop}
use cpp_coroutine_epoll.EventLoop.Interest.{remove}
use cpp_coroutine_epoll.EventLoop.Tasks.{
  Program, run_calls, run_callbacks, drain_pending_tasks, close_socket, close_sockets,
  compact_finished_tasks, uncaught, unfinished, sockets_of_finished,
}
use cpp_coroutine_epoll.EventLoop.Run.{WaitAnswer, threw, ready, failed, run, drain_and_compact}

-- The tasks of a list that are not done, in their order, by an inductive description.
pub data Unfinished : List TaskEntry → List TaskEntry → Type 0 where
  none_left : Unfinished [] []
  drops :
      {ts us : List TaskEntry} (t : TaskEntry)
      → t.done ≡ true
      → Unfinished ts us
      → Unfinished (t ∷ ts) us
  keeps :
      {ts us : List TaskEntry} (t : TaskEntry)
      → t.done ≡ false
      → Unfinished ts us
      → Unfinished (t ∷ ts) (t ∷ us)

-- A task that has come to its end with something that is no std::exception.
abbrev pub IsFatal : TaskEntry → Exception → Type 0
IsFatal t e = (t.done ≡ true) × (t.exception ≡ some e) × (is_std e ≡ false)

unfinished-Unfinished : (ts : List TaskEntry) → Unfinished ts (unfinished ts)
unfolding unfinished
unfinished-Unfinished [] = none_left
unfinished-Unfinished (t ∷ ts) = elim (Bool-cases t.done) [
  | inl e ↦ simp e (drops t e (unfinished-Unfinished ts))
  | inr e ↦ simp e (keeps t e (unfinished-Unfinished ts))
]

uncaught-append :
    (before after : List TaskEntry) (t : TaskEntry) (e : Exception)
    → IsFatal t e
    → (x : Exception) × (uncaught (before ++ t ∷ after) ≡ some x) × (is_std x ≡ false)
unfolding uncaught
uncaught-append [] after t e (d, x, f) = (e, ground arith, f)
uncaught-append (b ∷ before) after t e fatal =
    let (x, here, f) = uncaught-append before after t e fatal in
    elim (Option-cases (if b.done then b.exception else none)) [
      | inl c ↦ (x, rw (c, uncaught) here, f)
      | inr (y, c) ↦ elim (Bool-cases (is_std y)) [
        | inl std ↦ (x, rw (c, uncaught) (rw std here), f)
        | inr odd ↦ (y, rw (c, uncaught) (rw odd), odd)
      ]
    ]

-- Every exception that a finished task holds is a std::exception.
abbrev pub AllStd : List TaskEntry → Type 0
AllStd = All (λ t. (e : Exception) → t.done ≡ true → t.exception ≡ some e → is_std e ≡ true)

uncaught-AllStd : (ts : List TaskEntry) → AllStd ts → uncaught ts ≡ none
unfolding uncaught
uncaught-AllStd [] h = refl
uncaught-AllStd (t ∷ ts) h = elim (Option-cases (if t.done then t.exception else none)) [
  | inl c ↦ rw (c, uncaught) (uncaught-AllStd ts h.1)
  | inr (y, c) ↦
      rw (c, uncaught) (rw (h.0 y (ground arith) (ground arith)) (uncaught-AllStd ts h.1))
]

module _ (epoll : Epoll) where
  -- Closing sockets leaves the tasks alone.
  close_sockets-tasks :
      (fds : List ℤ) (l : EventLoop epoll.Kernel) → (close_sockets epoll fds l).tasks ≡ l.tasks
  unfolding close_sockets close_socket remove
  close_sockets-tasks [] l = refl
  close_sockets-tasks (negsuc n ∷ fds) l = close_sockets-tasks fds l
  close_sockets-tasks (pos n ∷ fds) l = close_sockets-tasks fds (close_socket epoll (pos n) l)

  -- When every exception that a finished task holds is a std::exception, `compact_finished_tasks`
  -- throws nothing and leaves exactly the unfinished tasks, in their order.
  pub compact-Unfinished :
      (l : EventLoop epoll.Kernel)
      → AllStd l.tasks
      → ((compact_finished_tasks epoll l).1 ≡ none)
        × Unfinished l.tasks (compact_finished_tasks epoll l).0.tasks
  unfolding compact_finished_tasks
  compact-Unfinished l std =
      let kept = record l { tasks = unfinished l.tasks } in
      rw (uncaught-AllStd l.tasks std, compact_finished_tasks)
        (
          refl,
          rw (close_sockets-tasks (sockets_of_finished l.tasks) kept)
              (unfinished-Unfinished l.tasks),
        )

  -- One finished task that holds anything else makes it throw, and then no task is erased.
  pub compact_fatal :
      (l : EventLoop epoll.Kernel) (before after : List TaskEntry) (t : TaskEntry) (e : Exception)
      → l.tasks ≡ before ++ t ∷ after
      → IsFatal t e
      → (x : Exception) × (compact_finished_tasks epoll l ≡ (l, some x)) × (is_std x ≡ false)
  unfolding compact_finished_tasks
  compact_fatal l before after t e parts fatal =
      let (x, found, odd) = uncaught-append before after t e fatal in
      (x, rw (ap uncaught parts ∙ found, compact_finished_tasks) refl, odd)

  module _ (program : Program epoll.Kernel) where
    -- Callbacks run in the order in which they were posted; when those before one run without an
    -- exception and it throws, the loop is left as its calls leave it, that exception leaves
    -- `run_callbacks`, and the callbacks behind it are not run.
    pub run_callbacks-append :
        (before after : List ℕ) (c : ℕ) (l l' : EventLoop epoll.Kernel) (e : Exception)
        → run_callbacks epoll program before l ≡ (l', none)
        → (program.callback c l').1 ≡ some e
        → run_callbacks epoll program (before ++ c ∷ after) l
          ≡ (run_calls epoll (program.callback c l').0 l', some e)
    unfolding run_callbacks
    run_callbacks-append [] after c l l' e h thrown =
        let same : l ≡ l' = ap (λ r. r.0) h in ground arith
    run_callbacks-append (b ∷ before) after c l l' e h thrown =
        elim (Option-cases (program.callback b l).1) [
          | inl fine ↦
              rw (fine, run_callbacks)
                (run_callbacks-append before after c _ l' e (rw (fine, run_callbacks) at h) thrown)
          | inr (x, bad) ↦ ground arith
        ]

    drain_idle :
        (l : EventLoop epoll.Kernel)
        → l.pending ≡ []
        → drain_pending_tasks epoll program l ≡ (record l { pending = [] }, none)
    unfolding drain_pending_tasks run_callbacks
    drain_idle l idle = ap (λ cs. run_callbacks epoll program cs (record l { pending = [] })) idle

    drain_and_compact_fatal :
        (l : EventLoop epoll.Kernel) (before after : List TaskEntry) (t : TaskEntry) (e : Exception)
        → l.pending ≡ []
        → l.tasks ≡ before ++ t ∷ after
        → IsFatal t e
        → (x : Exception) × ((drain_and_compact epoll program l).1 ≡ some x) × (is_std x ≡ false)
    unfolding drain_and_compact
    drain_and_compact_fatal l before after t e idle parts fatal =
        let (x, thrown, odd) =
          compact_fatal (record l { pending = [] }) before after t e parts fatal in
        (
          x,
          rw (drain_idle l idle, drain_and_compact) (rw (drain_idle l idle) (ap (λ r. r.1) thrown)),
          odd,
        )

    -- When `run` is called on a loop that is not stopped, has no callback queued, and has a task
    -- that ended with an exception that is no std::exception, it throws an exception that is no
    -- std::exception.
    pub run_fatal :
        (answers : List WaitAnswer) (l : EventLoop epoll.Kernel) (before after : List TaskEntry)
        (t : TaskEntry) (e : Exception)
        → l.stopped ≡ false
        → l.pending ≡ []
        → l.tasks ≡ before ++ t ∷ after
        → IsFatal t e
        → (x : Exception) × ((run epoll program answers l).1 ≡ threw x) × (is_std x ≡ false)
    unfolding run
    run_fatal answers l before after t e going idle parts fatal =
        let (x, thrown, odd) = drain_and_compact_fatal l before after t e idle parts fatal in
        (x, leaves answers x thrown odd, odd)
      where
        leaves :
            (answers : List WaitAnswer) (x : Exception)
            → (drain_and_compact epoll program l).1 ≡ some x
            → is_std x ≡ false
            → (run epoll program answers l).1 ≡ threw x
        leaves [] x thrown odd = ground arith
        leaves (ready es ∷ rest) x thrown odd = ground arith
        leaves (failed e ∷ rest) x thrown odd = ground arith
