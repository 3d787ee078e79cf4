-- ===== src/Task/Resumption.antt =====
-- What `resume`, `done`, `exception` and `co_await` of `Task` (include/coro_epoll/task.hpp) say of a
-- coroutine.
use cpp_coroutine_epoll.Common.{
  ℕ, zero, suc, ◌≤◌, ◌<◌, ◌≡◌, refl, ap, ◌∙◌, ◌↔◌, true, false, Option, none, some, arith, ◌==◌,
  if◌then◌else◌, ◌⊎◌, inl, inr, Bool-cases, Option-cases, ==_iff,
}
use cpp_coroutine_epoll.System.{Exception}
use cpp_coroutine_epoll.Task.Frames.{
  Ending, value, throws, Promise, fresh, await_resume, return_value, unhandled_exception,
}
use cpp_coroutine_epoll.Task.Await.{promise_of}
use cpp_coroutine_epoll.Task.Handles.{
  Run, ends, pauses, Coroutine, suspended, final, Frames, Handle, create, destroy, move_assign,
  done, exception, resume, resume_frame, at_end, ready, runs, undefined, await_frame, await_task,
}
use cpp_coroutine_epoll.Task.Lifetime.{
  Tasks, Step, creates, moves, assigns, resumes, destroys, Reach, begin, later, held_exists,
}

module _ {A : Type 0} where
  -- How often a coroutine suspends before its end, and that end.
  pub pause_count : Run A → ℕ
  pause_count (ends e) = 0
  pause_count (pauses r) = suc (pause_count r)

  pub ending_of : Run A → Ending A
  ending_of (ends e) = e
  ending_of (pauses r) = ending_of r

  abbrev pub thrown : Ending A → Option Exception
  thrown (value v) = none
  thrown (throws e) = some e

  -- `k` calls of `resume`.
  unfoldable pub resumed : ℕ → Handle → Frames A → Frames A
  unfolding resume
  resumed zero h fs = fs
  resumed (suc k) h fs = resumed k h (resume h fs)

  -- The frame after `k` calls.
  frame_after : ℕ → Coroutine A → Coroutine A
  frame_after zero c = c
  frame_after (suc k) c = frame_after k (if at_end c then c else resume_frame c)

  resume-frame :
      (f : ℕ) (fs : Frames A)
      → (resume (some f) fs).frame f
        ≡ (if at_end (fs.frame f) then fs.frame f else resume_frame (fs.frame f))
  unfolding resume
  resume-frame f fs = ground arith

  resumed-frame :
      (k f : ℕ) (fs : Frames A) → (resumed k (some f) fs).frame f ≡ frame_after k (fs.frame f)
  unfolding resumed frame_after
  resumed-frame zero f fs = refl
  resumed-frame (suc k) f fs =
      resumed-frame k f (resume (some f) fs) ∙ ap (frame_after k) (resume-frame f fs)

  frame_after-final : (k : ℕ) (p : Promise A) → frame_after k (final p) ≡ final p
  unfolding frame_after at_end
  frame_after-final zero p = refl
  frame_after-final (suc k) p = frame_after-final k p

  frame_after-early :
      (k : ℕ) (r : Run A)
      → k ≤ pause_count r
      → (r' : Run A) × (frame_after k (suspended r fresh) ≡ suspended r' fresh)
  unfolding frame_after at_end resume_frame pause_count
  frame_after-early zero r h = (r, refl)
  frame_after-early (suc k) (ends e) h = absurd (omega arith)
  frame_after-early (suc k) (pauses r) h = frame_after-early k r (omega arith)

  frame_after-late :
      (k : ℕ) (r : Run A)
      → pause_count r < k
      → frame_after k (suspended r fresh) ≡ final (promise_of (ending_of r))
  unfolding frame_after at_end resume_frame pause_count ending_of return_value unhandled_exception
  frame_after-late zero r h = absurd (omega arith)
  frame_after-late (suc k) (ends (value v)) h = frame_after-final k _
  frame_after-late (suc k) (ends (throws e)) h = frame_after-final k _
  frame_after-late (suc k) (pauses r) h = frame_after-late k r (omega arith)

  -- `exception` of a task with this frame.
  abbrev exception_of : Coroutine A → Option Exception
  exception_of (suspended r p) = none
  exception_of (final p) = p.exception

  promise_of-exception : (e : Ending A) → (promise_of e).exception ≡ thrown e
  promise_of-exception (value v) = refl
  promise_of-exception (throws e) = refl

  -- A task whose coroutine suspends `n` times is done after `n + 1` calls of `resume` and not before;
  -- more calls change nothing; `exception` has then what the body has thrown, if anything, and nothing
  -- before.
  pub resumed-done :
      (r : Run A) (fs : Frames A) (k : ℕ)
      → (let (h, fs') = create r fs in
          (k ≤ pause_count r
            → (done h (resumed k h fs') ≡ false) × (exception h (resumed k h fs') ≡ none))
          × (pause_count r < k
              → (done h (resumed k h fs') ≡ true)
                × (exception h (resumed k h fs') ≡ thrown (ending_of r))))
  unfolding create done exception at_end
  resumed-done r fs k =
      let (h, fs') = create r fs in
      let made : fs'.frame fs.next ≡ suspended r fresh = ground arith in
      let now : (resumed k h fs').frame fs.next ≡ frame_after k (suspended r fresh) =
        resumed-frame k fs.next fs' ∙ ap (frame_after k) made in
      (
        (λ early.
            let (r', before) = frame_after-early k r early in
            (ap at_end (now ∙ before), ap exception_of (now ∙ before))),
        (λ late.
            let after = now ∙ frame_after-late k r late in
            (ap at_end after, ap exception_of after ∙ promise_of-exception (ending_of r))),
      )

  -- A frame whose coroutine has not ended has an empty promise, one that has ended its result.
  abbrev Sound : Coroutine A → Type 0
  Sound (suspended r p) = p ≡ fresh
  Sound (final p) = (e : Ending A) × (p ≡ promise_of e)

  resume_frame-Sound : (c : Coroutine A) → Sound c → Sound (resume_frame c)
  unfolding resume_frame return_value unhandled_exception
  resume_frame-Sound (suspended (ends (value v)) p) h = (value v, ap (return_value v) h)
  resume_frame-Sound (suspended (ends (throws e)) p) h = (throws e, ap (unhandled_exception e) h)
  resume_frame-Sound (suspended (pauses r) p) h = h
  resume_frame-Sound (final p) h = h

  abbrev AllSound : Tasks A → Type 0
  AllSound s = (f : ℕ) → f < s.frames.next → Sound (s.frames.frame f)

  resume-Sound :
      (h : Handle) (fs : Frames A)
      → ((f : ℕ) → f < fs.next → Sound (fs.frame f))
      → (f : ℕ) → f < (resume h fs).next
      → Sound ((resume h fs).frame f)
  unfolding resume
  resume-Sound none fs inv f lt = inv f lt
  resume-Sound (some g) fs inv f lt = elim (Bool-cases (at_end (fs.frame g))) [
    | inl ended ↦ rw ended (inv f (rw ended at lt))
    | inr live ↦
        let below : f < fs.next = rw live at lt in
        rw live (elim (Bool-cases (g == f)) [
          | inl same ↦
              let here : g ≡ f = (==_iff g f).0 same in
              rw same (resume_frame-Sound (fs.frame g) (inv g (rw here below)))
          | inr apart ↦ rw apart (inv f below)
        ])
  ]

  destroy-Sound :
      (h : Handle) (fs : Frames A)
      → ((f : ℕ) → f < fs.next → Sound (fs.frame f))
      → (f : ℕ) → f < (destroy h fs).1.next
      → Sound ((destroy h fs).1.frame f)
  unfolding destroy
  destroy-Sound none fs inv = inv
  destroy-Sound (some g) fs inv = inv

  Step-Sound : {n : ℕ} {s t : Tasks A} → Step n s t → AllSound s → AllSound t
  unfolding create move_assign
  Step-Sound {n} {s} (creates i r lt free) inv = λ f below. elim (Bool-cases (s.frames.next == f)) [
    | inl same ↦ rw same refl
    | inr apart ↦ rw apart (inv f (ground arith))
  ]
  Step-Sound (moves i j li lj free ne) inv = inv
  Step-Sound {n} {s} (assigns i j li lj ne) inv = destroy-Sound (s.handles i) s.frames inv
  Step-Sound {n} {s} (resumes i lt) inv = resume-Sound (s.handles i) s.frames inv
  Step-Sound {n} {s} (destroys i lt) inv = destroy-Sound (s.handles i) s.frames inv

  Reach-Sound : {n : ℕ} {s : Tasks A} → Reach n s → AllSound s
  Reach-Sound (begin frame) = λ f below. absurd (omega arith)
  Reach-Sound (later r st) = Step-Sound st (Reach-Sound r)

  promise_of-ready : (e : Ending A) → await_resume (promise_of e) ≡ some e
  unfolding await_resume
  promise_of-ready (value v) = refl
  promise_of-ready (throws e) = refl

  await_task-Sound :
      (f : ℕ) (fs : Frames A) (c : Coroutine A)
      → fs.frame f ≡ c
      → Sound c
      → ((fs' : Frames A) × (await_task (some f) fs ≡ runs fs'))
        ⊎ ((e : Ending A) × (await_task (some f) fs ≡ ready e))
  unfolding await_task await_frame
  await_task-Sound f fs (suspended r p) is sound =
      inl (resume (some f) fs, ap (await_frame f fs) is)
  await_task-Sound f fs (final p) is (e, holds) =
      inr (e, ap (await_frame f fs) is ∙ rw (holds, promise_of-ready e) refl)

  -- After any sequence of creations, moves, assignments, resumptions and destructions of tasks: what
  -- `co_await` of a task reads is undefined exactly when the task has no coroutine, as after it has been
  -- moved from.
  pub await_task_defined :
      {n : ℕ} {s : Tasks A}
      → Reach n s
      → (i : ℕ) → i < n
      → (await_task (s.handles i) s.frames ≡ undefined) ↔ (s.handles i ≡ none)
  unfolding await_task
  await_task_defined {n} {s} reach i lt = elim (Option-cases (s.handles i)) [
    | inl empty ↦ ((λ h. empty), (λ h. rw empty refl))
    | inr (f, holds) ↦
        let sound = Reach-Sound reach f (held_exists reach i f lt holds) in
        elim (await_task-Sound f s.frames _ refl sound) [
          | inl (fs', e) ↦ ground arith
          | inr (r, e) ↦ ground arith
        ]
  ]
