-- ===== src/Task/Alike.antt =====
-- What the operations of `Task<void>` and of `Task<T>` with one value do to like frames
-- (include/coro_epoll/task.hpp).
use cpp_coroutine_epoll.Common.{
  ℕ, suc, subst, ◌≡◌, refl, ap, sym, ◌∙◌, Option, none, some, [], ◌∷◌, ◌++◌, ◌==◌, Bool-cases, inl,
  inr,
}
use cpp_coroutine_epoll.Common.Family.{update}
use cpp_coroutine_epoll.System.{Exception}
use cpp_coroutine_epoll.Task.Frames.{Ending, fresh, return_value, unhandled_exception, await_resume}
use cpp_coroutine_epoll.Task.Await.{promise_of}
use cpp_coroutine_epoll.Task.Handles.{
  Run, ends, pauses, Coroutine, Frames, Handle, create, destroy, resume, resume_frame, at_end,
  await_frame,
}
use cpp_coroutine_epoll.Task.Void.{
  VoidPromise, VoidCoroutine, VoidFrames, fresh_void, return_void, unhandled_exception_void,
  await_resume_void, at_end_void, resume_frame_void, create_void, destroy_void, resume_void,
  begin_void,
}
use cpp_coroutine_epoll.Task.Class.{begin_of}

abbrev pub promise_void : Ending (Unit {0}) → VoidPromise
promise_void (Ending.value v) = fresh_void
promise_void (Ending.throws e) = record { exception = some e }

-- Frames of the two classes that are at the same point with the same result.
pub data Alike : Coroutine (Unit {0}) → VoidCoroutine → Type 0 where
  both_suspended :
      (r : Run (Unit {0}))
      → Alike (Coroutine.suspended r fresh) (VoidCoroutine.suspended r fresh_void)
  both_final :
      (e : Ending (Unit {0}))
      → Alike (Coroutine.final (promise_of e)) (VoidCoroutine.final (promise_void e))

pub Alike-at_end :
    {c : Coroutine (Unit {0})} {d : VoidCoroutine} → Alike c d → at_end c ≡ at_end_void d
unfolding at_end at_end_void
Alike-at_end (both_suspended r) = refl
Alike-at_end (both_final e) = refl

resume_frame-Alike :
    {c : Coroutine (Unit {0})} {d : VoidCoroutine}
    → Alike c d
    → Alike (resume_frame c) (resume_frame_void d)
unfolding resume_frame resume_frame_void return_void unhandled_exception_void return_value
    unhandled_exception
resume_frame-Alike (both_suspended (ends (Ending.value v))) = both_final (Ending.value v)
resume_frame-Alike (both_suspended (ends (Ending.throws e))) = both_final (Ending.throws e)
resume_frame-Alike (both_suspended (pauses r)) = both_suspended r
resume_frame-Alike (both_final e) = both_final e

abbrev pub exception_of : Coroutine (Unit {0}) → Option Exception
exception_of (Coroutine.suspended r p) = none
exception_of (Coroutine.final p) = p.exception

abbrev pub exception_of_void : VoidCoroutine → Option Exception
exception_of_void (VoidCoroutine.suspended r p) = none
exception_of_void (VoidCoroutine.final p) = p.exception

pub Alike-exception :
    {c : Coroutine (Unit {0})} {d : VoidCoroutine}
    → Alike c d
    → exception_of c ≡ exception_of_void d
Alike-exception (both_suspended r) = refl
Alike-exception (both_final (Ending.value v)) = refl
Alike-exception (both_final (Ending.throws e)) = refl

pub Alike-begin :
    {c : Coroutine (Unit {0})} {d : VoidCoroutine}
    → Alike c d
    → (f : ℕ) (fs : Frames (Unit {0})) (vs : VoidFrames)
    → (begin_of fs (await_frame f fs c)).0 ≡ (begin_void f vs d).0
unfolding await_frame await_resume await_resume_void
Alike-begin (both_suspended r) f fs vs = refl
Alike-begin (both_final (Ending.value v)) f fs vs = refl
Alike-begin (both_final (Ending.throws e)) f fs vs = refl

pub record SameFrames (fs : Frames (Unit {0})) (vs : VoidFrames) : Type 0 where
  pub next : fs.next ≡ vs.next
  pub destroyed : fs.destroyed ≡ vs.destroyed
  pub frames : (f : ℕ) → Alike (fs.frame f) (vs.frame f)

update-Alike :
    (c : ℕ → Coroutine (Unit {0})) (d : ℕ → VoidCoroutine) (f : ℕ) {a : Coroutine (Unit {0})}
    {b : VoidCoroutine}
    → ((g : ℕ) → Alike (c g) (d g))
    → Alike a b
    → (g : ℕ) → Alike (update c f a g) (update d f b g)
update-Alike c d f same new g = elim (Bool-cases (f == g)) [
  | inl here ↦ rw here new
  | inr apart ↦ rw apart (same g)
]

pub resume-SameFrames :
    (h : Handle) (fs : Frames (Unit {0})) (vs : VoidFrames)
    → SameFrames fs vs
    → SameFrames (resume h fs) (resume_void h vs)
unfolding resume resume_void
resume-SameFrames none fs vs same = same
resume-SameFrames (some f) fs vs same =
    let agree = Alike-at_end (same.frames f) in
    elim (Bool-cases (at_end (fs.frame f))) [
      | inl over ↦ rw (over, sym agree ∙ over) same
      | inr live ↦
          rw (live, sym agree ∙ live)
            (record {
              next = same.next;
              destroyed = same.destroyed;
              frames =
                  update-Alike fs.frame vs.frame f same.frames (resume_frame-Alike (same.frames f));
            })
    ]

pub begin-SameFrames :
    {c : Coroutine (Unit {0})} {d : VoidCoroutine}
    → Alike c d
    → (f : ℕ) (fs : Frames (Unit {0})) (vs : VoidFrames) → SameFrames fs vs
    → SameFrames (begin_of fs (await_frame f fs c)).1 (begin_void f vs d).1
unfolding await_frame await_resume await_resume_void
begin-SameFrames (both_suspended r) f fs vs same = resume-SameFrames (some f) fs vs same
begin-SameFrames (both_final (Ending.value v)) f fs vs same = same
begin-SameFrames (both_final (Ending.throws e)) f fs vs same = same

pub destroy-SameFrames :
    (h : Handle) (fs : Frames (Unit {0})) (vs : VoidFrames)
    → SameFrames fs vs
    → SameFrames (destroy h fs).1 (destroy_void h vs).1
unfolding destroy destroy_void
destroy-SameFrames none fs vs same = same
destroy-SameFrames (some f) fs vs same = record {
  next = same.next;
  destroyed = ap (λ l. l ++ f ∷ []) same.destroyed;
  frames = same.frames;
}

pub create-SameFrames :
    (r : Run (Unit {0})) (fs : Frames (Unit {0})) (vs : VoidFrames)
    → SameFrames fs vs
    → SameFrames (create r fs).1 (create_void r vs).1 × ((create r fs).0 ≡ (create_void r vs).0)
unfolding create create_void
create-SameFrames r fs vs same = (
  record {
    next = ap suc same.next;
    destroyed = same.destroyed;
    frames =
        subst
          (λ m.
            (g : ℕ)
            → Alike (update fs.frame fs.next (Coroutine.suspended r fresh) g)
                (update vs.frame m (VoidCoroutine.suspended r fresh_void) g))
          same.next (update-Alike fs.frame vs.frame fs.next same.frames (both_suspended r));
  },
  ap some same.next,
)
