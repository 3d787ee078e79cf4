-- ===== src/Task/Same.antt =====
-- `Task<void>` behaves as `Task<T>` with one value (include/coro_epoll/task.hpp).
use cpp_coroutine_epoll.Common.{
  ℕ, ◌≡◌, refl, sym, subst, ◌∙◌, Bool, true, false, none, some, List, [], ◌∷◌, ◌==◌, Bool-cases,
  inl, inr,
}
use cpp_coroutine_epoll.Common.Family.{update}
use cpp_coroutine_epoll.Task.Frames.{Ending}
use cpp_coroutine_epoll.Task.Handles.{
  Frames, Handle, destroy, move, move_assign, assign, done, exception, resume, await_task,
}
use cpp_coroutine_epoll.Task.Void.{
  VoidFrames, destroy_void, move_void, move_assign_void, assign_void, done_void, exception_void,
  resume_void, co_await_void,
}
use cpp_coroutine_epoll.Task.Class.{
  task_unit, task_void, Operation, creates, moves, assigns, resumes, destroys, awaits, Objects,
  perform, performs, no_objects, begin_of,
}
use cpp_coroutine_epoll.Task.Alike.{
  both_final, Alike-at_end, Alike-exception, Alike-begin, SameFrames, create-SameFrames,
  destroy-SameFrames, resume-SameFrames, begin-SameFrames,
}

record SameObjects (s : Objects task_unit) (v : Objects task_void) : Type 0 where
  handles : (i : ℕ) → s.handles i ≡ v.handles i
  frames : SameFrames s.frames v.frames

update_congr :
    (f g : ℕ → Handle) (i : ℕ) {a b : Handle}
    → ((j : ℕ) → f j ≡ g j)
    → a ≡ b
    → (j : ℕ) → update f i a j ≡ update g i b j
update_congr f g i same new j = elim (Bool-cases (i == j)) [
  | inl here ↦ rw here new
  | inr apart ↦ rw apart (same j)
]

-- Destruction of the frame that two equal handles refer to.
destroys_alike :
    (h k : Handle) (fs : Frames (Unit {0})) (vs : VoidFrames)
    → h ≡ k
    → SameFrames fs vs
    → SameFrames (destroy h fs).1 (destroy_void k vs).1
destroys_alike h k fs vs is same =
    subst (λ x. SameFrames (destroy h fs).1 (destroy_void x vs).1) is
      (destroy-SameFrames h fs vs same)

-- The assignment to equal handles, of the same object or of another.
assigns_alike :
    (self : Bool) (h k g l : Handle) (fs : Frames (Unit {0})) (vs : VoidFrames)
    → h ≡ k
    → g ≡ l
    → SameFrames fs vs
    → ((assign self h g fs).0 ≡ (assign_void self k l vs).0)
      × ((assign self h g fs).1 ≡ (assign_void self k l vs).1)
      × SameFrames (assign self h g fs).2 (assign_void self k l vs).2
unfolding assign assign_void move_assign move_assign_void
assigns_alike true h k g l fs vs is others same = (is, others, same)
assigns_alike false h k g l fs vs is others same = (others, refl, destroys_alike h k fs vs is same)

awaits_alike :
    (h : Handle) (fs : Frames (Unit {0})) (vs : VoidFrames)
    → SameFrames fs vs
    → SameFrames (begin_of fs (await_task h fs)).1 (co_await_void h vs).1
unfolding await_task co_await_void
awaits_alike none fs vs same = same
awaits_alike (some f) fs vs same = begin-SameFrames (same.frames f) f fs vs same

destroy-none : (h : Handle) (fs : Frames (Unit {0})) → (destroy h fs).0 ≡ none
unfolding destroy
destroy-none none fs = refl
destroy-none (some f) fs = refl

destroy_void-none : (h : Handle) (fs : VoidFrames) → (destroy_void h fs).0 ≡ none
unfolding destroy_void
destroy_void-none none fs = refl
destroy_void-none (some f) fs = refl

perform-SameObjects :
    (o : Operation) (s : Objects task_unit) (v : Objects task_void)
    → SameObjects s v
    → SameObjects (perform task_unit o s) (perform task_void o v)
unfolding perform move move_void
perform-SameObjects (creates i r) s v same =
    let (frames, handle) = create-SameFrames r s.frames v.frames same.frames in
    record { handles = update_congr s.handles v.handles i same.handles handle; frames = frames }
perform-SameObjects (moves i j) s v same = record {
  handles =
      update_congr _ _ j (update_congr s.handles v.handles i same.handles (same.handles j)) refl;
  frames = same.frames;
}
perform-SameObjects (assigns i j) s v same =
    let (target, rest, frames) =
      assigns_alike (i == j) (s.handles i) (v.handles i) (s.handles j) (v.handles j) s.frames
        v.frames (same.handles i) (same.handles j) same.frames in
    record {
      handles = update_congr _ _ j (update_congr s.handles v.handles i same.handles target) rest;
      frames = frames;
    }
perform-SameObjects (awaits i) s v same = record {
  handles = same.handles;
  frames =
      subst
        (λ h. SameFrames (task_unit.co_await (s.handles i) s.frames).1 (co_await_void h v.frames).1)
        (same.handles i) (awaits_alike (s.handles i) s.frames v.frames same.frames);
}
perform-SameObjects (resumes i) s v same = record {
  handles = same.handles;
  frames =
      subst (λ h. SameFrames (resume (s.handles i) s.frames) (resume_void h v.frames))
        (same.handles i) (resume-SameFrames (s.handles i) s.frames v.frames same.frames);
}
perform-SameObjects (destroys i) s v same = record {
  handles =
      update_congr s.handles v.handles i same.handles
        (destroy-none (s.handles i) s.frames ∙ sym (destroy_void-none (v.handles i) v.frames));
  frames =
      destroys_alike (s.handles i) (v.handles i) s.frames v.frames (same.handles i) same.frames;
}

performs-SameObjects :
    (os : List Operation) (s : Objects task_unit) (v : Objects task_void)
    → SameObjects s v
    → SameObjects (performs task_unit os s) (performs task_void os v)
unfolding performs
performs-SameObjects [] s v same = same
performs-SameObjects (o ∷ os) s v same =
    performs-SameObjects os _ _ (perform-SameObjects o s v same)

-- What can be seen of a task through its handle.
seen_alike :
    (h : Handle) (fs : Frames (Unit {0})) (vs : VoidFrames)
    → SameFrames fs vs
    → (done h fs ≡ done_void h vs)
      × (exception h fs ≡ exception_void h vs)
      × ((begin_of fs (await_task h fs)).0 ≡ (co_await_void h vs).0)
unfolding done done_void exception exception_void await_task co_await_void
seen_alike none fs vs same = (refl, refl, refl)
seen_alike (some f) fs vs same =
    let alike = same.frames f in
    (Alike-at_end alike, Alike-exception alike, Alike-begin alike f fs vs)

-- After any sequence of creations, moves, assignments, also of a task to itself, resumptions, awaits and
-- destructions of tasks, done with both classes: the frames that have been destroyed are the same, in the same order, and for every
-- task object `done` and `exception` say the same, and `co_await` begins in the same way, with the
-- same result if it goes on at once.
pub performs_same :
    (os : List Operation) (i : ℕ)
    → let s = performs task_unit os (no_objects task_unit) in
      let v = performs task_void os (no_objects task_void) in
      (s.frames.destroyed ≡ v.frames.destroyed)
      × (done (s.handles i) s.frames ≡ done_void (v.handles i) v.frames)
      × (exception (s.handles i) s.frames ≡ exception_void (v.handles i) v.frames)
      × ((begin_of s.frames (await_task (s.handles i) s.frames)).0
          ≡ (co_await_void (v.handles i) v.frames).0)
performs_same os i =
    let s = performs task_unit os (no_objects task_unit) in
    let v = performs task_void os (no_objects task_void) in
    let start : SameObjects (no_objects task_unit) (no_objects task_void) = record {
      handles = λ j. refl;
      frames = record { next = refl; destroyed = refl; frames = λ f. both_final (Ending.value tt) };
    } in
    let same = performs-SameObjects os (no_objects task_unit) (no_objects task_void) start in
    let h = s.handles i in
    let (ended, thrown, begun) =
      subst
        (λ x.
          (done h s.frames ≡ done_void x v.frames)
          × (exception h s.frames ≡ exception_void x v.frames)
          × ((begin_of s.frames (await_task h s.frames)).0 ≡ (co_await_void x v.frames).0))
        (same.handles i) (seen_alike h s.frames v.frames same.frames) in
    (same.frames.destroyed, ended, thrown, begun)
