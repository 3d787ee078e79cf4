-- ===== src/Task/Lifetime.antt =====
-- Over any sequence of operations on `Task` objects (include/coro_epoll/task.hpp), each coroutine frame
-- is destroyed once, and never while a task refers to it.
use cpp_coroutine_epoll.Common.{
  ℕ, ◌+◌, ◌≤◌, ◌<◌, ◌≡◌, ◌≢◌, refl, ap, none, some, [], arith, ◌==◌, ltb, if◌then◌else◌, inl, inr,
  Bool-cases, ==_iff,
}
use cpp_coroutine_epoll.Common.Family.{
  update, count, count-snoc, total, total-update, total-two, total-zero,
}
use cpp_coroutine_epoll.Task.Handles.{
  Run, Coroutine, Frames, Handle, create, destroy, move, move_assign, resume,
}

-- The tasks of a program, one to a slot: a slot that holds no object is `none`.
pub record Tasks (A : Type 0) : Type 0 where
  pub handles : ℕ → Handle
  pub frames : Frames A

-- An operation on the tasks in `n` slots; `destroys` is the destructor.
pub data Step {A : Type 0} (n : ℕ) (s : Tasks A) : Tasks A → Type 0 where
  creates :
      (i : ℕ) (r : Run A)
      → i < n
      → s.handles i ≡ none
      → Step n s (record {
        handles = update s.handles i (create r s.frames).0;
        frames = (create r s.frames).1;
      })
  moves :
      (i j : ℕ)
      → i < n
      → j < n
      → s.handles i ≡ none
      → i ≢ j
      → Step n s (record s {
        handles = update (update s.handles i (move (s.handles j)).0) j (move (s.handles j)).1;
      })
  assigns :
      (i j : ℕ)
      → i < n
      → j < n
      → i ≢ j
      → Step n s (record {
        handles =
            update
              (update s.handles i (move_assign (s.handles i) (s.handles j) s.frames).0)
              j
              (move_assign (s.handles i) (s.handles j) s.frames).1;
        frames = (move_assign (s.handles i) (s.handles j) s.frames).2;
      })
  resumes : (i : ℕ) → i < n → Step n s (record s { frames = resume (s.handles i) s.frames })
  destroys :
      (i : ℕ)
      → i < n
      → Step n s (record {
        handles = update s.handles i (destroy (s.handles i) s.frames).0;
        frames = (destroy (s.handles i) s.frames).1;
      })

-- No task yet; `frame` says nothing about the frames that have not been made.
abbrev pub no_tasks : {A : Type 0} → (ℕ → Coroutine A) → Tasks A
no_tasks frame = record {
  handles = λ i. none;
  frames = record { next = 0; frame = frame; destroyed = [] };
}

pub data Reach {A : Type 0} (n : ℕ) : Tasks A → Type 0 where
  begin : (frame : ℕ → Coroutine A) → Reach n (no_tasks frame)
  later : {s t : Tasks A} → Reach n s → Step n s t → Reach n t

abbrev pub owns : ℕ → Handle → ℕ
owns a none = 0
owns a (some f) = if f == a then 1 else 0

abbrev exists : ℕ → ℕ → ℕ
exists next a = if ltb a next then 1 else 0

-- The weight of one slot is part of the total.
owns-total :
    (a n i f : ℕ) (handles : ℕ → Handle)
    → i < n
    → handles i ≡ some f
    → owns a (some f) ≤ total (owns a) n handles
owns-total a n i f handles lt holds =
    let held : owns a (handles i) ≡ owns a (some f) = ap (owns a) holds in
    omega (arith, held, total-update (owns a) n i handles none lt)

not_owned : (a : ℕ) (h : Handle) → h ≢ some a → owns a h ≡ 0
not_owned a none ne = refl
not_owned a (some f) ne = elim (Bool-cases (f == a)) [
  | inl same ↦ absurd (ne (ap some ((==_iff f a).0 same)))
  | inr apart ↦ rw apart refl
]

module _ {A : Type 0} where
  -- Every frame that has been made is with exactly one task still, or has been destroyed.
  abbrev Balanced : ℕ → Tasks A → Type 0
  Balanced n s =
      (a : ℕ) → exists s.frames.next a ≡ count a s.frames.destroyed + total (owns a) n s.handles

  destroy-owns :
      (a : ℕ) (h : Handle) (fs : Frames A)
      → (owns a (destroy h fs).0 ≡ 0)
        × ((destroy h fs).1.next ≡ fs.next)
        × (count a (destroy h fs).1.destroyed ≡ count a fs.destroyed + owns a h)
  unfolding destroy
  destroy-owns a none fs = (refl, refl, omega arith)
  destroy-owns a (some f) fs = (refl, refl, count-snoc a f fs.destroyed)

  resume_keeps :
      (h : Handle) (fs : Frames A)
      → ((resume h fs).next ≡ fs.next) × ((resume h fs).destroyed ≡ fs.destroyed)
  unfolding resume
  resume_keeps none fs = (refl, refl)
  resume_keeps (some f) fs = ground arith

  Step-Balanced : {n : ℕ} {s t : Tasks A} → Step n s t → Balanced n s → Balanced n t
  unfolding create move move_assign
  Step-Balanced {n} {s} (creates i r lt free) inv a =
      let vacant : owns a (s.handles i) ≡ 0 = ap (owns a) free in
      ground (arith, vacant, inv a, total-update (owns a) n i s.handles (some s.frames.next) lt)
  Step-Balanced {n} {s} (moves i j li lj free ne) inv a =
      let vacant : owns a (s.handles i) ≡ 0 = ap (owns a) free in
      omega (arith, vacant, inv a, total-two (owns a) n i j s.handles (s.handles j) none li lj ne)
  Step-Balanced {n} {s} (assigns i j li lj ne) inv a =
      let (emptied, kept, logged) = destroy-owns a (s.handles i) s.frames in
      rw kept (
        omega
          (arith, inv a, logged, total-two (owns a) n i j s.handles (s.handles j) none li lj ne))
  Step-Balanced {n} {s} (resumes i lt) inv a =
      let (kept, logged) = resume_keeps (s.handles i) s.frames in rw (kept, logged) (inv a)
  Step-Balanced {n} {s} (destroys i lt) inv a =
      let (emptied, kept, logged) = destroy-owns a (s.handles i) s.frames in
      rw kept (
        omega (
          arith,
          inv a,
          emptied,
          logged,
          total-update (owns a) n i s.handles (destroy (s.handles i) s.frames).0 lt,
        ))

  Reach-Balanced : {n : ℕ} {s : Tasks A} → Reach n s → Balanced n s
  unfolding count
  Reach-Balanced {n} (begin frame) = λ a.
      let none_made : exists 0 a ≡ 0 = ground arith in
      omega (arith, none_made, total-zero (owns a) n (λ (i : ℕ). none) (λ i lt. refl))
  Reach-Balanced (later r st) = Step-Balanced st (Reach-Balanced r)

  pub held_exists :
      {n : ℕ} {s : Tasks A}
      → Reach n s
      → (i f : ℕ) → i < n
      → s.handles i ≡ some f
      → f < s.frames.next
  held_exists {n} {s} reach i f lt holds =
      ground (arith, Reach-Balanced reach f, owns-total f n i f s.handles lt holds)

  -- Over any sequence of creations, moves, assignments, resumptions and destructions of tasks, no frame
  -- is destroyed twice, and none that a task refers to has been destroyed; a frame that no task refers
  -- to any more has been destroyed exactly once.
  pub frames_destroyed_once :
      {n : ℕ} {s : Tasks A}
      → Reach n s
      → (a : ℕ)
      → (count a s.frames.destroyed ≤ 1)
        × ((i : ℕ) → i < n → s.handles i ≡ some a → count a s.frames.destroyed ≡ 0)
        × (((i : ℕ) → i < n → s.handles i ≢ some a)
            → a < s.frames.next
            → count a s.frames.destroyed ≡ 1)
  frames_destroyed_once {n} {s} reach a =
      let balanced = Reach-Balanced reach a in
      (
        ground (arith, balanced),
        (λ i lt holds. ground (arith, balanced, owns-total a n i a s.handles lt holds)),
        (λ unheld made. ground (
          arith,
          balanced,
          total-zero (owns a) n s.handles (λ i lt. not_owned a (s.handles i) (unheld i lt)),
        )),
      )
