-- ===== src/Task/Class.antt =====
-- The interface of the task classes in include/coro_epoll/task.hpp, filled by `Task<T>` for a type `T`
-- with one value and by `Task<void>`, and a program on task objects.
use cpp_coroutine_epoll.Common.{ℕ, Bool, Option, none, some, List, [], ◌∷◌, ◌==◌}
use cpp_coroutine_epoll.Common.Family.{update}
use cpp_coroutine_epoll.System.{Exception}
use cpp_coroutine_epoll.Task.Frames.{Promise}
use cpp_coroutine_epoll.Task.Handles.{
  Run, Coroutine, Frames, Handle, create, destroy, move, assign, done, exception, resume, Awaited,
  ready, runs, undefined, await_task,
}
use cpp_coroutine_epoll.Task.Void.{
  VoidFrames, VoidCoroutine, Begin, goes_on, resumes_it, fresh_void, create_void, destroy_void,
  move_void, assign_void, done_void, exception_void, resume_void, co_await_void,
}

pub record TaskClass : Type 1 where
  pub Frames : Type 0
  pub no_frames : Frames
  pub create : Run (Unit {0}) → Frames → Handle × Frames
  pub destroy : Handle → Frames → Handle × Frames
  pub move : Handle → Handle × Handle
  pub assign : Bool → Handle → Handle → Frames → Handle × Handle × Frames
  pub resume : Handle → Frames → Frames
  pub done : Handle → Frames → Bool
  pub exception : Handle → Frames → Option Exception
  pub co_await : Handle → Frames → Begin × Frames

abbrev pub begin_of : Frames (Unit {0}) → Awaited (Unit {0}) → Begin × Frames (Unit {0})
begin_of fs (ready e) = (goes_on e, fs)
begin_of fs (runs fs') = (resumes_it, fs')
begin_of fs undefined = (Begin.undefined, fs)

-- What stands for the frames that have not been made, to which no handle refers.
abbrev nothing : Promise (Unit {0})
nothing = record { value = some tt; exception = none }

abbrev pub task_unit : TaskClass
task_unit = record {
  Frames = Frames (Unit {0});
  no_frames = record { next = 0; frame = λ f. Coroutine.final nothing; destroyed = [] };
  create = create;
  destroy = destroy;
  move = move;
  assign = assign;
  resume = resume;
  done = done;
  exception = exception;
  co_await = λ h fs. begin_of fs (await_task h fs);
}

abbrev pub task_void : TaskClass
task_void = record {
  Frames = VoidFrames;
  no_frames = record { next = 0; frame = λ f. VoidCoroutine.final fresh_void; destroyed = [] };
  create = create_void;
  destroy = destroy_void;
  move = move_void;
  assign = assign_void;
  resume = resume_void;
  done = done_void;
  exception = exception_void;
  co_await = co_await_void;
}

-- An operation on the tasks in numbered slots: `creates i r` calls a coroutine, whose task goes to slot
-- `i`; `moves i j` constructs `i` from `j`; `assigns i j` is `i = std::move(j)`; `awaits i` is
-- `co_await` of `i`, up to its suspension.
pub data Operation : Type 0 where
  creates : ℕ → Run (Unit {0}) → Operation
  moves assigns : ℕ → ℕ → Operation
  resumes destroys awaits : ℕ → Operation

module _ (class : TaskClass) where
  pub record Objects : Type 0 where
    pub handles : ℕ → Handle
    pub frames : class.Frames

  unfoldable pub perform : Operation → Objects → Objects
  perform (creates i r) s =
      let (h, fs) = class.create r s.frames in
      record { handles = update s.handles i h; frames = fs }
  perform (moves i j) s =
      let (h, rest) = class.move (s.handles j) in
      record s { handles = update (update s.handles i h) j rest }
  perform (assigns i j) s =
      let (h, rest, fs) = class.assign (i == j) (s.handles i) (s.handles j) s.frames in
      record { handles = update (update s.handles i h) j rest; frames = fs }
  perform (resumes i) s = record s { frames = class.resume (s.handles i) s.frames }
  perform (awaits i) s = record s { frames = (class.co_await (s.handles i) s.frames).1 }
  perform (destroys i) s =
      let (h, fs) = class.destroy (s.handles i) s.frames in
      record { handles = update s.handles i h; frames = fs }

  unfoldable pub performs : List Operation → Objects → Objects
  performs [] s = s
  performs (o ∷ os) s = performs os (perform o s)

  abbrev pub no_objects : Objects
  no_objects = record { handles = λ i. none; frames = class.no_frames }
