-- ===== src/Wakeup/Delivery.antt =====
-- No wakeup is lost: neither a posted callback nor a stop can be left behind a loop that sleeps.
use cpp_coroutine_epoll.Common.{
  ℕ, ◌<◌, ◌≡◌, ◌≢◌, ◌⊎◌, inl, inr, refl, sym, ap, ◌∙◌, true, false, List, [], ◌∷◌, ◌++◌,
  append_assoc, append-nil, arith,
}
use cpp_coroutine_epoll.Wakeup.Protocol.{
  Pc, top, draining, waiting, woken, emptied, finished, Shared, LoopStep, ends, goes_on, drains,
  wakes, empties, redrains, KernelStep, interrupted, elsewhere, CallerStep, pushes, signals,
  sets_stop, signals_stop, Reach, begin, loop, kernel, caller, LoopPath, here, then_step,
}

pub record Inv (s : Shared) : Type 0 where
  -- A loop in epoll_wait that has callbacks to run has been signalled, or is about to be.
  pub signalled : s.pc ≡ waiting → s.pending ≢ [] → s.posting ≡ false → 0 < s.counter
  -- So has a loop that is past its test of `stopped_`, once that is set.
  pub stop_signalled :
      (s.pc ≡ waiting) ⊎ (s.pc ≡ draining) → s.stopped ≡ true → s.stopping ≡ 0 → 0 < s.counter
  -- Every callback posted has been taken out once, in order, or is in the queue.
  pub in_order : s.posted ≡ s.taken ++ s.pending

LoopStep-Inv : {s t : Shared} → LoopStep s t → Inv s → Inv t
LoopStep-Inv (ends p q) inv = ground arith
LoopStep-Inv (goes_on p q) inv = ground arith
LoopStep-Inv (drains p q) inv = record {
  signalled = λ _ ne _. absurd (ne refl);
  stop_signalled = ground arith;
  in_order = inv.in_order ∙ sym (append-nil _);
}
LoopStep-Inv (wakes p q) inv = ground arith
LoopStep-Inv (empties p) inv = ground arith
LoopStep-Inv (redrains p q) inv = record {
  signalled = λ _ ne _. absurd (ne refl);
  stop_signalled = ground arith;
  in_order = inv.in_order ∙ sym (append-nil _);
}

KernelStep-Inv : {s t : Shared} → KernelStep s t → Inv s → Inv t
KernelStep-Inv (interrupted p) inv = ground arith
KernelStep-Inv (elsewhere p) inv = ground arith

CallerStep-Inv : {s t : Shared} → CallerStep s t → Inv s → Inv t
CallerStep-Inv {s} (pushes c p) inv = record {
  signalled = ground arith;
  stop_signalled = inv.stop_signalled;
  in_order = ap (λ l. l ++ c ∷ []) inv.in_order ∙ append_assoc s.taken s.pending (c ∷ []);
}
CallerStep-Inv (signals p) inv = ground arith
CallerStep-Inv sets_stop inv = ground arith
CallerStep-Inv (signals_stop n p) inv = ground arith

pub Reach-Inv : {s : Shared} → Reach s → Inv s
Reach-Inv begin = ground arith
Reach-Inv (loop r st) = LoopStep-Inv st (Reach-Inv r)
Reach-Inv (kernel r st) = KernelStep-Inv st (Reach-Inv r)
Reach-Inv (caller r st) = CallerStep-Inv st (Reach-Inv r)

-- In every reachable state: a loop that is blocked in epoll_wait with the eventfd at 0, while no call
-- of `post` or `stop` is under way, has no callback to run and has not been stopped.
pub blocked_is_idle :
    {s : Shared}
    → Reach s
    → s.pc ≡ waiting
    → s.counter ≡ 0
    → s.posting ≡ false
    → s.stopping ≡ 0
    → (s.pending ≡ []) × (s.stopped ≡ false)
blocked_is_idle {s} r w c p n = (idle s.pending refl, ground (arith, inv.stop_signalled))
  where
    inv : Inv s
    inv = Reach-Inv r

    idle : (cs : List ℕ) → s.pending ≡ cs → s.pending ≡ []
    idle [] e = e
    idle (x ∷ xs) e = absurd (omega (arith, inv.signalled w (λ q. ground arith) p))

-- In every reachable state the callbacks posted so far are those that the loop has taken, in the order
-- in which they were posted and each once, followed by those in the queue.
pub posted_in_order : {s : Shared} → Reach s → s.posted ≡ s.taken ++ s.pending
posted_in_order r = (Reach-Inv r).in_order

-- From every reachable state in which the loop is in epoll_wait and callbacks are queued, with no
-- `post` under way, steps of the loop alone lead to a state in which it has taken all that was posted.
pub posted_is_taken :
    {s : Shared}
    → Reach s
    → s.pc ≡ waiting
    → s.pending ≢ []
    → s.posting ≡ false
    → (t : Shared) × LoopPath s t × (t.taken ≡ s.posted)
posted_is_taken {s} r w ne p = (
  _,
  then_step (then_step (then_step here (wakes w ((Reach-Inv r).signalled w ne p))) (empties refl))
      (redrains refl p),
  sym (Reach-Inv r).in_order,
)

from_top :
    (s : Shared) → s.pc ≡ top → s.stopped ≡ true → (t : Shared) × LoopPath s t × (t.pc ≡ finished)
from_top s p stop = (_, then_step here (ends p stop), refl)

from_waiting :
    (s : Shared)
    → s.pc ≡ waiting
    → 0 < s.counter
    → s.posting ≡ false
    → s.stopped ≡ true
    → (t : Shared) × LoopPath s t × (t.pc ≡ finished)
from_waiting s w c p stop = (
  _,
  then_step (then_step (then_step (then_step here (wakes w c)) (empties refl)) (redrains refl p))
      (ends refl stop),
  refl,
)

-- From every reachable state in which a call of `stop` has been completed, and no `post` is under way,
-- steps of the loop alone lead to the return of `run`; from epoll_wait they go by the eventfd.
pub stopped_finishes :
    {s : Shared}
    → Reach s
    → s.stopped ≡ true
    → s.stopping ≡ 0
    → s.posting ≡ false
    → (t : Shared) × LoopPath s t × (t.pc ≡ finished)
stopped_finishes {s} r stop n p = at s.pc refl
  where
    inv : Inv s
    inv = Reach-Inv r

    at : (pc : Pc) → s.pc ≡ pc → (t : Shared) × LoopPath s t × (t.pc ≡ finished)
    at top e = from_top s e stop
    at draining e = (
      _,
      then_step
          (then_step
            (then_step
              (then_step (then_step here (drains e p))
                (wakes refl (inv.stop_signalled (inr e) stop n)))
              (empties refl))
            (redrains refl p))
          (ends refl stop),
      refl,
    )
    at waiting e = from_waiting s e (inv.stop_signalled (inl e) stop n) p stop
    at woken e = (
      _,
      then_step (then_step (then_step here (empties e)) (redrains refl p)) (ends refl stop),
      refl,
    )
    at emptied e = (_, then_step (then_step here (redrains e p)) (ends refl stop), refl)
    at finished e = (s, here, e)
