-- ===== src/Wakeup/Takes.antt =====
-- A loop that is not stopped takes all that is posted (include/coro_epoll/event_loop.hpp).
use cpp_coroutine_epoll.Common.{
  ◌≡◌, inl, inr, refl, sym, ap, ◌∙◌, true, false, ◌++◌, append-nil, arith, List-cases,
}
use cpp_coroutine_epoll.Wakeup.Protocol
use cpp_coroutine_epoll.Wakeup.Protocol.{
  Pc, top, draining, waiting, woken, emptied, finished, Shared, LoopPath,
}
use cpp_coroutine_epoll.Wakeup.Delivery.{posted_in_order, posted_is_taken}

-- A loop at its end has been stopped.
finished-stopped : {s : Shared} → Protocol.Reach s → s.pc ≡ finished → s.stopped ≡ true
finished-stopped Protocol.begin is = absurd (cc)
finished-stopped (Protocol.loop r (Protocol.ends p q)) is = q
finished-stopped (Protocol.loop r (Protocol.goes_on p q)) is = absurd (cc)
finished-stopped (Protocol.loop r (Protocol.drains p q)) is = absurd (cc)
finished-stopped (Protocol.loop r (Protocol.wakes p q)) is = absurd (cc)
finished-stopped (Protocol.kernel r (Protocol.interrupted p)) is = absurd (cc)
finished-stopped (Protocol.kernel r (Protocol.elsewhere p)) is = absurd (cc)
finished-stopped (Protocol.loop r (Protocol.empties p)) is = absurd (cc)
finished-stopped (Protocol.loop r (Protocol.redrains p q)) is = absurd (cc)
finished-stopped (Protocol.caller r (Protocol.pushes c p)) is = finished-stopped r is
finished-stopped (Protocol.caller r (Protocol.signals p)) is = finished-stopped r is
finished-stopped (Protocol.caller r Protocol.sets_stop) is = refl
finished-stopped (Protocol.caller r (Protocol.signals_stop n p)) is = finished-stopped r is

-- From every reachable state of a loop that is not stopped, with no `post` under way, steps of the loop
-- alone lead to a state in which it has taken all that was posted; from epoll_wait they go by the
-- eventfd.
pub loop_takes :
    {s : Shared}
    → Protocol.Reach s
    → s.stopped ≡ false
    → s.posting ≡ false
    → (t : Shared) × LoopPath s t × (t.taken ≡ s.posted)
loop_takes {s} r going free = at s.pc refl
  where
    in_order : s.posted ≡ s.taken ++ s.pending
    in_order = posted_in_order r

    at : (pc : Pc) → s.pc ≡ pc → (t : Shared) × LoopPath s t × (t.taken ≡ s.posted)
    at top e = (
      _,
      Protocol.then_step (Protocol.then_step Protocol.here (Protocol.goes_on e going))
          (Protocol.drains refl free),
      sym in_order,
    )
    at draining e = (_, Protocol.then_step Protocol.here (Protocol.drains e free), sym in_order)
    at waiting e = elim (List-cases s.pending) [
      | inl none_left ↦
          (s, Protocol.here, sym (in_order ∙ ap (λ l. s.taken ++ l) none_left ∙ append-nil s.taken))
      | inr (x, xs, left) ↦ posted_is_taken r e (λ empty. cc) free
    ]
    at woken e = (
      _,
      Protocol.then_step (Protocol.then_step Protocol.here (Protocol.empties e))
          (Protocol.redrains refl free),
      sym in_order,
    )
    at emptied e = (_, Protocol.then_step Protocol.here (Protocol.redrains e free), sym in_order)
    at finished e = absurd (ground (arith, finished-stopped r e))
