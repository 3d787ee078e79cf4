-- ===== src/EventLoop/Pipe.antt =====
-- `wakeup` and `drain_wakeup_fd` of include/coro_epoll/event_loop.hpp, on macOS: the pipe behind
-- `wakeup_pipe_`, with the number of bytes that are in it and that fit into it.
use cpp_coroutine_epoll.Common.{
  ℕ, zero, suc, ◌-◌, ◌<◌, ◌≤◌, ◌≡◌, refl, ◌∙◌, ap, Bool, true, false, List, [], ◌∷◌, ltb,
  if◌then◌else◌, arith, Bool-cases, inl, inr,
}

pub record Pipe : Type 0 where
  pub bytes : ℕ
  pub capacity : ℕ

-- One byte is written, or write(2) fails with EAGAIN because the pipe is full.
unfoldable pub write_byte : Pipe → Pipe
write_byte p = if ltb p.bytes p.capacity then record p { bytes = suc p.bytes } else p

-- `wakeup`, when write(2) is first interrupted as often as the number says.
unfoldable pub wakeup_mac : ℕ → Pipe → Pipe
unfolding write_byte
wakeup_mac zero p = write_byte p
wakeup_mac (suc n) p = wakeup_mac n p

-- The loop of `drain_wakeup_fd`, on fuel: read(2) takes up to 64 bytes, and fails on an empty pipe.
unfoldable pub drain_pipe : ℕ → Pipe → Pipe
drain_pipe zero p = p
drain_pipe (suc n) p =
    let rest = drain_pipe n (record p { bytes = p.bytes - 64 }) in if ltb 0 p.bytes then rest else p

-- As many units as there are bytes are enough.
unfoldable pub drain_wakeup_mac : Pipe → Pipe
unfolding drain_pipe
drain_wakeup_mac p = drain_pipe p.bytes p

drain_pipe-empty :
    (n b capacity : ℕ)
    → b ≤ n
    → drain_pipe n (record { bytes = b; capacity = capacity })
      ≡ record { bytes = 0; capacity = capacity }
unfolding drain_pipe
drain_pipe-empty zero b capacity h =
    ap (λ k. record { bytes = k; capacity = capacity }) (omega arith)
drain_pipe-empty (suc n) b capacity h = elim (Bool-cases (ltb 0 b)) [
  | inl some_left ↦ rw some_left (drain_pipe-empty n (b - 64) capacity (ground arith))
  | inr none_left ↦
      rw none_left (ap (λ k. record { bytes = k; capacity = capacity }) (ground arith))
]

pub drain_wakeup_mac_lem : (p : Pipe) → drain_wakeup_mac p ≡ record p { bytes = 0 }
unfolding drain_wakeup_mac
drain_wakeup_mac_lem p = drain_pipe-empty p.bytes p.bytes p.capacity (omega arith)

-- What the threads do to the pipe: `wakes n` is a `wakeup` that is interrupted `n` times.
pub data PipeCall : Type 0 where
  wakes : ℕ → PipeCall
  drains : PipeCall

unfoldable pub run_pipe : List PipeCall → Pipe → Pipe
unfolding wakeup_mac drain_wakeup_mac
run_pipe [] p = p
run_pipe (wakes n ∷ calls) p = run_pipe calls (wakeup_mac n p)
run_pipe (drains ∷ calls) p = run_pipe calls (drain_wakeup_mac p)

-- The member `signalled` of the model on Linux.
unfoldable pub run_flag : List PipeCall → Bool → Bool
run_flag [] signalled = signalled
run_flag (wakes n ∷ calls) signalled = run_flag calls true
run_flag (drains ∷ calls) signalled = run_flag calls false

pub wakeup_mac-capacity : (n : ℕ) (p : Pipe) → (wakeup_mac n p).capacity ≡ p.capacity
unfolding wakeup_mac write_byte
wakeup_mac-capacity zero p = ground arith
wakeup_mac-capacity (suc n) p = wakeup_mac-capacity n p

pub wakeup_mac-readable : (n : ℕ) (p : Pipe) → 0 < p.capacity → ltb 0 (wakeup_mac n p).bytes ≡ true
unfolding wakeup_mac write_byte
wakeup_mac-readable zero p h = ground arith
wakeup_mac-readable (suc n) p h = wakeup_mac-readable n p h

-- A pipe with room for at least one byte, over any sequence of wakeups and drains, and however often
-- writes are interrupted or find it full: it is readable exactly when the flag of the model on Linux is
-- set.
pub run_pipe-flag :
    (calls : List PipeCall) (p : Pipe)
    → 0 < p.capacity
    → ltb 0 (run_pipe calls p).bytes ≡ run_flag calls (ltb 0 p.bytes)
unfolding run_pipe run_flag
run_pipe-flag [] p h = refl
run_pipe-flag (wakes n ∷ calls) p h =
    run_pipe-flag calls (wakeup_mac n p) (omega (arith, wakeup_mac-capacity n p))
    ∙ ap (run_flag calls) (wakeup_mac-readable n p h)
run_pipe-flag (drains ∷ calls) p h =
    let emptied = drain_wakeup_mac_lem p in
    let room : (drain_wakeup_mac p).capacity ≡ p.capacity = ap (λ (q : Pipe). q.capacity) emptied in
    run_pipe-flag calls (drain_wakeup_mac p) (omega (arith, room))
    ∙ ap (run_flag calls) (ap (λ (q : Pipe). ltb 0 q.bytes) emptied)
