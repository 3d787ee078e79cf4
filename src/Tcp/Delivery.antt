-- ===== src/Tcp/Delivery.antt =====
-- What `async_write` (include/coro_epoll/tcp.hpp) puts on the wire.
use cpp_coroutine_epoll.Common.{
  ℕ, zero, suc, ◌+◌, ◌-◌, ◌≤◌, ◌≡◌, refl, sym, ap, ◌∙◌, true, none, some, List, [], ◌∷◌, ◌++◌,
  append_assoc, append-nil, arith, length, take, drop, drop-drop, take-append-drop, drop_all, ltb,
  Bool-cases, inl, inr,
}
use cpp_coroutine_epoll.Socket.Io.{returned}
use cpp_coroutine_epoll.Socket.Handle.{Handle, usable}
use cpp_coroutine_epoll.Tcp.Write.{
  SendAnswer, sent, interrupted, would_block, failed, Writing, write_loop, async_write,
}

-- The kernel accepts `room` more bytes, never more in one call than it is offered, and reports no
-- error before that.
abbrev pub Accepts : ℕ → List SendAnswer → Type 0
Accepts zero answers = Unit {0}
Accepts (suc room) [] = ⊥
Accepts (suc room) (sent (suc n) w ∷ answers) = (n ≤ room) × Accepts (room - n) answers
Accepts (suc room) (sent zero none ∷ answers) = Accepts (suc room) answers
Accepts (suc room) (sent zero (some e) ∷ answers) = ⊥
Accepts (suc room) (interrupted ∷ answers) = Accepts (suc room) answers
Accepts (suc room) (would_block none ∷ answers) = Accepts (suc room) answers
Accepts (suc room) (would_block (some e) ∷ answers) = ⊥
Accepts (suc room) (failed e ∷ answers) = ⊥

-- What the loop comes to from `total` on.
abbrev Finished : List ℕ → ℕ → List ℕ → Writing → Type 0
Finished bytes total wire r =
    (r.outcome ≡ returned (length bytes)) × (r.wire ≡ wire ++ drop total bytes)

piece :
    (bytes wire : List ℕ) (total n : ℕ)
    → (wire ++ take n (drop total bytes)) ++ drop (total + n) bytes ≡ wire ++ drop total bytes
piece bytes wire total n =
    append_assoc wire _ _
    ∙ ap (λ l. wire ++ l)
        (ap (λ l. take n (drop total bytes) ++ l) (sym (drop-drop total n bytes))
          ∙ take-append-drop n (drop total bytes))

write_loop-Finished :
    (answers : List SendAnswer) (bytes wire : List ℕ) (total room waits : ℕ)
    → total + room ≡ length bytes
    → Accepts room answers
    → Finished bytes total wire (write_loop answers bytes total wire waits)
unfolding write_loop
write_loop-Finished [] bytes wire total zero waits e h =
    ground (arith, drop_all total bytes, append-nil wire)
write_loop-Finished [] bytes wire total (suc room) waits e h = absurd h
write_loop-Finished (sent (suc n) w ∷ answers) bytes wire total zero waits e h =
    ground (arith, drop_all total bytes, append-nil wire)
write_loop-Finished (sent (suc n) w ∷ answers) bytes wire total (suc room) waits e h =
    let ih =
      write_loop-Finished answers bytes (wire ++ take (suc n) (drop total bytes)) (total + suc n)
        (room - n) waits (omega arith) h.1 in
    let more : ltb total (length bytes) ≡ true = ground arith in
    rw more (ih.0, ih.1 ∙ piece bytes wire total (suc n))
write_loop-Finished (sent zero none ∷ answers) bytes wire total zero waits e h =
    ground (arith, drop_all total bytes, append-nil wire)
write_loop-Finished (sent zero none ∷ answers) bytes wire total (suc room) waits e h =
    ground (arith, write_loop-Finished answers bytes wire total (suc room) (suc waits) e h)
write_loop-Finished (sent zero (some x) ∷ answers) bytes wire total zero waits e h =
    ground (arith, drop_all total bytes, append-nil wire)
write_loop-Finished (sent zero (some x) ∷ answers) bytes wire total (suc room) waits e h = absurd h
write_loop-Finished (interrupted ∷ answers) bytes wire total zero waits e h =
    ground (arith, drop_all total bytes, append-nil wire)
write_loop-Finished (interrupted ∷ answers) bytes wire total (suc room) waits e h =
    ground (arith, write_loop-Finished answers bytes wire total (suc room) waits e h)
write_loop-Finished (would_block none ∷ answers) bytes wire total zero waits e h =
    ground (arith, drop_all total bytes, append-nil wire)
write_loop-Finished (would_block none ∷ answers) bytes wire total (suc room) waits e h =
    ground (arith, write_loop-Finished answers bytes wire total (suc room) (suc waits) e h)
write_loop-Finished (would_block (some x) ∷ answers) bytes wire total zero waits e h =
    ground (arith, drop_all total bytes, append-nil wire)
write_loop-Finished (would_block (some x) ∷ answers) bytes wire total (suc room) waits e h =
    absurd h
write_loop-Finished (failed x ∷ answers) bytes wire total zero waits e h =
    ground (arith, drop_all total bytes, append-nil wire)
write_loop-Finished (failed x ∷ answers) bytes wire total (suc room) waits e h = absurd h

-- Of the bytes from `total` on, the loop has put a front part on the wire.
abbrev Prefix : List ℕ → ℕ → List ℕ → Writing → Type 0
Prefix bytes total wire r = (rest : List ℕ) × (r.wire ++ rest ≡ wire ++ drop total bytes)

write_loop-Prefix :
    (answers : List SendAnswer) (bytes wire : List ℕ) (total waits : ℕ)
    → Prefix bytes total wire (write_loop answers bytes total wire waits)
unfolding write_loop
write_loop-Prefix [] bytes wire total waits = (drop total bytes, ground arith)
write_loop-Prefix (sent (suc n) w ∷ answers) bytes wire total waits =
    let ih =
      write_loop-Prefix answers bytes (wire ++ take (suc n) (drop total bytes)) (total + suc n)
        waits in
    elim (Bool-cases (ltb total (length bytes))) [
      | inl more ↦ rw more (ih.0, ih.1 ∙ piece bytes wire total (suc n))
      | inr done ↦ rw done (drop total bytes, refl)
    ]
write_loop-Prefix (sent zero none ∷ answers) bytes wire total waits =
    let ih = write_loop-Prefix answers bytes wire total (suc waits) in
    elim (Bool-cases (ltb total (length bytes))) [
      | inl more ↦ rw more ih
      | inr done ↦ rw done (drop total bytes, refl)
    ]
write_loop-Prefix (interrupted ∷ answers) bytes wire total waits =
    let ih = write_loop-Prefix answers bytes wire total waits in
    elim (Bool-cases (ltb total (length bytes))) [
      | inl more ↦ rw more ih
      | inr done ↦ rw done (drop total bytes, refl)
    ]
write_loop-Prefix (would_block none ∷ answers) bytes wire total waits =
    let ih = write_loop-Prefix answers bytes wire total (suc waits) in
    elim (Bool-cases (ltb total (length bytes))) [
      | inl more ↦ rw more ih
      | inr done ↦ rw done (drop total bytes, refl)
    ]
write_loop-Prefix (sent zero (some e) ∷ answers) bytes wire total waits =
    (drop total bytes, ground arith)
write_loop-Prefix (would_block (some e) ∷ answers) bytes wire total waits =
    (drop total bytes, ground arith)
write_loop-Prefix (failed e ∷ answers) bytes wire total waits = (drop total bytes, ground arith)

-- On a usable socket, when the kernel goes on until it has accepted as many bytes as there are, in
-- parts of any size, with interruptions and waits in between but no error: `async_write` returns the
-- full size, and what the kernel has accepted is exactly the caller's bytes, in order.
pub async_write_delivers :
    (socket : Handle) (bytes : List ℕ) (answers : List SendAnswer)
    → usable socket ≡ true
    → Accepts (length bytes) answers
    → ((async_write socket bytes answers).outcome ≡ returned (length bytes))
      × ((async_write socket bytes answers).wire ≡ bytes)
unfolding async_write
async_write_delivers socket bytes answers ok h =
    rw ok (write_loop-Finished answers bytes [] 0 (length bytes) 0 (omega arith) h)

-- Whatever the kernel answers, errors included, and wherever the coroutine stands: the bytes that the
-- kernel has accepted so far are a front part of the caller's bytes, none skipped or sent twice.
pub async_write_prefix :
    (socket : Handle) (bytes : List ℕ) (answers : List SendAnswer)
    → (rest : List ℕ) × ((async_write socket bytes answers).wire ++ rest ≡ bytes)
unfolding async_write
async_write_prefix socket bytes answers = elim (Bool-cases (usable socket)) [
  | inl ok ↦ rw ok (write_loop-Prefix answers bytes [] 0 0)
  | inr broken ↦ rw broken (bytes, refl)
]

write_loop-whole :
    (answers : List SendAnswer) (bytes wire : List ℕ) (total waits n : ℕ)
    → (write_loop answers bytes total wire waits).outcome ≡ returned n
    → (write_loop answers bytes total wire waits).wire ≡ wire ++ drop total bytes
unfolding write_loop
write_loop-whole [] bytes wire total waits n e =
    ground (arith, drop_all total bytes, append-nil wire)
write_loop-whole (sent (suc k) w ∷ answers) bytes wire total waits n e =
    let ih =
      write_loop-whole answers bytes (wire ++ take (suc k) (drop total bytes)) (total + suc k) waits
        n in
    ground (arith, drop_all total bytes, append-nil wire, ih, piece bytes wire total (suc k))
write_loop-whole (sent zero none ∷ answers) bytes wire total waits n e = ground (
  arith,
  drop_all total bytes,
  append-nil wire,
  write_loop-whole answers bytes wire total (suc waits) n,
)
write_loop-whole (sent zero (some x) ∷ answers) bytes wire total waits n e =
    ground (arith, drop_all total bytes, append-nil wire)
write_loop-whole (interrupted ∷ answers) bytes wire total waits n e = ground (
  arith,
  drop_all total bytes,
  append-nil wire,
  write_loop-whole answers bytes wire total waits n,
)
write_loop-whole (would_block none ∷ answers) bytes wire total waits n e = ground (
  arith,
  drop_all total bytes,
  append-nil wire,
  write_loop-whole answers bytes wire total (suc waits) n,
)
write_loop-whole (would_block (some x) ∷ answers) bytes wire total waits n e =
    ground (arith, drop_all total bytes, append-nil wire)
write_loop-whole (failed x ∷ answers) bytes wire total waits n e =
    ground (arith, drop_all total bytes, append-nil wire)

-- A write that has returned has put all its bytes on the wire.
pub async_write_whole :
    (socket : Handle) (bytes : List ℕ) (answers : List SendAnswer) (n : ℕ)
    → (async_write socket bytes answers).outcome ≡ returned n
    → (async_write socket bytes answers).wire ≡ bytes
unfolding async_write
async_write_whole socket bytes answers n e = ground (arith, write_loop-whole answers bytes [] 0 0 n)
