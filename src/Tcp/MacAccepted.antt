-- ===== src/Tcp/MacAccepted.antt =====
-- What becomes of the descriptors that `TcpServer` (include/coro_epoll/tcp.hpp) gets on macOS.
use mathlib.Core.List.{map-append}
use cpp_coroutine_epoll.Common.{
  ℕ, ◌≡◌, refl, ap, ◌∙◌, true, none, some, List, [], ◌∷◌, ◌++◌, append_assoc, append-nil, arith,
  subst, sym, map, Option-cases, inl, inr,
}
use cpp_coroutine_epoll.Common.Family.{count, count-snoc}
use cpp_coroutine_epoll.Socket.Io.{Outcome, returned, threw, pending}
use cpp_coroutine_epoll.Socket.Handle.{Handle, usable}
use cpp_coroutine_epoll.Socket.Fcntl.{Descriptor, prepare, prepared, prepare-prepared}
use cpp_coroutine_epoll.Tcp.MacServer.{
  AcceptAnswer, accepted, interrupted, would_block, failed, fds_of, accept_et_loop_mac,
  async_accept_et_mac,
}

-- The connections that accept(2) hands over in a drain, with their flags, up to one that cannot be
-- prepared.
unfoldable pub connections_mac : List AcceptAnswer → List (ℕ × Descriptor)
connections_mac [] = []
connections_mac (accepted fd d a ∷ answers) =
    let rest = connections_mac answers in
    elim (prepare a d).0 [ some e ↦ (fd, d) ∷ [] | none ↦ (fd, d) ∷ rest ]
connections_mac (interrupted ∷ answers) = connections_mac answers
connections_mac (would_block w ∷ answers) = []
connections_mac (failed e ∷ answers) = []

-- The connection with O_NONBLOCK, FD_CLOEXEC and SO_NOSIGPIPE set, and its other flags as they were.
abbrev pub ready : ℕ × Descriptor → ℕ × Descriptor
ready (fd, d) = (fd, prepared d)

-- Where each of these connections is when the coroutine has ended: returned and prepared, or closed.
abbrev pub AccountedMac : List (ℕ × Descriptor) → Outcome (List (ℕ × Descriptor)) → List ℕ → Type 0
AccountedMac cs (returned sockets) closed = (sockets ≡ map ready cs) × (closed ≡ [])
AccountedMac cs (threw e) closed = (a : ℕ) → count a closed ≡ count a (fds_of cs)
AccountedMac cs pending closed = closed ≡ []

fds_of-ready : (cs : List (ℕ × Descriptor)) → fds_of (map ready cs) ≡ fds_of cs
fds_of-ready [] = refl
fds_of-ready ((fd, d) ∷ cs) = ap (λ fds. fd ∷ fds) (fds_of-ready cs)

fds_of-snoc :
    (cs : List (ℕ × Descriptor)) (fd : ℕ) (d : Descriptor)
    → fds_of (cs ++ (fd, d) ∷ []) ≡ fds_of cs ++ fd ∷ []
fds_of-snoc cs fd d = map-append (λ (s : ℕ × Descriptor). s.0) cs ((fd, d) ∷ [])

accept_et_loop_mac-Accounted :
    (answers : List AcceptAnswer) (seen : List (ℕ × Descriptor))
    → (let r = accept_et_loop_mac answers (map ready seen) in
        AccountedMac (seen ++ connections_mac answers) r.outcome r.closed)
unfolding accept_et_loop_mac connections_mac count
accept_et_loop_mac-Accounted [] seen = refl
accept_et_loop_mac-Accounted (accepted fd d a ∷ answers) seen =
    elim (Option-cases (prepare a d).0) [
      | inr (e, thrown) ↦
          rw (thrown, accept_et_loop_mac, connections_mac)
            (λ x.
              rw (fds_of-ready seen, fds_of-snoc seen fd d)
                (omega (arith, count-snoc x fd (fds_of seen))))
      | inl fine ↦
          let same : map ready (seen ++ (fd, d) ∷ [])
              ≡ map ready seen ++ (fd, (prepare a d).1) ∷ [] =
            map-append ready seen ((fd, d) ∷ [])
            ∙ ap (λ e. map ready seen ++ (fd, e) ∷ []) (sym (prepare-prepared a d fine)) in
          let rest =
            subst
              (λ sockets.
                (let r = accept_et_loop_mac answers sockets in
                  AccountedMac ((seen ++ (fd, d) ∷ []) ++ connections_mac answers) r.outcome
                    r.closed))
              same (accept_et_loop_mac-Accounted answers (seen ++ (fd, d) ∷ [])) in
          rw (fine, accept_et_loop_mac, connections_mac)
            (subst
              (λ cs.
                (let r =
                    accept_et_loop_mac answers (map ready seen ++ (fd, (prepare a d).1) ∷ []) in
                  AccountedMac cs r.outcome r.closed))
              (append_assoc seen ((fd, d) ∷ []) (connections_mac answers)) rest)
    ]
accept_et_loop_mac-Accounted (interrupted ∷ answers) seen =
    accept_et_loop_mac-Accounted answers seen
accept_et_loop_mac-Accounted (would_block w ∷ answers) seen =
    (ap (map ready) (sym (append-nil seen)), refl)
accept_et_loop_mac-Accounted (failed x ∷ answers) seen =
    λ a. ap (count a) (fds_of-ready seen ∙ ap fds_of (sym (append-nil seen)))

-- On macOS, and on a usable server whose wait has ended: `async_accept_et` returns the connections that
-- accept(2) hands over in this drain, in order, each with O_NONBLOCK, FD_CLOEXEC and SO_NOSIGPIPE set
-- and its other flags as they were, and closes none; or it throws, after an error of accept(2)
-- or of a call that prepares a connection, and has then closed each of them once, and nothing else;
-- or it goes on, and has closed none.
pub async_accept_et_mac-Accounted :
    (server : Handle) (answers : List AcceptAnswer)
    → usable server ≡ true
    → AccountedMac
        (connections_mac answers)
        (async_accept_et_mac server none answers).outcome
        (async_accept_et_mac server none answers).closed
unfolding async_accept_et_mac
async_accept_et_mac-Accounted server answers ok = rw ok (accept_et_loop_mac-Accounted answers [])
