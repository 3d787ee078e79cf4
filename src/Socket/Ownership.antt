-- ===== src/Socket/Ownership.antt =====
-- Moves neither lose nor duplicate a descriptor: over any sequence of operations on `TcpSocket`
-- objects (include/coro_epoll/tcp.hpp) each descriptor is closed as often as it was given to one.
use cpp_coroutine_epoll.Common.{
  ℕ, ◌+◌, ◌≤◌, ◌<◌, ◌≡◌, ◌≢◌, refl, ap, Bool, true, List, [], ◌∷◌, ◌++◌, arith, ℤ, pos, negsuc,
  ◌==◌, if◌then◌else◌,
}
use cpp_coroutine_epoll.Common.Family.{
  update, count, count-snoc, total, total-update, total-two, total-zero,
}
use cpp_coroutine_epoll.Socket.Handle.{Handle, Log, nothing_done, unset, close, move, move_assign}

-- The sockets of a program, one to a slot: a slot that holds no object is `unset`. `opened` is the
-- list of the descriptors given to constructors.
pub record Sockets : Type 0 where
  pub objects : ℕ → Handle
  pub log : Log
  pub opened : List ℕ

abbrev pub no_sockets : Sockets
no_sockets = record { objects = λ i. unset; log = nothing_done; opened = [] }

-- An operation on the objects in `n` slots: construction from a descriptor, move construction, move
-- assignment, and `close`, which is also what the destructor does.
pub data Step (n : ℕ) (s : Sockets) : Sockets → Type 0 where
  constructs :
      (i fd : ℕ)
      → i < n
      → s.objects i ≡ unset
      → Step n s (record s {
        objects = update s.objects i (record { has_loop = true; fd = pos fd });
        opened = s.opened ++ fd ∷ [];
      })
  moves :
      (i j : ℕ)
      → i < n
      → j < n
      → s.objects i ≡ unset
      → i ≢ j
      → Step n s (record s {
        objects = update (update s.objects i (move (s.objects j)).0) j (move (s.objects j)).1;
      })
  assigns :
      (i j : ℕ)
      → i < n
      → j < n
      → i ≢ j
      → Step n s (record s {
        objects =
            update
              (update s.objects i (move_assign (s.objects i) (s.objects j) s.log).0)
              j
              (move_assign (s.objects i) (s.objects j) s.log).1;
        log = (move_assign (s.objects i) (s.objects j) s.log).2;
      })
  closes :
      (i : ℕ)
      → i < n
      → Step n s (record s {
        objects = update s.objects i (close (s.objects i) s.log).0;
        log = (close (s.objects i) s.log).1;
      })

pub data Reach (n : ℕ) : Sockets → Type 0 where
  begin : Reach n no_sockets
  later : {s t : Sockets} → Reach n s → Step n s t → Reach n t

abbrev pub names : ℕ → ℤ → ℕ
names a (pos fd) = if fd == a then 1 else 0
names a (negsuc n) = 0

abbrev pub owns : ℕ → Handle → ℕ
owns a h = names a h.fd

close_parts-owns :
    (a : ℕ) (b : Bool) (fd : ℤ) (log : Log)
    → (let h : Handle = record { has_loop = b; fd = fd } in
        (owns a (close h log).0 ≡ 0)
        × (count a (close h log).1.closed ≡ count a log.closed + owns a h))
unfolding close
close_parts-owns a b (pos fd) log = (refl, count-snoc a fd log.closed)
close_parts-owns a b (negsuc n) log = (refl, omega arith)

close-owns :
    (a : ℕ) (h : Handle) (log : Log)
    → (owns a (close h log).0 ≡ 0)
      × (count a (close h log).1.closed ≡ count a log.closed + owns a h)
close-owns a h log = close_parts-owns a h.has_loop h.fd log

-- Every descriptor given to an object is in exactly one object still, or has been closed.
abbrev Balanced : ℕ → Sockets → Type 0
Balanced n s = (a : ℕ) → count a s.opened ≡ count a s.log.closed + total (owns a) n s.objects

start-Balanced : (n : ℕ) → Balanced n no_sockets
start-Balanced n a = omega (arith, total-zero (owns a) n (λ i. unset) (λ i lt. refl))

Step-Balanced : {n : ℕ} {s t : Sockets} → Step n s t → Balanced n s → Balanced n t
unfolding move move_assign
Step-Balanced {n} {s} (constructs i fd lt free) inv a = ground (
  arith,
  inv a,
  count-snoc a fd s.opened,
  total-update (owns a) n i s.objects (record { has_loop = true; fd = pos fd }) lt,
)
Step-Balanced {n} {s} (moves i j li lj free ne) inv a =
    let vacant : owns a (s.objects i) ≡ 0 = ap (owns a) free in
    omega (arith, vacant, inv a, total-two (owns a) n i j s.objects (s.objects j) unset li lj ne)
Step-Balanced {n} {s} (assigns i j li lj ne) inv a = omega (
  arith,
  inv a,
  close-owns a (s.objects i) s.log,
  total-two (owns a) n i j s.objects (s.objects j) unset li lj ne,
)
Step-Balanced {n} {s} (closes i lt) inv a = omega (
  arith,
  inv a,
  close-owns a (s.objects i) s.log,
  total-update (owns a) n i s.objects (close (s.objects i) s.log).0 lt,
)

Reach-Balanced : {n : ℕ} {s : Sockets} → Reach n s → Balanced n s
Reach-Balanced {n} begin = start-Balanced n
Reach-Balanced (later r st) = Step-Balanced st (Reach-Balanced r)

-- Over any sequence of constructions, move constructions, move assignments and closes, a descriptor
-- has been given to an object as often as it has been closed, plus once for each object that holds it:
-- so it is closed at most as often as it was given to one.
pub closed_or_owned :
    {n : ℕ} {s : Sockets}
    → Reach n s
    → (a : ℕ)
    → (count a s.opened ≡ count a s.log.closed + total (owns a) n s.objects)
      × (count a s.log.closed ≤ count a s.opened)
closed_or_owned {n} {s} r a = (omega (arith, Reach-Balanced r a), omega (arith, Reach-Balanced r a))

-- After any sequence of constructions, move constructions, move assignments and closes of sockets, a
-- descriptor that no object holds any more has been closed exactly as often
-- as it was given to one: none is leaked, and none closed twice.
pub closed_once :
    {n : ℕ} {s : Sockets}
    → Reach n s
    → (a : ℕ) → ((i : ℕ) → i < n → owns a (s.objects i) ≡ 0)
    → count a s.log.closed ≡ count a s.opened
closed_once {n} {s} r a gone =
    omega (arith, Reach-Balanced r a, total-zero (owns a) n s.objects gone)
