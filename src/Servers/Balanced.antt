-- ===== src/Servers/Balanced.antt =====
-- One socket for each event loop: the `for` loop of the `main` functions (examples/*/main.cpp) on
-- `WorkerGroup::next`.
use cpp_coroutine_epoll.Common.{
  ℕ, zero, suc, ◌+◌, ◌*◌, ◌^◌, ◌<◌, ◌≡◌, refl, sym, ap, subst, ◌∙◌, Option, none, some, List, [],
  ◌∷◌, ◌++◌, append_assoc, append-nil, arith, length,
}
use cpp_coroutine_epoll.System.{Exception}
use cpp_coroutine_epoll.Common.Family.{count}
use cpp_coroutine_epoll.WorkerGroup.Group.{
  WorkerGroup, constructed, construct, started, size, next, nexts,
}
use cpp_coroutine_epoll.WorkerGroup.RoundRobin.{round_robin}
use cpp_coroutine_epoll.Cli.Programs.{Arguments}
use cpp_coroutine_epoll.Servers.Startup.{
  Settings, configured, Startup, start_servers, joining, failed, run_settings, run_main, Server,
  tcp_echo, tcp_echo_et, udp_echo, udp_echo_et, http, proxy, settings_of, main_of, tcp_echo_main,
  tcp_echo_et_main, udp_echo_main, udp_echo_et_main, http_main, proxy_main,
}
use cpp_coroutine_epoll.Servers.Bounds.{IsRunnable, settings_bounds}

-- What the loop comes to when no socket fails.
start_servers-nexts :
    (k i : ℕ) (setup : ℕ → Option Exception) (s : Startup)
    → ((j : ℕ) → setup j ≡ none)
    → ((start_servers k i setup s).1 ≡ none)
      × ((start_servers k i setup s).0.servers ≡ s.servers ++ nexts k s.group)
      × ((start_servers k i setup s).0.posted ≡ s.posted ++ nexts k s.group)
unfolding start_servers nexts
start_servers-nexts zero i setup s fine =
    (refl, sym (append-nil s.servers), sym (append-nil s.posted))
start_servers-nexts (suc k) i setup s fine =
    let loop = (next s.group).0 in
    let group = (next s.group).1 in
    let after : Startup = record {
      group = group;
      servers = s.servers ++ loop ∷ [];
      posted = s.posted ++ loop ∷ [];
    } in
    let (none_thrown, servers, posted) = start_servers-nexts k (i + 1) setup after fine in
    rw (fine i, start_servers)
      (
        none_thrown,
        servers ∙ append_assoc s.servers (loop ∷ []) (nexts k group),
        posted ∙ append_assoc s.posted (loop ∷ []) (nexts k group),
      )

length-started : (n : ℕ) → length (started n) ≡ n
unfolding started
length-started zero = refl
length-started (suc n) = ap suc (length-started n)

length-nexts : (k : ℕ) (g : WorkerGroup) → length (nexts k g) ≡ k
unfolding nexts
length-nexts zero g = refl
length-nexts (suc k) g = ap suc (length-nexts k (next g).1)

abbrev group_of : ℕ → WorkerGroup
group_of n = record { loops = started n; next_index = 0 }

construct_pos : (n : ℕ) → 0 < n → construct n ≡ constructed (group_of n)
unfolding construct started
construct_pos zero h = absurd (omega arith)
construct_pos (suc n) h = refl

once_each : (n i : ℕ) → i < n → n < 2 ^ 64 → count i (nexts n (group_of n)) ≡ 1
unfolding size
once_each n i lt small =
    let full : 1 * size (group_of n) ≡ n = omega (arith, length-started n) in
    subst (λ k. count i (nexts k (group_of n)) ≡ 1) full
      (round_robin 1 i (group_of n) (omega (arith, length-started n))
        (omega (arith, length-started n)))

-- What the loop comes to when the socket `i + k` is the first that fails.
start_servers-failed :
    (n k i : ℕ) (setup : ℕ → Option Exception) (s : Startup) (e : Exception)
    → k < n
    → ((j : ℕ) → j < k → setup (i + j) ≡ none)
    → setup (i + k) ≡ some e
    → ((start_servers n i setup s).1 ≡ some e)
      × ((start_servers n i setup s).0.servers ≡ s.servers ++ nexts k s.group)
      × ((start_servers n i setup s).0.posted ≡ s.posted ++ nexts k s.group)
unfolding start_servers nexts
start_servers-failed zero k i setup s e lt fine fails = absurd (omega arith)
start_servers-failed (suc n) zero i setup s e lt fine fails =
    let here : setup i ≡ some e = subst (λ j. setup j ≡ some e) (omega arith) fails in
    rw (here, start_servers) (refl, sym (append-nil s.servers), sym (append-nil s.posted))
start_servers-failed (suc n) (suc k) i setup s e lt fine fails =
    let loop = (next s.group).0 in
    let group = (next s.group).1 in
    let after : Startup = record {
      group = group;
      servers = s.servers ++ loop ∷ [];
      posted = s.posted ++ loop ∷ [];
    } in
    let here : setup i ≡ none = subst (λ j. setup j ≡ none) (omega arith) (fine 0 (omega arith)) in
    let shift : (j : ℕ) → i + suc j ≡ i + 1 + j = λ j. omega arith in
    let (thrown, servers, posted) =
      start_servers-failed n k (i + 1) setup after e (omega arith)
        (λ j h. subst (λ m. setup m ≡ none) (shift j) (fine (suc j) (omega arith)))
        (subst (λ m. setup m ≡ some e) (shift k) fails) in
    rw (here, start_servers)
      (
        thrown,
        servers ∙ append_assoc s.servers (loop ∷ []) (nexts k group),
        posted ∙ append_assoc s.posted (loop ∷ []) (nexts k group),
      )

abbrev empty : ℕ → Startup
empty n = record { group = group_of n; servers = []; posted = [] }

main_of-run_main :
    (server : Server) (hardware : ℕ) (argv : Arguments) (loaded : Option Exception)
    (setup : ℕ → Option Exception)
    → main_of hardware argv loaded setup server
      ≡ run_main (settings_of hardware argv loaded server) setup
unfolding main_of settings_of tcp_echo_main tcp_echo_et_main udp_echo_main udp_echo_et_main
    http_main proxy_main
main_of-run_main tcp_echo hardware argv loaded setup = refl
main_of-run_main tcp_echo_et hardware argv loaded setup = refl
main_of-run_main udp_echo hardware argv loaded setup = refl
main_of-run_main udp_echo_et hardware argv loaded setup = refl
main_of-run_main http hardware argv loaded setup = refl
main_of-run_main proxy hardware argv loaded setup = refl

-- A `main` with runnable settings is its loop.
main_loop :
    (s : Settings) (setup : ℕ → Option Exception)
    → IsRunnable s
    → run_main (configured s) setup ≡ elim (start_servers s.workers 0 setup (empty s.workers)).1 [
      | none ↦ joining (start_servers s.workers 0 setup (empty s.workers)).0
      | some e ↦
          failed e
            (start_servers s.workers 0 setup (empty s.workers)).0.servers
            (start_servers s.workers 0 setup (empty s.workers)).0.posted
    ]
unfolding run_main run_settings
main_loop s setup ok =
    rw (construct_pos s.workers ok.workers_pos, run_main, run_settings) (rw ok.pool_fine refl)

-- A `main` that gets settings and whose sockets can all be set up comes to join its threads, and by
-- then each event loop of the group has exactly one socket, and exactly one callback that starts it.
pub main_balanced :
    (server : Server) (hardware : ℕ) (argv : Arguments) (loaded : Option Exception)
    (setup : ℕ → Option Exception) (s : Settings)
    → hardware < 2 ^ 64
    → settings_of hardware argv loaded server ≡ configured s
    → ((j : ℕ) → setup j ≡ none)
    → (st : Startup) × (main_of hardware argv loaded setup server ≡ joining st)
      × ((i : ℕ) → i < s.workers → (count i st.servers ≡ 1) × (count i st.posted ≡ 1))
main_balanced server hardware argv loaded setup s small got fine =
    let ok = settings_bounds server hardware argv loaded s small got in
    let (thrown, servers, posted) = start_servers-nexts s.workers 0 setup (empty s.workers) fine in
    (
      (start_servers s.workers 0 setup (empty s.workers)).0,
      main_of-run_main server hardware argv loaded setup
          ∙ ap (λ c. run_main c setup) got
          ∙ main_loop s setup ok
          ∙ rw thrown refl,
      λ i lt.
          let once = once_each s.workers i lt ok.workers_lt in
          (ap (count i) servers ∙ once, ap (count i) posted ∙ once),
    )

-- If a `main` gets settings and the set-up of socket `k` is the first that throws, it fails with that
-- exception and with `k` sockets destroyed, for each of which a callback has been posted to its loop.
pub main_dangling :
    (server : Server) (hardware : ℕ) (argv : Arguments) (loaded : Option Exception)
    (setup : ℕ → Option Exception) (s : Settings) (k : ℕ) (e : Exception)
    → hardware < 2 ^ 64
    → settings_of hardware argv loaded server ≡ configured s
    → k < s.workers
    → ((j : ℕ) → j < k → setup j ≡ none)
    → setup k ≡ some e
    → (destroyed : List ℕ) × (main_of hardware argv loaded setup server
        ≡ failed e destroyed destroyed)
      × (length destroyed ≡ k)
main_dangling server hardware argv loaded setup s k e small got lt fine fails =
    let ok = settings_bounds server hardware argv loaded s small got in
    let (thrown, servers, posted) =
      start_servers-failed s.workers k 0 setup (empty s.workers) e lt
        (λ j h. subst (λ m. setup m ≡ none) (omega arith) (fine j h))
        (subst (λ m. setup m ≡ some e) (omega arith) fails) in
    (
      nexts k (group_of s.workers),
      main_of-run_main server hardware argv loaded setup
          ∙ ap (λ c. run_main c setup) got
          ∙ main_loop s setup ok
          ∙ rw (thrown, servers, posted) refl,
      length-nexts k (group_of s.workers),
    )
