-- ===== src/WorkerGroup/RoundRobin.antt =====
-- `next` deals the loops out evenly, and the destructor stops and joins every thread.
use cpp_coroutine_epoll.Common.{
  ℕ, zero, suc, ◌+◌, ◌-◌, ◌*◌, ◌%◌, ◌^◌, ◌≤◌, ◌<◌, ◌≡◌, refl, ap, ◌∙◌, inl, inr, List, [], ◌∷◌,
  ◌++◌, arith, ◌==◌, if◌then◌else◌, ltb, Bool-cases, ==_iff, sym,
}
use mathlib.Core.Path.{ap₂}
use native.Mathlib.Nat.{mod-lt, mod-eq_of_lt, mod_self, mod-add-mod, zero-mul}
use cpp_coroutine_epoll.Common.Family.{count, count-append}
use cpp_coroutine_epoll.WorkerGroup.Group.{WorkerGroup, size, next, nexts}

-- How many calls of `next` come before the one that returns `i`, when the first returns `r`.
abbrev distance : ℕ → ℕ → ℕ → ℕ
distance n r i = if ltb i r then i + n - r else i - r

mod_succ : (c n : ℕ) → 0 < n → (c + 1) % n ≡ (if c % n + 1 == n then 0 else c % n + 1)
mod_succ c n h = elim (Bool-cases (c % n + 1 == n)) [
  | inl e ↦
      let full : c % n + 1 ≡ n = (==_iff _ _).0 e in
      rw e (sym (mod-add-mod c n 1) ∙ ap (λ m. m % n) full ∙ mod_self n)
  | inr e ↦
      let below : c % n + 1 < n = ground (arith, mod-lt c h) in
      rw e (sym (mod-add-mod c n 1) ∙ mod-eq_of_lt below)
]

-- The values of `k` consecutive calls while the counter does not wrap.
residues : ℕ → ℕ → ℕ → List ℕ
residues n zero c = []
residues n (suc k) c = c % n ∷ residues n k (c + 1)

nexts-residues :
    (k : ℕ) (g : WorkerGroup)
    → g.next_index + k < 2 ^ 64
    → nexts k g ≡ residues (size g) k g.next_index
unfolding nexts next residues size
nexts-residues zero g room = refl
nexts-residues (suc k) g room =
    let no_wrap : (g.next_index + 1) % 2 ^ 64 ≡ g.next_index + 1 = omega arith in
    let g' = record g { next_index = g.next_index + 1 } in
    ap (λ l. (g.next_index % size g) ∷ l) (rw no_wrap (nexts-residues k g' (omega arith)))

count-residues :
    (n k i c : ℕ)
    → i < n
    → k ≤ n
    → count i (residues n k c) ≡ (if ltb (distance n (c % n) i) k then 1 else 0)
unfolding count residues
count-residues n zero i c lt le = ground arith
count-residues n (suc k) i c lt le =
    ground (arith, mod-lt c {m = n}, mod_succ c n, count-residues n k i (c + 1) lt)

residues-add : (n a b c : ℕ) → residues n (a + b) c ≡ residues n a c ++ residues n b (c + a)
unfolding residues
residues-add n zero b c = ap₂ (residues n) (omega arith) (omega arith)
residues-add n (suc a) b c =
    let shifted : c + 1 + a ≡ c + suc a = omega arith in
    let split : suc a + b ≡ suc (a + b) = omega arith in
    rw split (rw (residues-add n a b (c + 1), shifted))

count-rounds : (m n i c : ℕ) → i < n → count i (residues n (m * n) c) ≡ m
unfolding residues count
count-rounds zero n i c lt = rw (zero-mul n)
count-rounds (suc m) n i c lt =
    let split : suc m * n ≡ n + m * n = omega arith in
    let once : count i (residues n n c) ≡ 1 =
      ground (arith, mod-lt c {m = n}, count-residues n n i c lt) in
    rw (split, residues-add n n (m * n) c, count-append i (residues n n c))
      (omega (arith, once, count-rounds m n i (c + n) lt))

-- Of `m` times `size` consecutive calls of `next`, as long as the 64-bit counter does not wrap
-- around, exactly `m` return any given loop of the group.
pub round_robin :
    (m i : ℕ) (g : WorkerGroup)
    → i < size g
    → g.next_index + m * size g < 2 ^ 64
    → count i (nexts (m * size g) g) ≡ m
round_robin m i g lt room =
    rw (nexts-residues (m * size g) g room) (count-rounds m (size g) i g.next_index lt)
