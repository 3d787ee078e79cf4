-- ===== src/Common/Family.antt =====
-- Families indexed by thread, and occurrences in a list.
use Prim.Native.Nat.{ℕ, zero, suc, ◌+◌, ◌≤◌, ◌<◌}
use mathlib.Core.Path.{◌≡◌, refl}
use mathlib.Core.List.{List, [], ◌∷◌, ◌++◌}
use native.Mathlib.Omega.{arith}
use mathlib.Core.Logic.{◌≢◌, inl, inr}
use cpp_coroutine_epoll.Common.Tests.{◌==◌, if◌then◌else◌, ltb, Bool-cases}

abbrev pub update {ℓ} : {A : Type ℓ} → (ℕ → A) → ℕ → A → ℕ → A
update f i a j = if i == j then a else f j

unfoldable pub count : ℕ → List ℕ → ℕ
count a [] = 0
count a (x ∷ xs) = (if x == a then 1 else 0) + count a xs

pub count-append : (a : ℕ) (xs ys : List ℕ) → count a (xs ++ ys) ≡ count a xs + count a ys
unfolding count
count-append a [] ys = omega arith
count-append a (x ∷ xs) ys = omega (arith, count-append a xs ys)

pub count-snoc :
    (a x : ℕ) (xs : List ℕ) → count a (xs ++ x ∷ []) ≡ count a xs + (if x == a then 1 else 0)
unfolding count
count-snoc a x [] = omega arith
count-snoc a x (y ∷ xs) = omega (arith, count-snoc a x xs)

module _ {ℓ} {A : Type ℓ} (weight : A → ℕ) where
  pub total : ℕ → (ℕ → A) → ℕ
  total zero f = 0
  total (suc n) f = total n f + weight (f n)

  total-update_above : (n i : ℕ) (f : ℕ → A) (a : A) → n ≤ i → total n (update f i a) ≡ total n f
  unfolding total
  total-update_above zero i f a h = refl
  total-update_above (suc n) i f a h = ground (arith, total-update_above n i f a)

  pub total-update :
      (n i : ℕ) (f : ℕ → A) (a : A)
      → i < n
      → total n (update f i a) + weight (f i) ≡ total n f + weight a
  unfolding total
  total-update zero i f a h = absurd (omega arith)
  total-update (suc n) i f a h = elim (Bool-cases (ltb i n)) [
    | inl below ↦ ground (arith, total-update n i f a)
    | inr last ↦ ground (arith, total-update_above n i f a)
  ]

  -- Two entries are written, the second with `b`.
  pub total-two :
      (n i j : ℕ) (f : ℕ → A) (a b : A)
      → i < n
      → j < n
      → i ≢ j
      → total n (update (update f i a) j b) + weight (f i) + weight (f j)
        ≡ total n f + weight a + weight b
  total-two n i j f a b li lj ne =
      ground (arith, total-update n i f a li, total-update n j (update f i a) b lj)

  pub total-zero : (n : ℕ) (f : ℕ → A) → ((i : ℕ) → i < n → weight (f i) ≡ 0) → total n f ≡ 0
  unfolding total
  total-zero zero f h = refl
  total-zero (suc n) f h =
      omega (arith, total-zero n f (λ i lt. h i (omega arith)), h n (omega arith))

  pub total-same :
      (n : ℕ) (f g : ℕ → A) → ((i : ℕ) → weight (g i) ≡ weight (f i)) → total n g ≡ total n f
  unfolding total
  total-same zero f g h = refl
  total-same (suc n) f g h = omega (arith, total-same n f g h, h n)

  -- One of the entries has a weight if all together have.
  pub total-positive : (n : ℕ) (f : ℕ → A) → 0 < total n f → (i : ℕ) × (i < n) × (0 < weight (f i))
  unfolding total
  total-positive zero f h = absurd (omega arith)
  total-positive (suc n) f h = elim (Bool-cases (ltb 0 (weight (f n)))) [
    | inl here ↦ (n, omega arith, ground arith)
    | inr not_here ↦ let (i, lt, has) = total-positive n f (ground arith) in (i, omega arith, has)
  ]
