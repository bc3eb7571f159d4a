-- ===== src/Hub/Pool/Callers.antt =====
-- The goroutines that use the pool, numbered: a change of one of them, and the number of them at a place.
use oh_my_code_agent.Prelude.{ℕ, zero, suc, ◌+◌, ◌≤◌, ◌<◌, ◌≡◌, refl, arith}
use mathlib.Core.Logic.{ite}
use native.Mathlib.Decide.{dec_lt, ℕ_discrete}

-- `f` with `a` in place `i`
abbrev pub replace {ℓ} : {A : Type ℓ} → (ℕ → A) → ℕ → A → ℕ → A
replace f i a j = ite (ℕ_discrete i j) a (f j)

module _ {ℓ} {A : Type ℓ} (w : A → ℕ) where
  -- the weights of the first `n`, added up
  unfoldable pub total : ℕ → (ℕ → A) → ℕ
  total zero f = 0
  total (suc n) f = w (f n) + total n f

  total-replace_above :
      (n : ℕ) (f : ℕ → A) (i : ℕ) (a : A) → n ≤ i → total n (replace f i a) ≡ total n f
  unfolding total
  total-replace_above zero f i a h = refl
  total-replace_above (suc n) f i a h = ground (arith, total-replace_above n f i a)

  pub total-replace :
      (n : ℕ) (f : ℕ → A) (i : ℕ) (a : A)
      → i < n
      → w (f i) + total n (replace f i a) ≡ w a + total n f
  unfolding total
  total-replace zero f i a h = absurd (omega arith)
  total-replace (suc n) f i a h = elim (dec_lt i n) [
    | yes below ↦ ground (arith, total-replace n f i a below)
    | no last ↦ ground (arith, total-replace_above n f i a)
  ]

  pub total-at : (n : ℕ) (f : ℕ → A) (i : ℕ) → i < n → w (f i) ≤ total n f
  unfolding total
  total-at zero f i h = absurd (omega arith)
  total-at (suc n) f i h = elim (dec_lt i n) [
    | yes below ↦ ground (arith, total-at n f i below)
    | no last ↦ ground arith
  ]

  pub total-none : (n : ℕ) (f : ℕ → A) → ((i : ℕ) → i < n → w (f i) ≡ 0) → total n f ≡ 0
  unfolding total
  total-none zero f h = refl
  total-none (suc n) f h =
      omega (arith, h n (omega arith), total-none n f (λ i lt. h i (omega arith)))

  -- A positive total has a caller that counts for it.
  pub total-positive : (n : ℕ) (f : ℕ → A) → 1 ≤ total n f → (i : ℕ) × (i < n) × (1 ≤ w (f i))
  unfolding total
  total-positive zero f h = absurd (omega arith)
  total-positive (suc n) f h = elim (dec_lt 0 (w (f n))) [
    | yes here ↦ (n, omega arith, omega arith)
    | no below ↦ let (i, lt, p) = total-positive n f (omega arith) in (i, omega arith, p)
  ]

module _ {A : Type 0} where
  pub total-sum :
      (u v w : A → ℕ) (n : ℕ) (f : ℕ → A)
      → ((a : A) → u a ≤ v a + w a)
      → total u n f ≤ total v n f + total w n f
  unfolding total
  total-sum u v w zero f h = omega arith
  total-sum u v w (suc n) f h = omega (arith, h (f n), total-sum u v w n f h)

  pub total_mono :
      (v w : A → ℕ) (n : ℕ) (f : ℕ → A) → ((a : A) → v a ≤ w a) → total v n f ≤ total w n f
  unfolding total
  total_mono v w zero f h = omega arith
  total_mono v w (suc n) f h = omega (arith, h (f n), total_mono v w n f h)
