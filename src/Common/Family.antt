-- ===== src/Common/Family.antt =====
-- Families indexed by thread: a write at one index, and weighted sums over the first `n` threads.
use native.Mathlib.Nat.{add-mul}
use Prim.Native.Nat.{ℕ, zero, suc, ◌+◌, ◌*◌, ◌≤◌, ◌<◌}
use mathlib.Core.Path.{◌≡◌, refl, fun_ext}
use native.Mathlib.Omega.{arith}
use native.Mathlib.Decide.{dec_lt, ℕ_discrete}
use writeboost_rcu.Common.Tests.{◌==◌, if◌then◌else◌}

abbrev pub update {ℓ} : {A : Type ℓ} → (ℕ → A) → ℕ → A → ℕ → A
update f i a j = if i == j then a else f j

-- A map of the members goes with a write.
pub update-map {ℓ κ} :
    {A : Type ℓ} {B : Type κ} (g : A → B) (f : ℕ → A) (i : ℕ) (a : A)
    → (λ j. g (update f i a j)) ≡ update (λ j. g (f j)) i (g a)
update-map g f i a =
    fun_ext (λ j. elim (ℕ_discrete i j) [ yes same ↦ ground arith | no apart ↦ ground arith ])

-- A write of what is there.
pub update-same {ℓ} : {A : Type ℓ} (f : ℕ → A) (i : ℕ) → update f i (f i) ≡ f
update-same f i =
    fun_ext (λ j. elim (ℕ_discrete i j) [ yes same ↦ ground arith | no apart ↦ ground arith ])

module _ {ℓ} {A : Type ℓ} (w : A → ℕ) where
  pub total : ℕ → (ℕ → A) → ℕ
  total zero f = 0
  total (suc n) f = total n f + w (f n)

  total_agree : (n : ℕ) (f g : ℕ → A) → ((j : ℕ) → j < n → g j ≡ f j) → total n g ≡ total n f
  unfolding total
  total_agree zero f g same = refl
  total_agree (suc n) f g same =
      let rest = total_agree n f g (λ j below. same j (omega arith)) in
      rw (rest, same n (omega arith))

  update_apart : (f : ℕ → A) (i : ℕ) (a : A) (j : ℕ) → ¬ (i ≡ j) → update f i a j ≡ f j
  update_apart f i a j apart = ground arith

  -- A thread that moves changes the sum by the change of its own weight.
  pub total-update :
      (threads : ℕ) (f : ℕ → A) (i : ℕ) (new : A)
      → i < threads
      → total threads (update f i new) + w (f i) ≡ total threads f + w new
  unfolding total
  total-update zero f i new inside = absurd (omega arith)
  total-update (suc n) f i new inside = elim (ℕ_discrete i n) [
    | yes e ↦
        let rest =
          total_agree n f (update f i new)
            (λ j below. update_apart f i new j (λ same. omega arith)) in
        ground (arith, rest)
    | no apart ↦
        let rest = total-update n f i new (omega arith) in
        ground (arith, rest, update_apart f i new n apart)
  ]

  pub le-total : (n : ℕ) (f : ℕ → A) (i : ℕ) → i < n → w (f i) ≤ total n f
  unfolding total
  le-total zero f i h = absurd (omega arith)
  le-total (suc n) f i h = elim (ℕ_discrete i n) [
    | yes e ↦ ground arith
    | no ne ↦ omega (arith, le-total n f i (omega arith))
  ]

  -- Two threads of weight one make a sum of two.
  pub total_two : (n : ℕ) (f : ℕ → A) (i j : ℕ) → i < j → j < n → w (f i) + w (f j) ≤ total n f
  unfolding total
  total_two zero f i j p q = absurd (omega arith)
  total_two (suc n) f i j p q = elim (ℕ_discrete j n) [
    | yes e ↦ ground (arith, le-total n f i (omega arith))
    | no ne ↦ omega (arith, total_two n f i j p (omega arith))
  ]

  pub total_unique :
      (n : ℕ) (f : ℕ → A) (i j : ℕ)
      → i < n
      → j < n
      → total n f ≤ 1
      → 0 < w (f i)
      → 0 < w (f j)
      → i ≡ j
  total_unique n f i j p q h a b = elim (dec_lt i j) [
    | yes below ↦ absurd (omega (arith, total_two n f i j below q))
    | no nb ↦ elim (dec_lt j i) [
      | yes above ↦ absurd (omega (arith, total_two n f j i above p))
      | no na ↦ omega arith
    ]
  ]

  -- A positive sum has a thread of positive weight.
  pub total_pos : (n : ℕ) (f : ℕ → A) → 0 < total n f → (i : ℕ) × (i < n) × (0 < w (f i))
  unfolding total
  total_pos zero f h = absurd (omega arith)
  total_pos (suc n) f h = elim (dec_lt 0 (w (f n))) [
    | yes here ↦ (n, omega arith, here)
    | no nh ↦ let (i, lt, pos) = total_pos n f (omega arith) in (i, omega arith, pos)
  ]

  pub total-const : (n : ℕ) (a : A) → w a ≡ 0 → total n (λ _. a) ≡ 0
  unfolding total
  total-const zero a h = refl
  total-const (suc n) a h = omega (arith, total-const n a h)

pub total_mono {ℓ} :
    {A : Type ℓ} (w u : A → ℕ) (n : ℕ) (f : ℕ → A)
    → ((a : A) → w a ≤ u a)
    → total w n f ≤ total u n f
unfolding total
total_mono w u zero f h = omega arith
total_mono w u (suc n) f h = omega (arith, h (f n), total_mono w u n f h)

pub total_zero {ℓ} :
    {A : Type ℓ} (w : A → ℕ) (n : ℕ) (f : ℕ → A) → ((i : ℕ) → i < n → w (f i) ≡ 0) → total w n f ≡ 0
unfolding total
total_zero w zero f h = refl
total_zero w (suc n) f h =
    omega (arith, h n (omega arith), total_zero w n f (λ i lt. h i (omega arith)))

-- A weight that is linear in another one has a sum that is.
pub total_bound {ℓ} :
    {A : Type ℓ} (w v : A → ℕ) (b : ℕ) (f : ℕ → A)
    → ((a : A) → w a ≤ v a * b + 1)
    → (n : ℕ) → total w n f ≤ total v n f * b + n
unfolding total
total_bound w v b f h zero = omega arith
total_bound w v b f h (suc n) =
    omega (arith, h (f n), total_bound w v b f h n, add-mul (total v n f) (v (f n)) b)
