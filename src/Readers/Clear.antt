-- ===== src/Readers/Clear.antt =====
-- What `epochIsClear` tells the reclaimer.
use writeboost_rcu.Common.{
  ℕ, zero, suc, ◌<◌, ◌≡◌, ◌≢◌, ◌↔◌, refl, true, false, ◌==◌, update, arith, ℕ_discrete,
}
use writeboost_rcu.Readers.{Counters, reading_of, increment, decrement, any_reading, epoch_is_clear}

pub any_reading-hit :
    (n : ℕ) (m : Counters) (reading k : ℕ) → k < n → m k ≡ reading → any_reading n m reading ≡ true
unfolding any_reading
any_reading-hit zero m reading k lt e = absurd (omega arith)
any_reading-hit (suc n) m reading k lt e = elim (ℕ_discrete k n) [
  | yes last ↦ ground arith
  | no before ↦ ground (arith, any_reading-hit n m reading k (omega arith) e)
]

any_reading-miss :
    (n : ℕ) (m : Counters) (reading : ℕ)
    → ((k : ℕ) → k < n → m k ≢ reading)
    → any_reading n m reading ≡ false
unfolding any_reading
any_reading-miss zero m reading h = refl
any_reading-miss (suc n) m reading h =
    ground (arith, h n (omega arith), any_reading-miss n m reading (λ k lt. h k (omega arith)))

-- `epoch_is_clear` answers true exactly when no thread's byte says that it reads in the epoch.
pub epoch_is_clear_iff :
    (n : ℕ) (m : Counters) (epoch : ℕ)
    → (epoch_is_clear n m epoch ≡ true) ↔ ((k : ℕ) → k < n → m k ≢ reading_of epoch)
unfolding epoch_is_clear
epoch_is_clear_iff n m epoch = (
  λ h k lt e. ground (arith, any_reading-hit n m (reading_of epoch) k lt e),
  λ h. ground (arith, any_reading-miss n m (reading_of epoch) h),
)

any_reading-cong :
    (n : ℕ) (m m' : Counters) (reading : ℕ)
    → ((k : ℕ) → (m k == reading) ≡ (m' k == reading))
    → any_reading n m reading ≡ any_reading n m' reading
unfolding any_reading
any_reading-cong zero m m' reading h = refl
any_reading-cong (suc n) m m' reading h = ground (arith, h n, any_reading-cong n m m' reading h)

-- A thread that enters an epoch, 0 or 1, keeps that epoch from being clear and not the other one,
-- and one that leaves keeps neither.
pub reader_blocks :
    (n : ℕ) (m : Counters) (thread epoch other : ℕ)
    → thread < n
    → epoch < 2
    → other < 2
    → epoch ≢ other
    → (epoch_is_clear n (increment m thread epoch) epoch ≡ false)
      × (epoch_is_clear n (increment m thread epoch) other
          ≡ epoch_is_clear n (decrement m thread) other)
unfolding epoch_is_clear increment decrement
reader_blocks n m thread epoch other lt e o ne = (
  ground (
    arith,
    any_reading-hit n (update m thread (reading_of epoch)) (reading_of epoch) thread lt
        (ground arith),
  ),
  ground (
    arith,
    any_reading-cong n (update m thread (reading_of epoch)) (update m thread 0) (reading_of other)
        (λ k. ground arith),
  ),
)
